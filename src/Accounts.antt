-- ===== src/Accounts.antt =====
-- pootle/apps/accounts/utils.py: merging and purging of users.
pub mod Site
pub mod Raise
pub mod Rows
pub mod Merge
pub mod Reverts
pub mod Purge
pub mod Emails
mod Tests
