-- ===== src/Data.antt =====
-- pootle/apps/pootle_data: the statistics of stores, translation projects and directories.
pub mod Checks
pub mod Units
pub mod Totals
pub mod Children
mod Tests
