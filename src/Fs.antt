-- ===== src/Fs.antt =====
-- pootle/apps/pootle_fs: the state of a project's stores and files, and the plugin that stages
-- and synchronises them.
pub mod Model
pub mod Resources
pub mod State
pub mod Response
pub mod Tables
pub mod Plugin
pub mod Files
pub mod Transfer
pub mod Sync
mod Tests
