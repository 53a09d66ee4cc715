-- ===== src/Store.antt =====
-- pootle/apps/pootle_store: units, and the update of a store from a file.
pub mod Unit
pub mod Updater
pub mod Diff
pub mod StoreUpdater
pub mod Syncer
mod Tests
