-- ===== src/Core.antt =====
-- pootle/core: the classes that the applications build on.
pub mod Response
pub mod Batch
mod Tests
