-- ===== src/Score.antt =====
-- pootle/apps/pootle_score and pootle/apps/pootle_log: the scores of users from logged events.
pub mod Log
pub mod Calculate
pub mod Update
pub mod Totals
mod Tests
