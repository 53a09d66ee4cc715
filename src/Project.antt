-- ===== src/Project.antt =====
-- pootle/apps/pootle_project: the mapping of language codes between a project's files and Pootle.
pub mod LangMapper
mod Tests
