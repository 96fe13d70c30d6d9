-- ===== src/Project.antt =====
-- The rules on project files: client/src/import/pathSafety.ts and ignoreRules.ts, and
-- client/src/crdt/projectPathRules.ts.
pub mod Path
pub mod Entry
pub mod Ignore
pub mod Import
