-- ===== src/Crdt/Tree.antt =====
-- crdt/ProjectTree.ts: the shared file tree.
pub mod Op
pub mod Registers
pub mod Visible
pub mod Compact
pub mod Class
mod Tests
