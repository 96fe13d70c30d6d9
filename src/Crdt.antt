-- ===== src/Crdt.antt =====
-- client/src/crdt: the shared text and the shared file tree.
pub mod Id
pub mod Document
pub mod Pending
pub mod Cursor
pub mod Compression
pub mod Offline
pub mod Tree
