-- ===== src/Editor.antt =====
-- The editor's own state and views: client/src/components/editor.
pub mod Groups
pub mod History
pub mod Layout
pub mod Search
