-- ===== src/Workspace.antt =====
-- crates/kraai-workspace-fs/src: changes to the files of a workspace.
pub mod Edits
