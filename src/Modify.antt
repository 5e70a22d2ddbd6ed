-- ===== src/Modify.antt =====
-- src/fdw/modify: the UPDATE and DELETE path.
pub mod RowId
pub mod BlobTable
pub mod Handoff
pub mod Kernel
pub mod Edits
pub mod Coordinator
pub mod Commit
