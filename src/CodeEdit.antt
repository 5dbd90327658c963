-- ===== src/CodeEdit.antt =====
-- code_edit/: edits of files through the scoped file system. The calls of one edit bear one time.
pub mod Lines
pub mod MultiFile
pub mod Patcher
pub mod Diff
pub mod SearchReplace
pub mod AstRefactor
