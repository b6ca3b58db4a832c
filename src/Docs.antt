-- ===== src/Docs.antt =====
-- The documents of a knowledge base: paths under a root, and the tools on them (tool/docs.go).
pub mod Paths
pub mod Inside
pub mod Resolve
pub mod Reading
pub mod Confined
