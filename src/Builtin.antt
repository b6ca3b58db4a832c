-- ===== src/Builtin.antt =====
-- The built-in tools of tool/builtin.go.
pub mod Calculator
pub mod Profile
