-- ===== src/Httpapi.antt =====
-- Package httpapi: tool calls that wait for a decision over HTTP (httpapi/approve.go).
pub mod Park
pub mod Granted
