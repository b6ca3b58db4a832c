-- ===== src/Mcp.antt =====
-- Package mcp: messages over a pipe, calls that wait for a reply, and tools of other processes.
pub mod Codec
pub mod Framing
pub mod Bridge
pub mod Calls
pub mod Keys
pub mod Answers
