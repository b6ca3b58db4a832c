-- ===== src/Agent.antt =====
-- Package agent.
pub mod Clip
pub mod Turns
pub mod Protocol
pub mod Summary
pub mod Settings
pub mod Compress
pub mod Spoken
pub mod Fold
pub mod Memory
pub mod Profile
pub mod History
pub mod Loop
pub mod Run
pub mod Handoff
