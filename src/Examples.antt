-- ===== src/Examples.antt =====
-- Concrete inputs, tests of the definitions on them, and the theorems at them.
mod Data
mod Conversations
mod Measures
mod Profiles
mod Runs
mod Clients
mod Documents
mod Environments
mod Retrievals
mod Servers
mod Tasks
mod Registries
mod Sessions
mod Sums
