-- ===== src/Integration.antt =====
-- Backend/cmd/g1integration/main.go: the integration test of a backend, a game server and clients,
-- as the program that it is: what it starts, what it waits for, and what it releases.
pub mod Script
pub mod Setup
pub mod Modes
pub mod Race
pub mod Main
pub mod Keeps
pub mod Release
