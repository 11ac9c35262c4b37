-- ===== src/Tests.antt =====
-- The theorems applied to concrete data, and runs of the code on it.
pub mod Sample
pub mod Leases
pub mod Commits
pub mod Admission
pub mod Rates
pub mod Migrations
pub mod Http
pub mod Server
pub mod Tickets
pub mod Ends
pub mod Integration
pub mod Calls
pub mod Runner
pub mod Order
pub mod Retries
pub mod Requests
