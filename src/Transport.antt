-- ===== src/Transport.antt =====
-- The HTTP layer of Backend/transport/http.go.
pub mod Limiter
pub mod Number
pub mod Credential
pub mod Peer
pub mod Message
pub mod Routes
pub mod Serve
pub mod Access
pub mod Status
pub mod Internal
pub mod Guards
pub mod Sessions
pub mod Keys
pub mod Flow
pub mod Logout
pub mod Errors
pub mod Admission
pub mod Retries
