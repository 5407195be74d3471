-- ===== src/Transport.antt =====
-- backend/src/SrtpTransport.ts: the SRTP transport's configuration, its traffic counts and its resets.
pub mod Config
pub mod Stats
pub mod Credentials
pub mod Reset
pub mod Serving
pub mod Lifecycle
mod Tests
