-- ===== src/Transport.antt =====
-- firmware/streamline/src/transport.rs: the transport policy, the life of the per-device keys, and the
-- sender that reconnects.
pub mod Keys
pub mod Settings
pub mod Sender
pub mod WriteAll
mod Tests
