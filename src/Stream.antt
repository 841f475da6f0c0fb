-- ===== src/Stream.antt =====
-- firmware/streamline/src/stream/ and the audio policy behind it.
pub mod Queue
pub mod Levels
pub mod Play
pub mod Wire
pub mod Status
pub mod Capture
pub mod Network
pub mod Pause
mod Tests
