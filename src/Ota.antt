-- ===== src/Ota.antt =====
-- The firmware update: firmware/streamline/src/update.rs and the files below update/, and the restart of
-- firmware/streamline/src/restart.rs.
pub mod Release
pub mod Custom
pub mod Install
pub mod Progress
mod Tests
