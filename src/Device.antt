-- ===== src/Device.antt =====
-- The application around the parsers: its global state, its input and output, signing, and the
-- handlers of the commands.
pub mod Context
pub mod Io
pub mod Sound
pub mod Crypto
pub mod Handlers
