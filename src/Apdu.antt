-- ===== src/Apdu.antt =====
-- apdu/ and main.c: commands from bytes, their dispatch, and the main loop.
pub mod Parser
pub mod Dispatcher
pub mod Session
pub mod Loop
