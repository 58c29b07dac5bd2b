-- ===== src/Tests.antt =====
-- Concrete inputs, runs of the model on them, and the theorems at them.
mod Inputs
mod Transfers
mod Commands
mod Sessions
mod Layouts
mod Runs
mod Screens
mod Texts
mod Bytes
