-- ===== src/Ntd/Answers.antt =====
-- ntd/ntd.c: what the handlers and the sweeps post, and which waits they leave open.
pub mod Tally
pub mod Writes
pub mod Registering
pub mod Waking
pub mod Scans
pub mod Sync
pub mod Waits
pub mod Close
pub mod Ports
pub mod Tasks
pub mod Once
