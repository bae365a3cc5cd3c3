-- ===== src/Ntbridge.antt =====
-- driver/ntbridge: the shared-memory rings between the Linux host and the driver cell.
pub mod Ring
pub mod Messages
pub mod Region
pub mod Host
pub mod Guest
