-- ===== src/Tests.antt =====
-- Runs of the models and their theorems at concrete inputs.
pub mod Daemon
pub mod Waits
pub mod Rings
pub mod Clients
pub mod Devices
pub mod Regions
pub mod Network
pub mod Usb
pub mod Arrivals
pub mod Images
mod Starts
mod Tools
