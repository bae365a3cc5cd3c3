-- ===== src/Ntd.antt =====
-- ntd/ntd.c, the NT userspace service daemon. State and operations, then what they keep.
pub mod State
pub mod Complete
pub mod Handles
pub mod Objects
pub mod Timeouts
pub mod Waiters
pub mod Multiwaits
pub mod Sync
pub mod Waits
pub mod Close
pub mod Ports
pub mod Tasks
pub mod Dispatch
pub mod Start
pub mod Isolation
pub mod Deadlines
pub mod Order
pub mod Delivery
pub mod Selection
pub mod Limits
pub mod Answers
pub mod Counts
pub mod Calm
