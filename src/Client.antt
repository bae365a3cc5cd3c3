-- ===== src/Client.antt =====
-- ntabi/lib/libntabi.c, the client library: submission of a request, and the calls built on it.
pub mod Submit
pub mod Queue
pub mod Calls
pub mod Served
pub mod Names
