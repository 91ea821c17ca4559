-- ===== src/Server.antt =====
-- Project2/source/server.c: the bank offices and the main thread.
pub mod Start
pub mod Serve
pub mod Offices
mod Tests
