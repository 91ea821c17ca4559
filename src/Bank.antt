-- ===== src/Bank.antt =====
-- Project2/source: the bank server and its client.
pub mod Types
pub mod State
pub mod Password
pub mod Accounts
pub mod Reply
pub mod Invariant
pub mod Semaphores
pub mod Tests
