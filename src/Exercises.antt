-- ===== src/Exercises.antt =====
-- The exercises of the course: threads, processes, signals, pipes and copies of files.
pub mod Fill
pub mod Copy
pub mod Limit
pub mod Children
pub mod Fifo
pub mod Sums
pub mod Signals
pub mod Typed
pub mod Forks
pub mod Hello
