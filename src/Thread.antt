-- ===== src/Thread.antt =====
-- The threads of the program (src/thread): the pools, and what they synchronise with.
pub mod Pool
pub mod Waking
pub mod ShareMutex
pub mod Semaphore
pub mod BlockQueue
mod Examples
