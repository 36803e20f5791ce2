-- ===== src/Net.antt =====
-- The event loop (src/net).
pub mod Pipe
pub mod EPoll
pub mod Loop
pub mod Timer
pub mod TimedLoop
pub mod LoopPool
