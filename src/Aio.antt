-- ===== src/Aio.antt =====
-- The asynchronous files of the program (src/aio).
pub mod Operator
pub mod Manager
pub mod Poll
pub mod Log
pub mod Files
