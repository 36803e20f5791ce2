-- ===== src/Tool.antt =====
-- The program's tools (src/tool).
pub mod StringBuffer
pub mod Funcs
pub mod Timestamp
pub mod TimeWheel
pub mod Any
