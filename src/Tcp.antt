-- ===== src/Tcp.antt =====
-- The connections of the program (src/tcp).
pub mod Socket
pub mod Connection
pub mod Server
pub mod Listen
