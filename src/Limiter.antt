-- ===== src/Limiter.antt =====
-- The limiters (limiter/).
pub mod Conn
pub mod Table
pub mod Listener
pub mod Traffic
pub mod Stream
pub mod Packets
pub mod Rate
