-- ===== src/Network.antt =====
-- The network layer of rubigram/network.
pub mod Http
pub mod Pool
pub mod Retry
pub mod Transfers
mod Tests
