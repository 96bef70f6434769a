-- ===== src/P2p.antt =====
-- service/p2p_service.go: direct connections between peers. A punch socket asks the server for the
-- peer's public address, a try socket exchanges tries with the peer, an established socket carries
-- data. The children prove.
pub mod State
pub mod Owned
pub mod Sound
pub mod Reachable
pub mod Punch
pub mod Connect
pub mod Check
pub mod Handler
