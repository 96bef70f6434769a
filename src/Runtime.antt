-- ===== src/Runtime.antt =====
-- service/runtime_service.go: the state of the peer, its connection to the server, and the
-- messages that it exchanges with it.
pub mod State
pub mod Send
pub mod Link
pub mod Auth
pub mod Peers
pub mod Pages
pub mod Life
pub mod Secrets
