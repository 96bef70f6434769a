-- ===== src/Model.antt =====
-- model/*.go and the message types of protocol/Message.proto that the services exchange. A pointer
-- that may be nil is an Option; a netty.HandlerContext is the number of its channel.
pub mod Config
pub mod Wire
pub mod Messages
