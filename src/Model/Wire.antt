-- ===== src/Model/Wire.antt =====
-- Messages of protocol/Message.proto, as far as the services read or write them.
use vilan_peer.Base.{ℕ, Bool, List, Option}

-- protocol.Sock
pub record Sock : Type 0 where
  pub addr : ℕ
  pub port : ℕ

-- protocol.IpNet
pub record IpNet : Type 0 where
  pub net_addr : ℕ
  pub net_bit_len : ℕ

-- The types of a MsgDataFrame; `other` is any other MsgType.
pub data DataType : Type 0 where
  packet p2p_try ping pong other : DataType

-- protocol.MsgDataFrame
pub record DataFrame : Type 0 where
  pub msg_type : DataType
  pub src_mac : ℕ
  pub dst_mac : ℕ
  pub token : ℕ
  pub payload : List ℕ

-- protocol.MsgP2PTrigger
pub record P2pTrigger : Type 0 where
  pub src_mac : ℕ
  pub dst_mac : ℕ

-- protocol.MsgP2PAck
pub record P2pAck : Type 0 where
  pub peer_mac : ℕ
  pub valid : Bool
  pub other_extern_sock : Option Sock
