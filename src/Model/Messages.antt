-- ===== src/Model/Messages.antt =====
-- Messages of protocol/Message.proto between a peer and the server, as far as the services write or
-- read them. A frame has one type and the message of that type.
use vilan_peer.Base.{ℕ, Bool, List, Option, String, ℤ}
use vilan_peer.Model.Wire.{Sock, IpNet, P2pTrigger, P2pAck}

-- protocol.Statistics
pub record Statistics : Type 0 where
  pub trans_send : ℕ
  pub trans_receive : ℕ
  pub p2p_send : ℕ
  pub p2p_receive : ℕ

-- protocol.MsgAuth
pub record Auth : Type 0 where
  pub peer_mac : ℕ
  pub peer_name : String
  pub group : String
  pub password : String
  pub peer_addr : Option IpNet
  pub inner_addr : Option IpNet
  pub auto_mac : Bool
  pub auto_ip : Bool
  pub link_mode : ℕ
  pub link_quality : ℕ

-- protocol.MsgAuthAck
pub record AuthAck : Type 0 where
  pub auth_res : ℤ
  pub token : ℕ
  pub assign_mac : Bool
  pub peer_mac : ℕ
  pub assign_ip : Bool
  pub peer_addr : Option IpNet
  pub sock : Option Sock

-- protocol.MsgUnAuth
pub record UnAuth : Type 0 where
  pub peer_mac : ℕ
  pub group : String
  pub token : ℕ

-- protocol.MsgPing
pub record Ping : Type 0 where
  pub peer_name : String
  pub peer_addr : Option IpNet
  pub inner_addr : Option IpNet
  pub stats : Statistics
  pub link_mode : ℕ
  pub link_quality : ℕ

-- protocol.PeerInfo, without the text fields that no service reads.
pub record PeerInfo : Type 0 where
  pub peer_name : String
  pub net_addr : ℕ
  pub inter_addr : ℕ
  pub peer_mac : ℕ
  pub net_bit_len : ℕ
  pub inter_net_bit_len : ℕ
  pub online : Bool

-- protocol.MsgState
pub record StateChange : Type 0 where
  pub peer_mac : ℕ
  pub online : Bool
  pub peer_info : Option PeerInfo

-- protocol.MsgConfig
pub record Config : Type 0 where
  pub src_mac : ℕ
  pub dst_mac : ℕ
  pub new_name : String
  pub inner_addr : Option IpNet

-- protocol.MsgConfigAck
pub record ConfigAck : Type 0 where
  pub src_mac : ℕ
  pub dst_mac : ℕ
  pub is_ok : Bool
  pub tip : String

-- protocol.MsgGroupPeersRequest
pub record GroupPeersRequest : Type 0 where
  pub src_mac : ℕ
  pub group_name : String

-- protocol.MsgGroupPeersResponse
pub record GroupPeersResponse : Type 0 where
  pub cookie : ℕ
  pub peer_info : List PeerInfo

-- protocol.MsgPeerLinksRequest
pub record LinksRequest : Type 0 where
  pub src_mac : ℕ
  pub dst_mac : ℕ

-- protocol.LinkInfo
pub record LinkInfo : Type 0 where
  pub addr : ℕ
  pub rx : ℕ
  pub tx : ℕ

-- protocol.MsgPeerLinksResponse. The decoder leaves `link_info` nil where it is empty.
pub record LinksResponse : Type 0 where
  pub src_mac : ℕ
  pub dst_mac : ℕ
  pub cookie : ℕ
  pub link_info : List LinkInfo

pub data PeerBody : Type 0 where
  auth : Auth → PeerBody
  un_auth : UnAuth → PeerBody
  ping : Ping → PeerBody
  group_peers_request : GroupPeersRequest → PeerBody
  links_request : LinksRequest → PeerBody
  links_response : LinksResponse → PeerBody
  config : Config → PeerBody
  config_ack : ConfigAck → PeerBody

-- protocol.MsgPeerFrame
pub record PeerFrame : Type 0 where
  pub peer_mac : ℕ
  pub token : ℕ
  pub body : PeerBody

-- protocol.MsgServerFrame, by its type; the message of that type may be missing. `other` is a type
-- that the peer does not handle.
pub data ServerFrame : Type 0 where
  auth_ack : Option AuthAck → ServerFrame
  p2p_trigger : Option P2pTrigger → ServerFrame
  p2p_ack : Option P2pAck → ServerFrame
  state_changed : Option StateChange → ServerFrame
  pong : Option (Option Sock) → ServerFrame
  group_peers_response : Option GroupPeersResponse → ServerFrame
  links_request : Option LinksRequest → ServerFrame
  links_response : Option LinksResponse → ServerFrame
  config : Option Config → ServerFrame
  config_ack : Option ConfigAck → ServerFrame
  other : ServerFrame
