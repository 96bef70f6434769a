-- ===== src/Runtime/State.antt =====
-- The state of RuntimeService, the services that it calls, and what it sees of its surroundings.
use vilan_peer.Base.{
  ℕ, ◌+◌, ◌-◌, ◌/◌, ◌%◌, ◌^◌, Bool, true, false, List, [], ◌∷◌, ◌++◌, Option, none, some,
}
use vilan_peer.Base.{String, Map, load, ◌==◌, if◌then◌else◌, ltb, ℤ, not, leb}
use vilan_peer.Model.Config.{AppConfig, PeerState, number}
use vilan_peer.Model.Wire.{Sock, IpNet, DataFrame}
use vilan_peer.Model.Messages.{Statistics, PeerInfo, LinkInfo, PeerFrame}
use vilan_peer.P2p.State.{P2p, Env}
use vilan_peer.Tap.{Tap, Os}

-- model.ServerSockContext; `bootstrap` says whether initServerSocket has made one.
pub record ServerSock : Type 0 where
  pub bootstrap : Bool
  pub handler : Option ℕ
  pub token : ℕ
  pub last_receive : ℕ
  pub heartbeat : ℕ
  pub offline : ℕ
  pub connected : Bool

-- model.RouteInfo
pub record RouteInfo : Type 0 where
  pub destination : ℕ
  pub mask : ℕ
  pub gateway : ℕ

-- common.Crypt: the constructor that was called, and the key of its object, or `none` where the pointer
-- that it returned is nil; of RSA, whether the peer's keys were read. A nil pointer is stored in the
-- interface too, which is then not nil.
pub data Crypt : Type 0 where
  aes : Option (List ℕ) → Crypt
  des : Option (List ℕ) → Crypt
  rsa : Bool → Crypt

-- What the service does to its surroundings, oldest first.
pub data Effect : Type 0 where
  sent : ℕ → PeerFrame → Effect
  relayed : ℕ → DataFrame → Effect
  showed_state : PeerState → Effect
  showed_peers : Effect
  showed_stats : Effect
  saved_config : AppConfig → Effect
  stopped_server : Effect
  closed_channel : ℕ → Effect
  answered_config : ℕ → Option String → Effect
  told_serial : ℕ → Bool → Effect

-- RuntimeService after Init. The waiting callers of UpdateConfig are numbered.
pub record Runtime : Type 0 where
  pub running : Bool
  pub config : AppConfig
  pub crypt : Option Crypt
  pub peer_state : PeerState
  pub server_sock : ServerSock
  pub server_channel : Option ℕ
  pub link_mode : ℕ
  pub link_quality : ℕ
  pub extern_sock : Option Sock
  pub local_ip : Option IpNet
  pub local_ip_str : List ℕ
  pub stats : Statistics
  pub last_route : Option RouteInfo
  pub group_peer_cookie : ℕ
  pub group_peers : Map PeerInfo
  pub link_infos : Map (List LinkInfo)
  pub link_info_req_cookie : Map ℕ
  pub config_send : Map ℕ
  pub log : List Effect

-- What package wifi answers for an interface: it does not list it, StationInfo fails, StationInfo
-- finds no station, or the signal of the first station in dBm, an int.
pub data Station : Type 0 where
  unlisted station_error no_station : Station
  signal : ℤ → Station

-- A network interface: its addresses, `none` where they cannot be read, its type where GetIfType
-- finds it, and its station.
pub record Interface : Type 0 where
  pub addrs : Option (List (List ℕ))
  pub if_type : Option ℕ
  pub station : Station

-- The surroundings: the clock in nanoseconds, the sockets, the network interfaces (`none` where the
-- system cannot list them), the ARP table, rand.Uint32, and common.AesEncrypt followed by base64.
pub record Host : Type 0 where
  pub now : ℕ
  pub connect : ℕ → Option (List ℕ)
  pub little_endian : Bool
  pub os : Os
  pub ping_server : Bool
  pub ping_net : Bool
  pub server_connect : Option (ℕ × List ℕ)
  pub handler_addr : List ℕ
  pub local_net : List ℕ → Option (List ℕ × ℕ)
  pub interfaces : Option (List Interface)
  pub arp_table : List (List ℕ)
  pub random : ℕ
  pub encrypt_pwd : String → Option String
  pub rsa_keys : Bool

-- config.AppConfig and the services of the package app.
pub record World : Type 0 where
  pub app_config : AppConfig
  pub runtime : Runtime
  pub p2p : P2p
  pub tap : Tap

-- time.Now().Unix()
abbrev pub unix : Host → ℕ
unix host = host.now / 1_000_000_000

abbrev pub is_some {ℓ} : {A : Type ℓ} → Option A → Bool
is_some none = false
is_some (some a) = true

-- FindPeer
abbrev pub find_peer : ℕ → Runtime → Option PeerInfo
find_peer mac r = load mac r.group_peers

-- What P2pService sees.
abbrev pub p2p_env : Host → World → Env
p2p_env host w = record {
  now = host.now;
  config = w.app_config;
  find_peer = λ mac. is_some (find_peer mac w.runtime);
  connect = host.connect;
  little_endian = host.little_endian;
}

abbrev pub emit : Effect → Runtime → Runtime
emit e r = record r { log = r.log ++ (e ∷ []) }

-- SetPeerState
unfoldable pub set_peer_state : PeerState → Runtime → Runtime
set_peer_state state r =
    if number r.peer_state == number state
    then r
    else emit (showed_state state) (record r { peer_state = state })

-- r.peerState < model.StateConnOk
abbrev pub not_connected : Runtime → Bool
not_connected r = ltb (number r.peer_state) 4

-- The errors that the service returns.
pub data Error : Type 0 where
  unconnected no_handler no_message no_sock bad_frame bad_mac bad_ip rejected : Error
  no_local_ip no_links not_allowed no_ping no_server crypt_failed tap_failed : Error

-- How a call ends.
pub data Reply : Type 0 where
  done : Reply
  failed : Error → Reply
  panicked : Reply

-- ServerSockContext.IsConnected. The clock does not run backwards; `heartbeat + 3` is a uint32.
unfoldable pub is_connected : Host → ServerSock → Bool
is_connected host sock =
    if not sock.connected
    then false
    else if leb sock.offline (unix host - sock.last_receive)
    then false
    else if ltb ((sock.heartbeat + 3) % 2 ^ 32) (unix host - sock.last_receive)
    then host.ping_net
    else true
