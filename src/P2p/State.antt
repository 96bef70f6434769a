-- ===== src/P2p/State.antt =====
-- The state of P2pService, the socket contexts of model/sock_info.go that it shares with the
-- handlers, and what the service sees of its surroundings.
use vilan_peer.Base.{ℕ, ◌/◌, Bool, List, [], ◌∷◌, ◌++◌, Option}
use vilan_peer.Base.{Map, ◌==◌, if◌then◌else◌}
use vilan_peer.Model.Config.{AppConfig}
use vilan_peer.Model.Wire.{Sock, DataFrame, P2pTrigger}

-- model.PeerSockContext. Its bootstrap has the number of the context.
pub record PeerSock : Type 0 where
  pub peer_mac : ℕ
  pub handler : Option ℕ
  pub local_sock : Option Sock
  pub try_conn_count : ℕ
  pub last_try_conn_time : ℕ
  pub last_receive : ℕ
  pub ping_try_count : ℕ
  pub heartbeat : ℕ
  pub offline : ℕ
  pub connected : Bool

-- model.PunchSockContext
pub record PunchSock : Type 0 where
  pub peer_mac : ℕ
  pub handler : Option ℕ
  pub local_sock : Option Sock
  pub start_time : ℕ
  pub last_receive : ℕ
  pub connected : Bool

-- model.PunchFailInfo; the time is in nanoseconds.
pub record PunchFail : Type 0 where
  pub dst_mac : ℕ
  pub failed_count : ℕ
  pub failed_time : ℕ

-- What the service does to its surroundings, oldest first.
pub data Event : Type 0 where
  wrote_data : ℕ → DataFrame → Event
  wrote_trigger : ℕ → P2pTrigger → Event
  stopped_peer : ℕ → Event
  stopped_punch : ℕ → Event
  updated_peers : Event
  wrote_tap : List ℕ → Event

-- P2pService, with the contexts that its maps point to. The maps are those that Start made, and
-- `cancel_func` says whether it has set a function to cancel the loop.
pub record P2p : Type 0 where
  pub running : Bool
  pub cancel_func : Bool
  pub p2p_failed_time : ℕ
  pub punch_socks : Map ℕ
  pub p2p_try_socks : Map ℕ
  pub p2p_socks : Map ℕ
  pub his_p2p_fail_info : Map PunchFail
  pub peers : ℕ → PeerSock
  pub punches : ℕ → PunchSock
  pub next_ref : ℕ
  pub log : List Event

-- The clock in nanoseconds, config.AppConfig, RuntimeService.FindPeer, the result of
-- Bootstrap.Connect for the context of a number (the local address, or `none` for an error), and
-- the byte order.
pub record Env : Type 0 where
  pub now : ℕ
  pub config : AppConfig
  pub find_peer : ℕ → Bool
  pub connect : ℕ → Option (List ℕ)
  pub little_endian : Bool

-- time.Now().Unix()
abbrev pub unix : Env → ℕ
unix env = env.now / 1_000_000_000

abbrev pub update {ℓ} : {A : Type ℓ} → (ℕ → A) → ℕ → A → ℕ → A
update f i a j = if i == j then a else f j

abbrev pub own_mac : Env → ℕ
own_mac env = env.config.tap_config.hw_mac

abbrev pub emit : Event → P2p → P2p
emit e s = record s { log = s.log ++ (e ∷ []) }

abbrev pub set_peer : ℕ → PeerSock → P2p → P2p
set_peer r v s = record s { peers = update s.peers r v }

abbrev pub set_punch : ℕ → PunchSock → P2p → P2p
set_punch r v s = record s { punches = update s.punches r v }

-- The errors that the service returns, by their texts.
pub data Error : Type 0 where
  punch_expired bad_punch_sock no_punch_sock connect_failed bad_local_addr : Error
  trigger_nil not_needed bad_target bad_ack nat_refused no_local_sock : Error
  try_failed bad_sock : Error

-- How a call ends: by `return nil`, by an error, or by a panic.
pub data Reply : Type 0 where
  done : Reply
  failed : Error → Reply
  panicked : Reply
