-- ===== src/P2p/Check.antt =====
-- service/p2p_service.go: the service's own loop: established sockets that have gone silent, try
-- sockets that have tried often enough, and the end of the service.
pub mod Removal
pub mod Shutdown
use vilan_peer.Base.{
  ℕ, ◌≡◌, refl, suc, ◌+◌, ◌%◌, ◌^◌, Bool, true, false, List, [], ◌∷◌, Option, none, some, Map,
}
use vilan_peer.Base.{load, store, delete, not, ◌||◌, ltb, leb, ◌==◌, if◌then◌else◌}
use vilan_peer.Model.Wire.{DataFrame, DataType, ping}
use vilan_peer.Address.{sub32}
use vilan_peer.P2p.State.{P2p, Env, PeerSock, Event, Reply, done, panicked}
use vilan_peer.P2p.State.{wrote_data, stopped_peer, updated_peers, unix, own_mac, emit, set_peer}
use vilan_peer.P2p.Punch.{save_fail_punch_info}
use vilan_peer.P2p.Connect.{clear_map, send_p2p_try}

-- Start
unfoldable pub start : Env → P2p → P2p
start env s = if s.running then s else record s {
  running = true;
  cancel_func = true;
  p2p_failed_time = env.config.heartbeat;
  punch_socks = [];
  p2p_try_socks = [];
  p2p_socks = [];
  his_p2p_fail_info = [];
}

-- Stop; the loop sees it and ends by `stop_p2p_sockets`. Without a function to cancel it, panics.
unfoldable pub stop : P2p → P2p × Reply
stop s = (record s { running = false }, if s.cancel_func then done else panicked)

pub stop-running : (s : P2p) → (stop s).0.running ≡ false
unfolding stop
stop-running s = refl

abbrev pub ping_frame : Env → ℕ → DataFrame
ping_frame env mac = record {
  msg_type = DataType.ping;
  src_mac = own_mac env;
  dst_mac = mac;
  token = 0;
  payload = [];
}

abbrev pub silent_for : Env → PeerSock → ℕ
silent_for env v = sub32 (unix env) v.last_receive

-- `v.Bootstrap.Stop()` and `v.Connected = false`.
abbrev pub shut_peer : ℕ → P2p → P2p
shut_peer r s =
    let s' = emit (stopped_peer r) s in set_peer r (record (s'.peers r) { connected = false }) s'

-- An established socket that has been silent for long, by its handler: the state, and whether the
-- socket is to be removed.
abbrev pub ping_or_drop : Env → ℕ → PeerSock → Option ℕ → P2p → P2p × Bool
ping_or_drop env r v none s = (shut_peer r s, true)
ping_or_drop env r v (some h) s = if leb 3 v.ping_try_count then (shut_peer r s, true) else (
  emit (wrote_data h (ping_frame env v.peer_mac))
      (set_peer r (record v { ping_try_count = (v.ping_try_count + 1) % 2 ^ 64 }) s),
  false,
)

-- The body of the Range over the established sockets.
unfoldable pub check_sock : Env → ℕ → P2p → P2p × Bool
check_sock env r s =
    let v = s.peers r in
    if ltb ((v.heartbeat + 2) % 2 ^ 32) (silent_for env v)
    then ping_or_drop env r v v.handler s
    else if ltb env.config.offline (silent_for env v)
    then (shut_peer r s, true)
    else (s, false)

-- The Range: the state, and the contexts to remove.
unfoldable pub check_socks : Env → Map ℕ → P2p → P2p × List ℕ
check_socks env [] s = (s, [])
check_socks env ((k, r) ∷ m) s =
    let (s', gone) = check_sock env r s in
    let (s'', more) = check_socks env m s' in (s'', if gone then r ∷ more else more)

-- `r.p2pSocks.Delete(u.PeerMac)` for each of them.
unfoldable pub remove_socks : List ℕ → P2p → P2p
remove_socks [] s = s
remove_socks (r ∷ rs) s =
    remove_socks rs (record s { p2p_socks = delete (s.peers r).peer_mac s.p2p_socks })

abbrev pub report_removed : List ℕ → P2p → P2p
report_removed [] s = s
report_removed (r ∷ rs) s = emit updated_peers s

-- The body of the Range over the try sockets.
unfoldable pub check_try : Env → ℕ → P2p → P2p × Bool
check_try env r s =
    let v = s.peers r in
    if leb env.config.p2p_try_count v.try_conn_count
    then (shut_peer r s, true)
    else ((send_p2p_try env v.peer_mac s).0, false)

unfoldable pub check_tries : Env → Map ℕ → P2p → P2p × List ℕ
check_tries env [] s = (s, [])
check_tries env ((k, r) ∷ m) s =
    let (s', gone) = check_try env r s in
    let (s'', more) = check_tries env m s' in (s'', if gone then r ∷ more else more)

unfoldable pub remove_tries : Env → List ℕ → P2p → P2p
remove_tries env [] s = s
remove_tries env (r ∷ rs) s =
    let mac = (s.peers r).peer_mac in
    let s' = save_fail_punch_info env mac s in
    remove_tries env rs (record s' { p2p_try_socks = delete mac s'.p2p_try_socks })

-- One round of stateCheck, every three seconds.
unfoldable pub state_check : Env → P2p → P2p
state_check env s =
    let (s1, gone) = check_socks env s.p2p_socks s in
    let s2 = report_removed gone (remove_socks gone s1) in
    let (s3, tired) = check_tries env s2.p2p_try_socks s2 in remove_tries env tired s3

-- The Range of stopP2pSockets over established or try sockets.
unfoldable pub shut_each : Map ℕ → P2p → P2p
shut_each [] s = s
shut_each ((k, r) ∷ m) s = shut_each m (shut_peer r s)

-- stopP2pSockets. Its Range over the punch sockets has a case for `model.PunchSockContext`, while
-- the map holds pointers to it: no case fits, and the collected keys are not used.
unfoldable pub stop_p2p_sockets : P2p → P2p
stop_p2p_sockets s =
    let s1 = shut_each s.p2p_socks s in
    let s2 = record s1 { p2p_socks = clear_map s1.p2p_socks } in
    let s3 = shut_each s2.p2p_try_socks s2 in
    record s3 { p2p_try_socks = clear_map s3.p2p_try_socks }
