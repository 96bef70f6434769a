-- ===== src/P2p/Punch.antt =====
-- service/p2p_service.go: when a direct connection is wanted, and the punch socket that asks the
-- server for it.
pub mod Forward
pub mod Backoff
use vilan_peer.Base.{
  List, ℕ, suc, ◌+◌, ◌-◌, ◌/◌, ◌%◌, ◌^◌, Bool, true, false, not, ◌&&◌, ◌||◌, Option,
}
use vilan_peer.Base.{none, some, load, store, delete, ltb, leb, if◌then◌else◌}
use vilan_peer.Model.Wire.{Sock, DataFrame, P2pTrigger}
use vilan_peer.Address.{is_uni_cast, extract_addr_from_str}
use vilan_peer.P2p.State.{P2p, Env, PunchSock, PunchFail, Error, Reply, done, failed, Event}
use vilan_peer.P2p.State.{wrote_data, wrote_trigger, stopped_punch, unix, own_mac, emit, set_punch}
use vilan_peer.P2p.State.{punch_expired, bad_punch_sock, no_punch_sock, connect_failed}
use vilan_peer.P2p.State.{bad_local_addr, trigger_nil, not_needed, bad_target}

abbrev pub is_some {ℓ} : {A : Type ℓ} → Option A → Bool
is_some none = false
is_some (some a) = true

-- The failure record of a peer after one more failure.
abbrev pub one_more_failure : Env → ℕ → Option PunchFail → PunchFail
one_more_failure env mac none = record { dst_mac = mac; failed_count = 1; failed_time = env.now }
one_more_failure env mac (some p) = record p {
  failed_count = (p.failed_count + 1) % 2 ^ 32;
  failed_time = env.now;
}

abbrev pub stop_punch : Option ℕ → P2p → P2p
stop_punch none s = s
stop_punch (some r) s = emit (stopped_punch r) s

-- saveFailPunchInfo
unfoldable pub save_fail_punch_info : Env → ℕ → P2p → P2p
save_fail_punch_info env mac s =
    let s' = record s {
      his_p2p_fail_info =
          store mac (one_more_failure env mac (load mac s.his_p2p_fail_info)) s.his_p2p_fail_info;
    } in
    let s'' = stop_punch (load mac s'.punch_socks) s' in
    record s'' { punch_socks = delete mac s''.punch_socks }

-- uint32(time.Now().Sub(p.FailedTime).Seconds()); the monotonic clock does not run backwards.
abbrev pub seconds_since : Env → ℕ → ℕ
seconds_since env t = (env.now - t) / 1_000_000_000 % 2 ^ 32

abbrev pub backs_off : Env → Option PunchFail → Bool
backs_off env none = false
backs_off env (some p) =
    leb 10 p.failed_count || ltb (seconds_since env p.failed_time) env.config.p2p_retry_interval

-- isNeedP2P
unfoldable pub is_need_p2p : Env → ℕ → P2p → Bool
is_need_p2p env dst_mac s =
    if is_uni_cast dst_mac
    then if backs_off env (load dst_mac s.his_p2p_fail_info)
      then false
      else if not (env.find_peer dst_mac)
      then false
      else not (is_some (load dst_mac s.p2p_try_socks))
    else false

-- The end of newPunchSock: the local address of the new channel.
abbrev pub local_sock_of : Option (ℕ × ℕ) → Option Sock
local_sock_of none = none
local_sock_of (some (ip, port)) = some (record { addr = ip; port = port })

abbrev pub got_local : ℕ → Option Sock → P2p → P2p × Reply
got_local r none s = (s, failed bad_local_addr)
got_local r (some sock) s = (set_punch r (record (s.punches r) { local_sock = some sock }) s, done)

abbrev pub connected_punch : Env → ℕ → ℕ → Option (List ℕ) → P2p → P2p × Reply
connected_punch env dst_mac r none s = (save_fail_punch_info env dst_mac s, failed connect_failed)
connected_punch env dst_mac r (some addr) s =
    got_local r (local_sock_of (extract_addr_from_str env.little_endian addr)) s

-- The context that newPunchSock stores.
abbrev pub new_punch : Env → ℕ → PunchSock
new_punch env dst_mac = record {
  peer_mac = dst_mac;
  handler = none;
  local_sock = none;
  start_time = unix env;
  last_receive = 0;
  connected = false;
}

-- newPunchSock. Connecting makes the channel; its activation is a call of the handler later.
unfoldable pub new_punch_sock : Env → ℕ → P2p → P2p × Reply
new_punch_sock env dst_mac s =
    let r = s.next_ref in
    let s' = set_punch r (new_punch env dst_mac) (record s { next_ref = suc r }) in
    let s'' = record s' { punch_socks = store dst_mac r s'.punch_socks } in
    connected_punch env dst_mac r (env.connect r) s''

-- `time.Now().Unix()-p.StartTime < r.p2pFailedTime`, with the difference brought over.
abbrev pub is_fresh : Env → PunchSock → P2p → Bool
is_fresh env p s = ltb (unix env) (p.start_time + s.p2p_failed_time)

abbrev pub drop_punch : ℕ → ℕ → P2p → P2p
drop_punch dst_mac r s =
    let s' = emit (stopped_punch r) s in record s' { punch_socks = delete dst_mac s'.punch_socks }

abbrev pub write_trigger : Env → ℕ → Option ℕ → P2p → P2p × Reply
write_trigger env dst_mac none s = (s, failed bad_punch_sock)
write_trigger env dst_mac (some h) s =
    (emit (wrote_trigger h (record { src_mac = own_mac env; dst_mac = dst_mac })) s, done)

abbrev pub trigger_over : Env → ℕ → Option ℕ → P2p → P2p × Reply
trigger_over env dst_mac none s = (s, failed no_punch_sock)
trigger_over env dst_mac (some r) s =
    if not (is_fresh env (s.punches r) s)
    then (drop_punch dst_mac r s, failed bad_punch_sock)
    else write_trigger env dst_mac (s.punches r).handler s

-- SendP2PTrigger
unfoldable pub send_p2p_trigger : Env → ℕ → P2p → P2p × Reply
send_p2p_trigger env dst_mac s = trigger_over env dst_mac (load dst_mac s.punch_socks) s

-- What the handler of a punch channel `h` notes in the channel's context `r`.
abbrev pub hear_punch : Env → ℕ → ℕ → P2p → P2p
hear_punch env r h s =
    set_punch r (record (s.punches r) { handler = some h; last_receive = unix env }) s

abbrev pub open_punch : ℕ → P2p → P2p
open_punch r s = set_punch r (record (s.punches r) { connected = true }) s

-- HandleActive of a punch channel.
unfoldable pub punch_active : Env → ℕ → ℕ → P2p → P2p
punch_active env r h s =
    let s' = open_punch r (hear_punch env r h s) in
    (send_p2p_trigger env (s'.punches r).peer_mac s').0

abbrev pub punch_over : Env → ℕ → Bool → Option ℕ → P2p → P2p × Reply
punch_over env dst_mac trigger none s = new_punch_sock env dst_mac s
punch_over env dst_mac trigger (some r) s =
    if is_fresh env (s.punches r) s
    then if trigger then send_p2p_trigger env dst_mac s else (s, done)
    else (drop_punch dst_mac r s, failed punch_expired)

-- StartPunch
unfoldable pub start_punch : Env → ℕ → Bool → P2p → P2p × Reply
start_punch env dst_mac trigger s = punch_over env dst_mac trigger (load dst_mac s.punch_socks) s

-- ProcessP2PTrigger
unfoldable pub process_p2p_trigger : Env → Option P2pTrigger → P2p → P2p × Reply
process_p2p_trigger env none s = (s, failed trigger_nil)
process_p2p_trigger env (some msg) s =
    if is_uni_cast msg.src_mac
    then if is_some (load msg.src_mac s.p2p_try_socks)
      then (s, failed not_needed)
      else if is_some (load msg.src_mac s.p2p_socks)
      then (s, failed not_needed)
      else start_punch env msg.src_mac true s
    else (s, failed bad_target)

abbrev pub send_direct : Option ℕ → DataFrame → P2p → P2p × Bool
send_direct none msg s = (s, false)
send_direct (some h) msg s = (emit (wrote_data h msg) s, true)

abbrev pub forward_over : Env → ℕ → DataFrame → Option ℕ → P2p → P2p × Bool
forward_over env mac msg (some r) s = send_direct (s.peers r).handler msg s
forward_over env mac msg none s =
    if is_need_p2p env mac s then ((start_punch env mac false s).0, false) else (s, false)

-- TryForwardMessage: whether the message went to the peer itself.
unfoldable pub try_forward_message : Env → ℕ → DataFrame → P2p → P2p × Bool
try_forward_message env mac msg s =
    if not s.running
    then (s, false)
    else if not (is_uni_cast mac)
    then (s, false)
    else forward_over env mac msg (load mac s.p2p_socks) s
