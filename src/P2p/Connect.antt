-- ===== src/P2p/Connect.antt =====
-- service/p2p_service.go: the try socket, the established socket, and what ends them.
pub mod Outcome
use vilan_peer.Base.{
  ℕ, suc, ◌+◌, ◌%◌, ◌^◌, Bool, true, false, List, [], ◌∷◌, Option, none, some, Map,
}
use vilan_peer.Base.{load, store, delete, not, if◌then◌else◌}
use vilan_peer.Model.Wire.{Sock, DataFrame, p2p_try, P2pAck}
use vilan_peer.Address.{extract_addr_from_str}
use vilan_peer.P2p.State.{P2p, Env, PeerSock, Error, Reply, done, failed, panicked, Event}
use vilan_peer.P2p.State.{wrote_data, stopped_peer, updated_peers, unix, own_mac, emit, set_peer}
use vilan_peer.P2p.State.{bad_ack, nat_refused, no_local_sock, connect_failed, try_failed, bad_sock}
use vilan_peer.P2p.Punch.{save_fail_punch_info, local_sock_of}

-- common.ClearMap: the keys are collected, then deleted one by one.
abbrev pub keys {ℓ} : {V : Type ℓ} → Map V → List ℕ
keys [] = []
keys ((k, v) ∷ m) = k ∷ keys m

unfoldable pub delete_all {ℓ} : {V : Type ℓ} → List ℕ → Map V → Map V
delete_all [] m = m
delete_all (k ∷ ks) m = delete_all ks (delete k m)

unfoldable pub clear_map {ℓ} : {V : Type ℓ} → Map V → Map V
unfolding delete_all
clear_map m = delete_all (keys m) m

-- The context that ProcessP2PAck stores.
abbrev pub new_try : ℕ → PeerSock
new_try mac = record {
  peer_mac = mac;
  handler = none;
  local_sock = none;
  try_conn_count = 0;
  last_try_conn_time = 0;
  last_receive = 0;
  ping_try_count = 0;
  heartbeat = 5;
  offline = 15;
  connected = false;
}

abbrev pub set_local : ℕ → Option Sock → P2p → P2p
set_local r none s = s
set_local r (some sock) s = set_peer r (record (s.peers r) { local_sock = some sock }) s

abbrev pub connected_try : Env → ℕ → ℕ → Option (List ℕ) → P2p → P2p × Reply
connected_try env mac r none s =
    (record s { p2p_try_socks = delete mac s.p2p_try_socks }, failed connect_failed)
connected_try env mac r (some addr) s =
    (set_local r (local_sock_of (extract_addr_from_str env.little_endian addr)) s, done)

-- The part of ProcessP2PAck behind its checks.
unfoldable pub new_try_sock : Env → ℕ → P2p → P2p × Reply
new_try_sock env mac s =
    let r = s.next_ref in
    let s' = set_peer r (new_try mac) (record s { next_ref = suc r }) in
    connected_try env mac r (env.connect r)
      (record s' { p2p_try_socks = store mac r s'.p2p_try_socks })

abbrev pub punch_local : Option ℕ → P2p → Option Sock
punch_local none s = none
punch_local (some r) s = (s.punches r).local_sock

abbrev pub with_local : Env → ℕ → Option Sock → P2p → P2p × Reply
with_local env mac none s = (s, failed no_local_sock)
with_local env mac (some sock) s = new_try_sock env mac s

abbrev pub answer_ack : Env → P2pAck → Option Sock → P2p → P2p × Reply
answer_ack env ack none s = (s, failed bad_ack)
answer_ack env ack (some extern) s =
    if not ack.valid
    then (save_fail_punch_info env ack.peer_mac s, failed nat_refused)
    else with_local env ack.peer_mac (punch_local (load ack.peer_mac s.punch_socks) s) s

-- ProcessP2PAck
unfoldable pub process_p2p_ack : Env → Option P2pAck → P2p → P2p × Reply
unfolding new_try_sock
process_p2p_ack env none s = (s, failed bad_ack)
process_p2p_ack env (some ack) s = answer_ack env ack ack.other_extern_sock s

abbrev pub try_frame : Env → ℕ → DataFrame
try_frame env mac = record {
  msg_type = p2p_try;
  src_mac = own_mac env;
  dst_mac = mac;
  token = 0;
  payload = [];
}

abbrev pub give_up_try : ℕ → P2p → P2p × Reply
give_up_try dst_mac s =
    (record s { p2p_try_socks = delete dst_mac s.p2p_try_socks }, failed try_failed)

abbrev pub write_try : Env → ℕ → ℕ → Option ℕ → P2p → P2p × Reply
write_try env dst_mac r none s = give_up_try dst_mac s
write_try env dst_mac r (some h) s =
    (emit (wrote_data h (try_frame env (s.peers r).peer_mac)) s, done)

abbrev pub count_try : Env → PeerSock → PeerSock
count_try env v = record v {
  try_conn_count = (v.try_conn_count + 1) % 2 ^ 32;
  last_try_conn_time = unix env;
}

abbrev pub try_over : Env → ℕ → Option ℕ → P2p → P2p × Reply
try_over env dst_mac none s = give_up_try dst_mac s
try_over env dst_mac (some r) s =
    let s' = set_peer r (count_try env (s.peers r)) s in
    write_try env dst_mac r (s.peers r).handler s'

-- SendP2PTry
unfoldable pub send_p2p_try : Env → ℕ → P2p → P2p × Reply
send_p2p_try env dst_mac s = try_over env dst_mac (load dst_mac s.p2p_try_socks) s

-- `ctx.Handler.Write` panics where the handler is nil.
abbrev pub greet : Env → ℕ → Option ℕ → P2p → P2p × Reply
greet env r none s = (s, panicked)
greet env r (some h) s =
    (emit updated_peers (emit (wrote_data h (try_frame env (s.peers r).peer_mac)) s), done)

abbrev pub establish : Env → ℕ → ℕ → Option ℕ → P2p → P2p × Reply
establish env dst_mac sock none s =
    (emit updated_peers (record s { p2p_socks = store dst_mac sock s.p2p_socks }), done)
establish env dst_mac sock (some r) s = greet env r (s.peers r).handler (record s {
  p2p_socks = store dst_mac r s.p2p_socks;
  p2p_try_socks = delete dst_mac s.p2p_try_socks;
})

-- P2PSuccess
unfoldable pub p2p_success : Env → ℕ → Option ℕ → P2p → P2p × Reply
p2p_success env dst_mac none s = (s, failed bad_sock)
p2p_success env dst_mac (some sock) s = establish env dst_mac sock (load dst_mac s.p2p_try_socks) s

abbrev pub stop_loaded : Option ℕ → P2p → P2p
stop_loaded none s = s
stop_loaded (some r) s = emit (stopped_peer r) s

-- PeerStateChanged
unfoldable pub peer_state_changed : ℕ → P2p → P2p
peer_state_changed mac s =
    let s1 = record s { his_p2p_fail_info = delete mac s.his_p2p_fail_info } in
    let s2 = stop_loaded (load mac s1.p2p_try_socks) s1 in
    let s3 = record s2 { p2p_try_socks = delete mac s2.p2p_try_socks } in
    let s4 = stop_loaded (load mac s3.p2p_socks) s3 in
    record s4 { p2p_socks = delete mac s4.p2p_socks }

abbrev pub some? {ℓ} : {A : Type ℓ} → Option A → Bool
some? none = false
some? (some a) = true

-- IsP2P
unfoldable pub is_p2p : ℕ → P2p → Bool
is_p2p dst_mac s = some? (load dst_mac s.p2p_socks)

-- DeleteFailedP2P
unfoldable pub delete_failed_p2p : ℕ → P2p → P2p
delete_failed_p2p mac s = record s { his_p2p_fail_info = delete mac s.his_p2p_fail_info }

-- The body of a Range that stops each context.
unfoldable pub stop_each : Map ℕ → P2p → P2p
stop_each [] s = s
stop_each ((k, r) ∷ m) s = stop_each m (emit (stopped_peer r) s)

-- ResetP2PSocks
unfoldable pub reset_p2p_socks : P2p → P2p
reset_p2p_socks s =
    let s1 = record s {
      punch_socks = clear_map s.punch_socks;
      his_p2p_fail_info = clear_map s.his_p2p_fail_info;
    } in
    let s2 = stop_each s1.p2p_try_socks s1 in
    let s3 = record s2 { p2p_try_socks = clear_map s2.p2p_try_socks } in
    let s4 = stop_each s3.p2p_socks s3 in record s4 { p2p_socks = clear_map s4.p2p_socks }
