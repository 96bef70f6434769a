-- ===== src/P2p/Sound/Rounds.antt =====
-- The service's own loop, its start and its end, and the channels to the peers keep the maps of
-- P2pService in order.
use vilan_peer.Base.{
  ℕ, ◌+◌, ◌%◌, ◌^◌, refl, true, false, List, [], ◌∷◌, Option, none, some, Map, delete, ltb, leb,
  Bool-cases, inl, inr, ap, ◌∙◌,
}
use vilan_peer.Model.Wire.{DataFrame, DataType, packet, p2p_try, ping, pong, other}
use vilan_peer.P2p.State.{P2p, Env, Reply, set_peer, unix}
use vilan_peer.P2p.Owned.{OwnedAt}
use vilan_peer.P2p.Punch.{save_fail_punch_info}
use vilan_peer.P2p.Connect.{clear_map}
use vilan_peer.P2p.Check.{
  start, shut_peer, silent_for, ping_or_drop, check_sock, check_socks, remove_socks, report_removed,
  check_try, check_tries, remove_tries, state_check, shut_each, stop_p2p_sockets,
}
use vilan_peer.P2p.Handler.{
  handle_active, process_msg, logged, handle_read, idle_ping, handle_read_idle,
}
use vilan_peer.P2p.Sound.{
  IsSound, IsSound-if, peer_macs, set_peer-IsSound, save_fail_punch_info-IsSound, update_same,
}
use vilan_peer.P2p.Sound.Connections.{
  delete_try-IsSound, delete_sock-IsSound, send_p2p_try-IsSound, p2p_success-IsSound,
  clear_tries-IsSound, clear_socks-IsSound,
}

pub start-IsSound : (env : Env) (s : P2p) → IsSound s → IsSound (start env s)
unfolding start
start-IsSound env s h = elim (Bool-cases s.running) [
  | inl on ↦ rw on h
  | inr off ↦ rw off (tt, tt, tt)
]

shut_peer-IsSound : (r : ℕ) (s : P2p) → IsSound s → IsSound (shut_peer r s)
shut_peer-IsSound r s h = set_peer-IsSound r (record (s.peers r) { connected = false }) s refl h

ping_or_drop-IsSound :
    (env : Env) (r : ℕ) (o : Option ℕ) (s : P2p)
    → IsSound s
    → IsSound (ping_or_drop env r (s.peers r) o s).0
ping_or_drop-IsSound env r none s h = shut_peer-IsSound r s h
ping_or_drop-IsSound env r (some c) s h =
    IsSound-if (leb 3 (s.peers r).ping_try_count) _ _ (shut_peer-IsSound r s h) (
      set_peer-IsSound r
        (record (s.peers r) { ping_try_count = ((s.peers r).ping_try_count + 1) % 2 ^ 64 }) s refl
        h)

check_sock-IsSound : (env : Env) (r : ℕ) (s : P2p) → IsSound s → IsSound (check_sock env r s).0
unfolding check_sock
check_sock-IsSound env r s h =
    let v = s.peers r in
    IsSound-if (ltb ((v.heartbeat + 2) % 2 ^ 32) (silent_for env v)) _ _
      (ping_or_drop-IsSound env r v.handler s h)
      (IsSound-if (ltb env.config.offline (silent_for env v)) _ _ (shut_peer-IsSound r s h) h)

check_socks-IsSound :
    (env : Env) (m : Map ℕ) (s : P2p) → IsSound s → IsSound (check_socks env m s).0
unfolding check_socks
check_socks-IsSound env [] s h = h
check_socks-IsSound env ((k, r) ∷ m) s h =
    check_socks-IsSound env m (check_sock env r s).0 (check_sock-IsSound env r s h)

remove_socks-IsSound : (rs : List ℕ) (s : P2p) → IsSound s → IsSound (remove_socks rs s)
unfolding remove_socks
remove_socks-IsSound [] s h = h
remove_socks-IsSound (r ∷ rs) s h =
    remove_socks-IsSound rs (record s { p2p_socks = delete (s.peers r).peer_mac s.p2p_socks })
      (delete_sock-IsSound (s.peers r).peer_mac s h)

report_removed-IsSound : (rs : List ℕ) (s : P2p) → IsSound s → IsSound (report_removed rs s)
report_removed-IsSound [] s h = h
report_removed-IsSound (r ∷ rs) s h = h

check_try-IsSound : (env : Env) (r : ℕ) (s : P2p) → IsSound s → IsSound (check_try env r s).0
unfolding check_try
check_try-IsSound env r s h =
    IsSound-if (leb env.config.p2p_try_count (s.peers r).try_conn_count) _ _
      (shut_peer-IsSound r s h) (send_p2p_try-IsSound env (s.peers r).peer_mac s h)

check_tries-IsSound :
    (env : Env) (m : Map ℕ) (s : P2p) → IsSound s → IsSound (check_tries env m s).0
unfolding check_tries
check_tries-IsSound env [] s h = h
check_tries-IsSound env ((k, r) ∷ m) s h =
    check_tries-IsSound env m (check_try env r s).0 (check_try-IsSound env r s h)

remove_tries-IsSound :
    (env : Env) (rs : List ℕ) (s : P2p) → IsSound s → IsSound (remove_tries env rs s)
unfolding remove_tries
remove_tries-IsSound env [] s h = h
remove_tries-IsSound env (r ∷ rs) s h =
    let mac = (s.peers r).peer_mac in
    let s' = save_fail_punch_info env mac s in
    remove_tries-IsSound env rs (record s' { p2p_try_socks = delete mac s'.p2p_try_socks })
      (delete_try-IsSound mac s' (save_fail_punch_info-IsSound env mac s h))

pub state_check-IsSound : (env : Env) (s : P2p) → IsSound s → IsSound (state_check env s)
unfolding state_check
state_check-IsSound env s h =
    let (s1, gone) = check_socks env s.p2p_socks s in
    let s2 = report_removed gone (remove_socks gone s1) in
    let h2 =
      report_removed-IsSound gone (remove_socks gone s1)
        (remove_socks-IsSound gone s1 (check_socks-IsSound env s.p2p_socks s h)) in
    let (s3, tired) = check_tries env s2.p2p_try_socks s2 in
    remove_tries-IsSound env tired s3 (check_tries-IsSound env s2.p2p_try_socks s2 h2)

shut_each-IsSound : (m : Map ℕ) (s : P2p) → IsSound s → IsSound (shut_each m s)
unfolding shut_each
shut_each-IsSound [] s h = h
shut_each-IsSound ((k, r) ∷ m) s h = shut_each-IsSound m (shut_peer r s) (shut_peer-IsSound r s h)

pub stop_p2p_sockets-IsSound : (s : P2p) → IsSound s → IsSound (stop_p2p_sockets s)
unfolding stop_p2p_sockets
stop_p2p_sockets-IsSound s h =
    let s1 = shut_each s.p2p_socks s in
    let s2 = record s1 { p2p_socks = clear_map s1.p2p_socks } in
    clear_tries-IsSound (shut_each s2.p2p_try_socks s2) (
      shut_each-IsSound s2.p2p_try_socks s2
        (clear_socks-IsSound s1 (shut_each-IsSound s.p2p_socks s h)))

pub handle_active-IsSound :
    (env : Env) (r c : ℕ) (s : P2p) → IsSound s → IsSound (handle_active env r c s)
unfolding handle_active
handle_active-IsSound env r c s h =
    set_peer-IsSound r (record (s.peers r) { connected = true; handler = some c }) s refl h

logged-IsSound : (p : P2p × Reply) → IsSound p.0 → IsSound (logged p).0
logged-IsSound (s, Reply.failed e) h = h
logged-IsSound (s, Reply.done) h = h
logged-IsSound (s, Reply.panicked) h = h

process_msg-IsSound :
    (env : Env) (r c : ℕ) (msg : DataFrame) (t : DataType) (s : P2p)
    → OwnedAt (peer_macs s) s.next_ref msg.src_mac (some r)
    → IsSound s
    → IsSound (process_msg env r c msg t s).0
unfolding process_msg
process_msg-IsSound env r c msg packet s own h = h
process_msg-IsSound env r c msg p2p_try s own h = p2p_success-IsSound env msg.src_mac r s own h
process_msg-IsSound env r c msg ping s own h = h
process_msg-IsSound env r c msg pong s own h = h
process_msg-IsSound env r c msg other s own h = h

pub reads_other-IsSound :
    (env : Env) (r c : ℕ) (s : P2p) → IsSound s → IsSound (handle_read env r c none s).0
unfolding handle_read
reads_other-IsSound env r c s h =
    set_peer-IsSound r (record (s.peers r) { handler = some c }) s refl h

pub reads-IsSound :
    (env : Env) (r c : ℕ) (msg : DataFrame) (s : P2p)
    → OwnedAt (peer_macs s) s.next_ref msg.src_mac (some r)
    → IsSound s
    → IsSound (handle_read env r c (some msg) s).0
unfolding handle_read
reads-IsSound env r c msg s (own, low) h =
    let v = record (s.peers r) { handler = some c; last_receive = unix env; ping_try_count = 0 } in
    let s' = set_peer r v s in
    logged-IsSound (process_msg env r c msg msg.msg_type s') (
      process_msg-IsSound env r c msg msg.msg_type s'
        (ap (λ p. p.peer_mac) (update_same s.peers r v) ∙ own, low) (set_peer-IsSound r v s refl h))

idle_ping-IsSound :
    (env : Env) (r : ℕ) (o : Option ℕ) (s : P2p) → IsSound s → IsSound (idle_ping env r o s)
idle_ping-IsSound env r none s h = h
idle_ping-IsSound env r (some c) s h =
    set_peer-IsSound r
      (record (s.peers r) { ping_try_count = ((s.peers r).ping_try_count + 1) % 2 ^ 64 }) s refl h

pub handle_read_idle-IsSound :
    (env : Env) (r : ℕ) (s : P2p) → IsSound s → IsSound (handle_read_idle env r s)
unfolding handle_read_idle
handle_read_idle-IsSound env r s h = idle_ping-IsSound env r (s.peers r).handler s h
