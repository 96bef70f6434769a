-- ===== src/P2p/Sound/Connections.antt =====
-- What establishes and ends a connection keeps the maps of P2pService in order.
use vilan_peer.Base.{
  ℕ, suc, ◌<◌, refl, ap, arith, List, [], ◌∷◌, Option, none, some, Map, load, store, delete, not,
}
use vilan_peer.Model.Wire.{Sock, P2pAck}
use vilan_peer.Address.{extract_addr_from_str}
use vilan_peer.P2p.State.{P2p, Env, set_peer, emit, stopped_peer}
use vilan_peer.P2p.Owned.{
  OwnedAt, IsOwned-store, IsOwned-delete, IsOwned-clear_map, IsOwned-frame, OwnedAt-load,
}
use vilan_peer.P2p.Punch.{local_sock_of}
use vilan_peer.P2p.Connect.{
  clear_map, new_try, set_local, connected_try, new_try_sock, punch_local, with_local, answer_ack,
  process_p2p_ack, write_try, count_try, try_over, send_p2p_try, greet, establish, p2p_success,
  stop_loaded, peer_state_changed, stop_each, reset_p2p_socks,
}
use vilan_peer.P2p.Sound.{
  IsSound, IsSound-if, peer_macs, punch_macs, set_peer-IsSound, save_fail_punch_info-IsSound,
  update_fresh, update_same,
}

pub delete_try-IsSound :
    (mac : ℕ) (s : P2p)
    → IsSound s
    → IsSound (record s { p2p_try_socks = delete mac s.p2p_try_socks })
delete_try-IsSound mac s (socks, tries, punches) =
    (socks, IsOwned-delete (peer_macs s) s.next_ref mac s.p2p_try_socks tries, punches)

pub delete_sock-IsSound :
    (mac : ℕ) (s : P2p) → IsSound s → IsSound (record s { p2p_socks = delete mac s.p2p_socks })
delete_sock-IsSound mac s (socks, tries, punches) =
    (IsOwned-delete (peer_macs s) s.next_ref mac s.p2p_socks socks, tries, punches)

store_sock-IsSound :
    (mac r : ℕ) (s : P2p)
    → OwnedAt (peer_macs s) s.next_ref mac (some r)
    → IsSound s
    → IsSound (record s { p2p_socks = store mac r s.p2p_socks })
store_sock-IsSound mac r s (own, low) (socks, tries, punches) =
    (IsOwned-store (peer_macs s) s.next_ref mac r s.p2p_socks own low socks, tries, punches)

set_local-IsSound : (r : ℕ) (o : Option Sock) (s : P2p) → IsSound s → IsSound (set_local r o s)
set_local-IsSound r none s h = h
set_local-IsSound r (some sock) s h =
    set_peer-IsSound r (record (s.peers r) { local_sock = some sock }) s refl h

connected_try-IsSound :
    (env : Env) (mac r : ℕ) (o : Option (List ℕ)) (s : P2p)
    → IsSound s
    → IsSound (connected_try env mac r o s).0
connected_try-IsSound env mac r none s h = delete_try-IsSound mac s h
connected_try-IsSound env mac r (some addr) s h =
    set_local-IsSound r (local_sock_of (extract_addr_from_str env.little_endian addr)) s h

new_try_sock-IsSound :
    (env : Env) (mac : ℕ) (s : P2p) → IsSound s → IsSound (new_try_sock env mac s).0
unfolding new_try_sock
new_try_sock-IsSound env mac s (socks, tries, punches) =
    let n = s.next_ref in
    let s' = set_peer n (new_try mac) (record s { next_ref = suc n }) in
    let fresh =
      λ (q : ℕ) (low : q < n). ap (λ v. v.peer_mac) (update_fresh s.peers n (new_try mac) q low) in
    connected_try-IsSound env mac n (env.connect n) _ (
      IsOwned-frame (peer_macs s) (peer_macs s') n (suc n) s.p2p_socks fresh (omega arith) socks,
      IsOwned-store (peer_macs s') (suc n) mac n s.p2p_try_socks
          (ap (λ v. v.peer_mac) (update_same s.peers n (new_try mac))) (omega arith)
          (IsOwned-frame (peer_macs s) (peer_macs s') n (suc n) s.p2p_try_socks fresh (omega arith)
            tries),
      IsOwned-frame (punch_macs s) (punch_macs s) n (suc n) s.punch_socks (λ q low. refl)
          (omega arith) punches,
    )

with_local-IsSound :
    (env : Env) (mac : ℕ) (o : Option Sock) (s : P2p)
    → IsSound s
    → IsSound (with_local env mac o s).0
with_local-IsSound env mac none s h = h
with_local-IsSound env mac (some sock) s h = new_try_sock-IsSound env mac s h

answer_ack-IsSound :
    (env : Env) (ack : P2pAck) (o : Option Sock) (s : P2p)
    → IsSound s
    → IsSound (answer_ack env ack o s).0
answer_ack-IsSound env ack none s h = h
answer_ack-IsSound env ack (some extern) s h =
    IsSound-if (not ack.valid) _ _ (save_fail_punch_info-IsSound env ack.peer_mac s h)
      (with_local-IsSound env ack.peer_mac (punch_local (load ack.peer_mac s.punch_socks) s) s h)

pub process_p2p_ack-IsSound :
    (env : Env) (o : Option P2pAck) (s : P2p) → IsSound s → IsSound (process_p2p_ack env o s).0
unfolding process_p2p_ack
process_p2p_ack-IsSound env none s h = h
process_p2p_ack-IsSound env (some ack) s h = answer_ack-IsSound env ack ack.other_extern_sock s h

write_try-IsSound :
    (env : Env) (mac r : ℕ) (o : Option ℕ) (s : P2p)
    → IsSound s
    → IsSound (write_try env mac r o s).0
write_try-IsSound env mac r none s h = delete_try-IsSound mac s h
write_try-IsSound env mac r (some c) s h = h

try_over-IsSound :
    (env : Env) (mac : ℕ) (o : Option ℕ) (s : P2p) → IsSound s → IsSound (try_over env mac o s).0
try_over-IsSound env mac none s h = delete_try-IsSound mac s h
try_over-IsSound env mac (some r) s h =
    write_try-IsSound env mac r (s.peers r).handler _
      (set_peer-IsSound r (count_try env (s.peers r)) s refl h)

pub send_p2p_try-IsSound :
    (env : Env) (mac : ℕ) (s : P2p) → IsSound s → IsSound (send_p2p_try env mac s).0
unfolding send_p2p_try
send_p2p_try-IsSound env mac s h = try_over-IsSound env mac (load mac s.p2p_try_socks) s h

greet-IsSound :
    (env : Env) (r : ℕ) (o : Option ℕ) (s : P2p) → IsSound s → IsSound (greet env r o s).0
greet-IsSound env r none s h = h
greet-IsSound env r (some c) s h = h

establish-IsSound :
    (env : Env) (mac sock : ℕ) (o : Option ℕ) (s : P2p)
    → OwnedAt (peer_macs s) s.next_ref mac (some sock)
    → OwnedAt (peer_macs s) s.next_ref mac o
    → IsSound s
    → IsSound (establish env mac sock o s).0
establish-IsSound env mac sock none s own at h = store_sock-IsSound mac sock s own h
establish-IsSound env mac sock (some r) s own at h =
    let s1 = record s { p2p_socks = store mac r s.p2p_socks } in
    let s2 = record s1 { p2p_try_socks = delete mac s1.p2p_try_socks } in
    greet-IsSound env r (s.peers r).handler s2
      (delete_try-IsSound mac s1 (store_sock-IsSound mac r s at h))

-- The context on whose channel the frame came belongs to the MAC that the frame gives.
pub p2p_success-IsSound :
    (env : Env) (mac sock : ℕ) (s : P2p)
    → OwnedAt (peer_macs s) s.next_ref mac (some sock)
    → IsSound s
    → IsSound (p2p_success env mac (some sock) s).0
unfolding p2p_success
p2p_success-IsSound env mac sock s own h =
    establish-IsSound env mac sock (load mac s.p2p_try_socks) s own
      (OwnedAt-load (peer_macs s) s.next_ref mac s.p2p_try_socks h.1) h

stop_loaded-IsSound : (o : Option ℕ) (s : P2p) → IsSound s → IsSound (stop_loaded o s)
stop_loaded-IsSound none s h = h
stop_loaded-IsSound (some r) s h = h

pub peer_state_changed-IsSound :
    (mac : ℕ) (s : P2p) → IsSound s → IsSound (peer_state_changed mac s)
unfolding peer_state_changed
peer_state_changed-IsSound mac s h =
    let s1 = record s { his_p2p_fail_info = delete mac s.his_p2p_fail_info } in
    let try' = load mac s1.p2p_try_socks in
    let s2 = stop_loaded try' s1 in
    let s3 = record s2 { p2p_try_socks = delete mac s2.p2p_try_socks } in
    let sock = load mac s3.p2p_socks in
    delete_sock-IsSound mac (stop_loaded sock s3)
      (stop_loaded-IsSound sock s3 (delete_try-IsSound mac s2 (stop_loaded-IsSound try' s1 h)))

pub clear_tries-IsSound :
    (s : P2p) → IsSound s → IsSound (record s { p2p_try_socks = clear_map s.p2p_try_socks })
clear_tries-IsSound s (socks, tries, punches) =
    (socks, IsOwned-clear_map (peer_macs s) s.next_ref s.p2p_try_socks tries, punches)

pub clear_socks-IsSound :
    (s : P2p) → IsSound s → IsSound (record s { p2p_socks = clear_map s.p2p_socks })
clear_socks-IsSound s (socks, tries, punches) =
    (IsOwned-clear_map (peer_macs s) s.next_ref s.p2p_socks socks, tries, punches)

clear_punches-IsSound :
    (s : P2p) → IsSound s → IsSound (record s { punch_socks = clear_map s.punch_socks })
clear_punches-IsSound s (socks, tries, punches) =
    (socks, tries, IsOwned-clear_map (punch_macs s) s.next_ref s.punch_socks punches)

stop_each-IsSound : (m : Map ℕ) (s : P2p) → IsSound s → IsSound (stop_each m s)
unfolding stop_each
stop_each-IsSound [] s h = h
stop_each-IsSound ((k, r) ∷ m) s h = stop_each-IsSound m (emit (stopped_peer r) s) h

pub reset_p2p_socks-IsSound : (s : P2p) → IsSound s → IsSound (reset_p2p_socks s)
unfolding reset_p2p_socks
reset_p2p_socks-IsSound s h =
    let s1 = record s {
      punch_socks = clear_map s.punch_socks;
      his_p2p_fail_info = clear_map s.his_p2p_fail_info;
    } in
    let s2 = stop_each s1.p2p_try_socks s1 in
    let s3 = record s2 { p2p_try_socks = clear_map s2.p2p_try_socks } in
    let s4 = stop_each s3.p2p_socks s3 in
    clear_socks-IsSound s4 (
      stop_each-IsSound s3.p2p_socks s3 (
        clear_tries-IsSound s2 (stop_each-IsSound s1.p2p_try_socks s1 (clear_punches-IsSound s h))))
