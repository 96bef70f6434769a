-- ===== src/P2p/Sound.antt =====
-- That the maps of P2pService lead to contexts of their keys, and that its operations keep it so:
-- punch sockets, try sockets and what establishes and ends a connection.
pub mod Connections
pub mod Rounds
use vilan_peer.Base.{
  ℕ, suc, ◌≤◌, ◌<◌, ◌≡◌, refl, sym, ap, ◌∙◌, arith, Bool, true, false, List, [], ◌∷◌, Option, none,
  some, Map, load, ◌==◌, if◌then◌else◌, Bool-cases, inl, inr, ==→eq, ==-refl, not, delete,
}
use vilan_peer.Model.Wire.{Sock, DataFrame, P2pTrigger, P2pAck}
use vilan_peer.Address.{is_uni_cast, extract_addr_from_str}
use vilan_peer.P2p.State.{
  P2p, Env, PeerSock, PunchSock, Reply, set_peer, set_punch, emit, update, unix,
}
use vilan_peer.P2p.Owned.{
  IsOwned, OwnedAt, IsOwned-store, IsOwned-delete, IsOwned-clear_map, IsOwned-frame, OwnedAt-load,
}
use vilan_peer.P2p.Punch.{
  save_fail_punch_info, stop_punch, new_punch_sock, connected_punch, got_local, local_sock_of,
  drop_punch, is_fresh, write_trigger, trigger_over, send_p2p_trigger, punch_over, start_punch,
  is_some, process_p2p_trigger, send_direct, forward_over, is_need_p2p, try_forward_message,
  new_punch, hear_punch, open_punch, punch_active,
}

abbrev pub peer_macs : P2p → ℕ → ℕ
peer_macs s r = (s.peers r).peer_mac

abbrev pub punch_macs : P2p → ℕ → ℕ
punch_macs s r = (s.punches r).peer_mac

-- Each map leads to contexts of its keys; contexts that were never made have the numbers from `next_ref`.
abbrev pub IsSound : P2p → Type 0
IsSound s =
    IsOwned (peer_macs s) s.next_ref s.p2p_socks
    × IsOwned (peer_macs s) s.next_ref s.p2p_try_socks
    × IsOwned (punch_macs s) s.next_ref s.punch_socks

pub IsSound-if {ℓ} :
    {B : Type ℓ} (b : Bool) (p q : P2p × B)
    → IsSound p.0
    → IsSound q.0
    → IsSound (if b then p else q).0
IsSound-if true p q h k = h
IsSound-if false p q h k = k

-- A new value with an old MAC changes no MAC.
update_keeps {ℓ} :
    {A : Type ℓ} (f : ℕ → A) (mac : A → ℕ) (r : ℕ) (v : A)
    → mac v ≡ mac (f r)
    → (q : ℕ) → mac (update f r v q) ≡ mac (f q)
update_keeps f mac r v e q = elim (Bool-cases (r == q)) [
  | inl same ↦ rw same (e ∙ ap (λ t. mac (f t)) (==→eq r q same))
  | inr apart ↦ rw apart refl
]

pub set_peer-IsSound :
    (r : ℕ) (v : PeerSock) (s : P2p)
    → v.peer_mac ≡ peer_macs s r
    → IsSound s
    → IsSound (set_peer r v s)
set_peer-IsSound r v s e (socks, tries, punches) =
    let same = λ (q : ℕ) (low : q < s.next_ref). update_keeps s.peers (λ p. p.peer_mac) r v e q in
    let n = s.next_ref in
    (
      IsOwned-frame (peer_macs s) (peer_macs (set_peer r v s)) n n s.p2p_socks same (omega arith)
          socks,
      IsOwned-frame (peer_macs s) (peer_macs (set_peer r v s)) n n s.p2p_try_socks same
          (omega arith) tries,
      punches,
    )

set_punch-IsSound :
    (r : ℕ) (v : PunchSock) (s : P2p)
    → v.peer_mac ≡ punch_macs s r
    → IsSound s
    → IsSound (set_punch r v s)
set_punch-IsSound r v s e (socks, tries, punches) = (
  socks,
  tries,
  IsOwned-frame (punch_macs s) (punch_macs (set_punch r v s)) s.next_ref s.next_ref s.punch_socks
      (λ q low. update_keeps s.punches (λ p. p.peer_mac) r v e q) (omega arith) punches,
)

delete_punch-IsSound :
    (mac : ℕ) (s : P2p) → IsSound s → IsSound (record s { punch_socks = delete mac s.punch_socks })
delete_punch-IsSound mac s (socks, tries, punches) =
    (socks, tries, IsOwned-delete (punch_macs s) s.next_ref mac s.punch_socks punches)

stop_punch-IsSound : (o : Option ℕ) (s : P2p) → IsSound s → IsSound (stop_punch o s)
stop_punch-IsSound none s h = h
stop_punch-IsSound (some r) s h = h

pub save_fail_punch_info-IsSound :
    (env : Env) (mac : ℕ) (s : P2p) → IsSound s → IsSound (save_fail_punch_info env mac s)
unfolding save_fail_punch_info
save_fail_punch_info-IsSound env mac s h =
    delete_punch-IsSound mac (stop_punch (load mac s.punch_socks) _)
      (stop_punch-IsSound (load mac s.punch_socks) _ h)

got_local-IsSound : (r : ℕ) (o : Option Sock) (s : P2p) → IsSound s → IsSound (got_local r o s).0
got_local-IsSound r none s h = h
got_local-IsSound r (some sock) s h =
    set_punch-IsSound r (record (s.punches r) { local_sock = some sock }) s refl h

connected_punch-IsSound :
    (env : Env) (mac r : ℕ) (o : Option (List ℕ)) (s : P2p)
    → IsSound s
    → IsSound (connected_punch env mac r o s).0
connected_punch-IsSound env mac r none s h = save_fail_punch_info-IsSound env mac s h
connected_punch-IsSound env mac r (some addr) s h =
    got_local-IsSound r (local_sock_of (extract_addr_from_str env.little_endian addr)) s h

-- A number that was not given out yet.
pub update_fresh {ℓ} :
    {A : Type ℓ} (f : ℕ → A) (n : ℕ) (v : A) (q : ℕ) → q < n → update f n v q ≡ f q
update_fresh f n v q low = let apart : (n == q) ≡ false = ground arith in rw apart refl

pub update_same {ℓ} : {A : Type ℓ} (f : ℕ → A) (n : ℕ) (v : A) → update f n v n ≡ v
update_same f n v = rw (==-refl n) refl

new_punch_sock-IsSound :
    (env : Env) (mac : ℕ) (s : P2p) → IsSound s → IsSound (new_punch_sock env mac s).0
unfolding new_punch_sock
new_punch_sock-IsSound env mac s (socks, tries, punches) =
    let n = s.next_ref in
    let s' = set_punch n (new_punch env mac) (record s { next_ref = suc n }) in
    connected_punch-IsSound env mac n (env.connect n) _ (
      IsOwned-frame (peer_macs s) (peer_macs s) n (suc n) s.p2p_socks (λ q low. refl) (omega arith)
          socks,
      IsOwned-frame (peer_macs s) (peer_macs s) n (suc n) s.p2p_try_socks (λ q low. refl)
          (omega arith) tries,
      IsOwned-store (punch_macs s') (suc n) mac n s.punch_socks
          (ap (λ v. v.peer_mac) (update_same s.punches n (new_punch env mac))) (omega arith)
          (IsOwned-frame (punch_macs s) (punch_macs s') n (suc n) s.punch_socks
            (λ q low. ap (λ v. v.peer_mac) (update_fresh s.punches n (new_punch env mac) q low))
            (omega arith) punches),
    )

write_trigger-IsSound :
    (env : Env) (mac : ℕ) (o : Option ℕ) (s : P2p)
    → IsSound s
    → IsSound (write_trigger env mac o s).0
write_trigger-IsSound env mac none s h = h
write_trigger-IsSound env mac (some r) s h = h

trigger_over-IsSound :
    (env : Env) (mac : ℕ) (o : Option ℕ) (s : P2p)
    → IsSound s
    → IsSound (trigger_over env mac o s).0
trigger_over-IsSound env mac none s h = h
trigger_over-IsSound env mac (some r) s h =
    IsSound-if (not (is_fresh env (s.punches r) s)) _ _ (delete_punch-IsSound mac s h)
      (write_trigger-IsSound env mac (s.punches r).handler s h)

send_p2p_trigger-IsSound :
    (env : Env) (mac : ℕ) (s : P2p) → IsSound s → IsSound (send_p2p_trigger env mac s).0
unfolding send_p2p_trigger
send_p2p_trigger-IsSound env mac s h = trigger_over-IsSound env mac (load mac s.punch_socks) s h

pub hear_punch-IsSound :
    (env : Env) (r h : ℕ) (s : P2p) → IsSound s → IsSound (hear_punch env r h s)
hear_punch-IsSound env r h s sound =
    set_punch-IsSound r (record (s.punches r) { handler = some h; last_receive = unix env }) s refl
      sound

pub punch_active-IsSound :
    (env : Env) (r h : ℕ) (s : P2p) → IsSound s → IsSound (punch_active env r h s)
unfolding punch_active
punch_active-IsSound env r h s sound =
    let s1 = hear_punch env r h s in
    let s2 = open_punch r s1 in
    send_p2p_trigger-IsSound env (s2.punches r).peer_mac s2 (
      set_punch-IsSound r (record (s1.punches r) { connected = true }) s1 refl
        (hear_punch-IsSound env r h s sound))

punch_over-IsSound :
    (env : Env) (mac : ℕ) (trigger : Bool) (o : Option ℕ) (s : P2p)
    → IsSound s
    → IsSound (punch_over env mac trigger o s).0
punch_over-IsSound env mac trigger none s h = new_punch_sock-IsSound env mac s h
punch_over-IsSound env mac trigger (some r) s h =
    IsSound-if (is_fresh env (s.punches r) s) _ _
      (IsSound-if trigger _ _ (send_p2p_trigger-IsSound env mac s h) h)
      (delete_punch-IsSound mac s h)

start_punch-IsSound :
    (env : Env) (mac : ℕ) (trigger : Bool) (s : P2p)
    → IsSound s
    → IsSound (start_punch env mac trigger s).0
unfolding start_punch
start_punch-IsSound env mac trigger s h =
    punch_over-IsSound env mac trigger (load mac s.punch_socks) s h

pub process_p2p_trigger-IsSound :
    (env : Env) (o : Option P2pTrigger) (s : P2p)
    → IsSound s
    → IsSound (process_p2p_trigger env o s).0
unfolding process_p2p_trigger
process_p2p_trigger-IsSound env none s h = h
process_p2p_trigger-IsSound env (some msg) s h =
    IsSound-if (is_uni_cast msg.src_mac) _ _
      (IsSound-if (is_some (load msg.src_mac s.p2p_try_socks)) _ _ h (
        IsSound-if (is_some (load msg.src_mac s.p2p_socks)) _ _ h
          (start_punch-IsSound env msg.src_mac true s h)))
      h

send_direct-IsSound :
    (o : Option ℕ) (msg : DataFrame) (s : P2p) → IsSound s → IsSound (send_direct o msg s).0
send_direct-IsSound none msg s h = h
send_direct-IsSound (some r) msg s h = h

forward_over-IsSound :
    (env : Env) (mac : ℕ) (msg : DataFrame) (o : Option ℕ) (s : P2p)
    → IsSound s
    → IsSound (forward_over env mac msg o s).0
forward_over-IsSound env mac msg (some r) s h = send_direct-IsSound (s.peers r).handler msg s h
forward_over-IsSound env mac msg none s h =
    IsSound-if (is_need_p2p env mac s) _ _ (start_punch-IsSound env mac false s h) h

pub try_forward_message-IsSound :
    (env : Env) (mac : ℕ) (msg : DataFrame) (s : P2p)
    → IsSound s
    → IsSound (try_forward_message env mac msg s).0
unfolding try_forward_message
try_forward_message-IsSound env mac msg s h = IsSound-if (not s.running) _ _ h (
    IsSound-if (not (is_uni_cast mac)) _ _ h
      (forward_over-IsSound env mac msg (load mac s.p2p_socks) s h))
