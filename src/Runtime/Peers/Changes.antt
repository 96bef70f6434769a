-- ===== src/Runtime/Peers/Changes.antt =====
-- What a change of a peer's state leaves behind.
use vilan_peer.Base.{ℕ, ◌≡◌, refl, ap, ◌∙◌, sym, false, Option, none, some, load}
use vilan_peer.Base.{Bool-cases, inl, inr, load-store, ◌==◌, if◌then◌else◌, ==→eq, ==-refl}
use vilan_peer.Model.Messages.{PeerInfo, StateChange}
use vilan_peer.P2p.Connect.{is_p2p, some?, peer_state_changed}
use vilan_peer.P2p.Connect.Outcome.{peer_state_changed_lem}
use vilan_peer.Runtime.State.{Runtime, World, find_peer}
use vilan_peer.Runtime.Peers.{change_peer, mark_online, mark_offline, process_peer_state_changed}

abbrev announced : Option PeerInfo → Option PeerInfo → Option PeerInfo
announced none old = old
announced (some p) old = some p

abbrev gone : Option PeerInfo → Option PeerInfo
gone none = none
gone (some p) = some (record p { online = false })

-- What is known of a peer after a message about it.
abbrev pub known_after : StateChange → Option PeerInfo → Option PeerInfo
known_after m old = if m.online then announced m.peer_info old else gone old

mark_online-find :
    (mac k : ℕ) (o : Option PeerInfo) (r : Runtime)
    → find_peer k (mark_online mac o r)
      ≡ (if mac == k then announced o (find_peer mac r) else find_peer k r)
mark_online-find mac k none r = elim (Bool-cases (mac == k)) [
  | inl same ↦ rw same (ap (λ j. find_peer j r) (sym (==→eq mac k same)))
  | inr another ↦ rw another refl
]
mark_online-find mac k (some p) r = load-store mac k p r.group_peers

mark_offline-find :
    (mac k : ℕ) (o : Option PeerInfo) (r : Runtime)
    → find_peer mac r ≡ o
    → find_peer k (mark_offline mac o r) ≡ (if mac == k then gone o else find_peer k r)
mark_offline-find mac k none r e = elim (Bool-cases (mac == k)) [
  | inl same ↦ rw same (ap (λ j. find_peer j r) (sym (==→eq mac k same)) ∙ e)
  | inr another ↦ rw another refl
]
mark_offline-find mac k (some p) r e = load-store mac k (record p { online = false }) r.group_peers

change_peer-find :
    (m : StateChange) (k : ℕ) (r : Runtime)
    → find_peer k (change_peer m r)
      ≡ (if m.peer_mac == k then known_after m (find_peer m.peer_mac r) else find_peer k r)
change_peer-find m k r = elim (Bool-cases m.online) [
  | inl on ↦ rw on (mark_online-find m.peer_mac k m.peer_info r)
  | inr off ↦ rw off (mark_offline-find m.peer_mac k (find_peer m.peer_mac r) r refl)
]

-- After a message that a peer has come or gone, it is known by the message's entry, or by its old
-- one, which is offline where the peer has gone; no other peer's entry has changed, and there is no
-- direct channel to the peer any more.
pub process_peer_state_changed_lem :
    (m : StateChange) (k : ℕ) (w : World)
    → let t = (process_peer_state_changed (some m) w).0 in
      (find_peer k t.runtime ≡ (
        if m.peer_mac == k
        then known_after m (find_peer m.peer_mac w.runtime)
        else find_peer k w.runtime))
      × (is_p2p m.peer_mac t.p2p ≡ false)
unfolding process_peer_state_changed is_p2p
process_peer_state_changed_lem m k w = (change_peer-find m k w.runtime, no_channel)
  where
    no_channel : is_p2p m.peer_mac (peer_state_changed m.peer_mac w.p2p) ≡ false
    no_channel = ap some? (
        (peer_state_changed_lem m.peer_mac m.peer_mac w.p2p).2
        ∙ ap (λ b. if b then none else load m.peer_mac w.p2p.p2p_socks) (==-refl m.peer_mac))
