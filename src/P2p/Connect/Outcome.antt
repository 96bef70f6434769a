-- ===== src/P2p/Connect/Outcome.antt =====
-- How an attempt to connect ends.
use vilan_peer.Base.{ℕ, ◌≡◌, refl, ap, arith, true, List, []}
use vilan_peer.Base.{◌∷◌, ◌++◌, append-nil, append_assoc, none, some, Map, load, delete}
use vilan_peer.Base.{load-store, load-delete, ◌==◌, if◌then◌else◌}
use vilan_peer.Base.{inl, inr, Bool-cases, Option-cases, ◌∙◌, sym}
use vilan_peer.P2p.State.{P2p, Env, done, panicked, Event, stopped_peer}
use vilan_peer.P2p.State.{wrote_data, updated_peers, emit}
use vilan_peer.P2p.Connect.{keys, delete_all, clear_map, p2p_success, try_frame, peer_state_changed}
use vilan_peer.P2p.Connect.{is_p2p, stop_each, reset_p2p_socks}

module _ {ℓ} {V : Type ℓ} where
  load-delete_all :
      (k : ℕ) (ks : List ℕ) (m : Map V) → load k m ≡ none → load k (delete_all ks m) ≡ none
  unfolding delete_all
  load-delete_all k [] m e = e
  load-delete_all k (j ∷ ks) m e =
      load-delete_all k ks (delete j m) (simp load-delete (ground arith))

  -- Every key that is listed is gone.
  load-delete_all-keys :
      (k : ℕ) (n m : Map V)
      → (load k n ≡ none → load k m ≡ none)
      → load k (delete_all (keys n) m) ≡ none
  unfolding delete_all load
  load-delete_all-keys k [] m h = h refl
  load-delete_all-keys k ((j, v) ∷ n) m h = elim (Bool-cases (j == k)) [
    | inl same ↦ load-delete_all k (keys n) (delete j m) (simp load-delete (rw same))
    | inr other ↦
        load-delete_all-keys k n (delete j m) (λ e. simp load-delete (rw other (h (rw other e))))
  ]

  -- ClearMap leaves no entry.
  pub load-clear_map : (k : ℕ) (m : Map V) → load k (clear_map m) ≡ none
  unfolding clear_map
  load-clear_map k m = load-delete_all-keys k m m (λ e. e)

-- `P2PTry` from a peer that is being tried: its socket moves from the try sockets to the established
-- ones, the peer gets a try in return, the front end is told, and other peers keep their sockets.
pub p2p_success_lem :
    (env : Env) (mac sock r h k : ℕ) (s : P2p)
    → load mac s.p2p_try_socks ≡ some r
    → (s.peers r).handler ≡ some h
    → let t = (p2p_success env mac (some sock) s).0 in
      ((p2p_success env mac (some sock) s).1 ≡ done)
      × (load k t.p2p_socks ≡ (if mac == k then some r else load k s.p2p_socks))
      × (load k t.p2p_try_socks ≡ (if mac == k then none else load k s.p2p_try_socks))
      × (t.log
          ≡ (s.log ++ (wrote_data h (try_frame env (s.peers r).peer_mac) ∷ []))
            ++ (updated_peers ∷ []))
unfolding p2p_success
p2p_success_lem env mac sock r h k s e c =
    rw (e, c) (refl, load-store mac k r s.p2p_socks, load-delete mac k s.p2p_try_socks, refl)

-- Where the tried context has no channel, P2PSuccess panics: the peer is entered as connected all
-- the same, nothing is sent to it, and the front end is not told.
pub p2p_success_panics :
    (env : Env) (mac sock r : ℕ) (s : P2p)
    → load mac s.p2p_try_socks ≡ some r
    → (s.peers r).handler ≡ none
    → let t = (p2p_success env mac (some sock) s).0 in
      ((p2p_success env mac (some sock) s).1 ≡ panicked)
      × (is_p2p mac t ≡ true)
      × (load mac t.p2p_try_socks ≡ none)
      × (t.log ≡ s.log)
unfolding p2p_success is_p2p
p2p_success_panics env mac sock r s e c =
    rw (e, c)
      (
        refl,
        ground (arith, load-store mac mac r s.p2p_socks),
        ground (arith, load-delete mac mac s.p2p_try_socks),
        refl,
      )

abbrev pub stops : Map ℕ → List Event
stops [] = []
stops ((k, r) ∷ m) = stopped_peer r ∷ stops m

stop_each-stops : (m : Map ℕ) (s : P2p) → stop_each m s ≡ record s { log = s.log ++ stops m }
unfolding stop_each
stop_each-stops [] s = ap (λ l. record s { log = l }) (sym (append-nil s.log))
stop_each-stops ((k, r) ∷ m) s =
    stop_each-stops m (emit (stopped_peer r) s)
    ∙ ap (λ l. record s { log = l }) (append_assoc s.log (stopped_peer r ∷ []) (stops m))

-- ResetP2PSocks forgets every socket and every failure, and stops each try socket and then each
-- established socket. It stops no punch socket, though it forgets them too.
pub reset_p2p_socks_lem :
    (k : ℕ) (s : P2p)
    → let t = reset_p2p_socks s in
      (load k t.punch_socks ≡ none)
      × (load k t.his_p2p_fail_info ≡ none)
      × (load k t.p2p_try_socks ≡ none)
      × (load k t.p2p_socks ≡ none)
      × (t.log ≡ (s.log ++ stops s.p2p_try_socks) ++ stops s.p2p_socks)
unfolding reset_p2p_socks
reset_p2p_socks_lem k s = simp (stop_each-stops, load-clear_map) (refl, refl, refl, refl, refl)

-- After PeerStateChanged the service knows nothing of the peer but its punch socket, and everything
-- of other peers.
pub peer_state_changed_lem :
    (mac k : ℕ) (s : P2p)
    → let t = peer_state_changed mac s in
      (load k t.his_p2p_fail_info ≡ (if mac == k then none else load k s.his_p2p_fail_info))
      × (load k t.p2p_try_socks ≡ (if mac == k then none else load k s.p2p_try_socks))
      × (load k t.p2p_socks ≡ (if mac == k then none else load k s.p2p_socks))
      × (t.punch_socks ≡ s.punch_socks)
unfolding peer_state_changed
peer_state_changed_lem mac k s = elim (Option-cases (load mac s.p2p_try_socks)) [
  | inl e ↦ elim (Option-cases (load mac s.p2p_socks)) [
    | inl e' ↦ rw (e, e') (simp load-delete (refl, refl, refl, refl))
    | inr (r', e') ↦ rw (e, e') (simp load-delete (refl, refl, refl, refl))
  ]
  | inr (r, e) ↦ elim (Option-cases (load mac s.p2p_socks)) [
    | inl e' ↦ rw (e, e') (simp load-delete (refl, refl, refl, refl))
    | inr (r', e') ↦ rw (e, e') (simp load-delete (refl, refl, refl, refl))
  ]
]
