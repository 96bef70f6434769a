-- ===== src/P2p/Check/Shutdown.antt =====
-- The end of the service.
use vilan_peer.Base.{ℕ, ◌≡◌, refl, ap, ◌∙◌, List, [], ◌∷◌, ◌++◌, append-nil, append_assoc}
use vilan_peer.Base.{none, Map, load, sym}
use vilan_peer.P2p.State.{P2p, Event, stopped_peer}
use vilan_peer.P2p.Connect.{clear_map}
use vilan_peer.P2p.Connect.Outcome.{load-clear_map, stops}
use vilan_peer.P2p.Check.{shut_peer, shut_each, stop_p2p_sockets}

abbrev Shuts : List Event → P2p → P2p → Type 0
Shuts evs s t =
    (t.log ≡ s.log ++ evs)
    × (t.punch_socks ≡ s.punch_socks)
    × (t.punches ≡ s.punches)
    × (t.p2p_socks ≡ s.p2p_socks)
    × (t.p2p_try_socks ≡ s.p2p_try_socks)

shut_each-Shuts : (m : Map ℕ) (s : P2p) → Shuts (stops m) s (shut_each m s)
unfolding shut_each
shut_each-Shuts [] s = (sym (append-nil s.log), refl, refl, refl, refl)
shut_each-Shuts ((k, r) ∷ m) s =
    let (l, p, h, e, t) = shut_each-Shuts m (shut_peer r s) in
    (l ∙ append_assoc s.log (stopped_peer r ∷ []) (stops m), p, h, e, t)

-- When the loop of the service ends, every established and every try socket is stopped and
-- forgotten. The punch sockets are neither: they stay in their map, and none of them is stopped.
pub stop_p2p_sockets_lem :
    (k : ℕ) (s : P2p)
    → let t = stop_p2p_sockets s in
      (load k t.p2p_socks ≡ none)
      × (load k t.p2p_try_socks ≡ none)
      × (t.punch_socks ≡ s.punch_socks)
      × (t.log ≡ (s.log ++ stops s.p2p_socks) ++ stops s.p2p_try_socks)
unfolding stop_p2p_sockets
stop_p2p_sockets_lem k s =
    let s1 : P2p = shut_each s.p2p_socks s in
    let s2 : P2p = record s1 { p2p_socks = clear_map s1.p2p_socks } in
    let (log1, punch1, _, _, tries1) = shut_each-Shuts s.p2p_socks s in
    let (log2, punch2, _, socks2, tries2) = shut_each-Shuts s2.p2p_try_socks s2 in
    (
      ap (load k) socks2 ∙ load-clear_map k s1.p2p_socks,
      load-clear_map k _,
      punch2 ∙ punch1,
      log2 ∙ ap (λ m. s1.log ++ stops m) tries1 ∙ ap (λ l. l ++ stops s.p2p_try_socks) log1,
    )
