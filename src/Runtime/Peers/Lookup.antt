-- ===== src/Runtime/Peers/Lookup.antt =====
-- Which peers the service knows after an answer of the server.
use vilan_peer.Base.{ℕ, ◌≡◌, refl, ap, ◌∙◌, List, [], ◌∷◌, Option, none, some}
use vilan_peer.Base.{Bool-cases, inl, inr, store, load-store, ◌==◌, if◌then◌else◌}
use vilan_peer.Model.Messages.{PeerInfo, GroupPeersResponse}
use vilan_peer.P2p.Connect.Outcome.{load-clear_map}
use vilan_peer.Runtime.State.{Runtime, find_peer}
use vilan_peer.Runtime.Peers.{store_peers, renew, process_group_peers_response}

-- The last entry for an address, or the default.
unfoldable pub last_for : ℕ → List PeerInfo → Option PeerInfo → Option PeerInfo
last_for mac [] old = old
last_for mac (p ∷ ps) old = last_for mac ps (if p.peer_mac == mac then some p else old)

store_peers-find :
    (mac : ℕ) (ps : List PeerInfo) (r : Runtime)
    → find_peer mac (store_peers ps r) ≡ last_for mac ps (find_peer mac r)
unfolding store_peers last_for
store_peers-find mac [] r = refl
store_peers-find mac (p ∷ ps) r =
    store_peers-find mac ps (record r { group_peers = store p.peer_mac p r.group_peers })
    ∙ ap (last_for mac ps) (load-store p.peer_mac mac p r.group_peers)

-- After the server's list of the group, a peer is known by its last entry in the list. Peers that
-- the list does not name stay known under the same cookie, and are forgotten under another one.
pub find_peer-process_group_peers_response :
    (m : GroupPeersResponse) (mac : ℕ) (r : Runtime)
    → find_peer mac (process_group_peers_response (some m) r).0
      ≡ last_for mac m.peer_info (if r.group_peer_cookie == m.cookie then find_peer mac r else none)
unfolding process_group_peers_response
find_peer-process_group_peers_response m mac r =
    store_peers-find mac m.peer_info (renew m.cookie r) ∙ ap (last_for mac m.peer_info) kept
  where
    kept :
        find_peer mac (renew m.cookie r)
        ≡ (if r.group_peer_cookie == m.cookie then find_peer mac r else none)
    kept = elim (Bool-cases (r.group_peer_cookie == m.cookie)) [
      | inl same ↦ rw same refl
      | inr new ↦ rw new (load-clear_map mac r.group_peers)
    ]
