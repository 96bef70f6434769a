-- ===== src/Runtime/Send/Post.antt =====
-- Where a frame that the network card read goes.
use vilan_peer.Base.{ℕ, ◌≡◌, List}
use vilan_peer.P2p.State as P2pState
use vilan_peer.P2p.Punch.Forward.{IsQuiet}
use vilan_peer.Runtime.State.{World, emit, relayed}
use vilan_peer.Runtime.Send.{data_frame}

-- The frame went to the peer, on a channel of its own, and nothing else has changed.
abbrev pub SentDirect : ℕ → List ℕ → World → World → Type 0
SentDirect mac bytes w t =
    (c : ℕ) × (t.p2p ≡ P2pState.emit (P2pState.wrote_data c (data_frame mac bytes w.runtime)) w.p2p)
    × (t.runtime ≡ w.runtime)

-- The frame went to the server, with the token of the registration, and no message to a peer.
abbrev pub SentRelayed : ℕ → ℕ → List ℕ → World → World → Type 0
SentRelayed h mac bytes w t =
    (t.runtime
      ≡ emit
          (relayed h
            (record (data_frame mac bytes w.runtime) { token = w.runtime.server_sock.token }))
          w.runtime)
    × IsQuiet w.p2p t.p2p
