-- ===== src/Framing/Total.antt =====
-- The stream branch of serial/protocol/protobuf.go on any input.
use vilan_peer.Base.{ℕ, ◌≡◌, refl, List, Option}
use vilan_peer.Deframer.{Pending, dealt}
use vilan_peer.Deframer.Total.{PanicsOnNil, read_stream_total}
use vilan_peer.Framing.{Message, hand_over, read_tcp}

module _ {S C : Type 0} (unmarshal_server : List ℕ → Option S)
    (unmarshal_client : List ℕ → Option C) where
  hand_over-nil : PanicsOnNil (hand_over unmarshal_server unmarshal_client)
  unfolding hand_over
  hand_over-nil out = (out, refl)

  -- On any bytes the stream reader comes back: its loop ends, and no panic leaves it.
  pub read_tcp_total :
      (p : Pending) (chunk : List ℕ) (out : List (Message S C))
      → (p' : Pending) × (ms : List (Message S C)) × (read_tcp unmarshal_server unmarshal_client p
            chunk out
          ≡ dealt p' ms)
  unfolding read_tcp
  read_tcp_total p chunk out =
      read_stream_total (hand_over unmarshal_server unmarshal_client) hand_over-nil p chunk out
