-- ===== src/Framing/Stream.antt =====
-- The stream branch of serial/protocol/protobuf.go against its contract.
use vilan_peer.Base.{
  ℕ, ◌≡◌, ◌≢◌, refl, ap, ◌∙◌, arith, List, [], ◌∷◌, ◌++◌, append_assoc, append-nil, All, Option,
  none, some,
}
use vilan_peer.Deframer.{no_pending, went, dealt}
use vilan_peer.Deframer.Headers.{sent, Fits, head_of-put}
use vilan_peer.Deframer.Stream.{flatten, run, feed, feed-run}
use vilan_peer.Framing.{Message, deliver, hand_over, handle_write}

-- A payload that the reader takes: neither empty, nor too long, nor the single byte 0xF8.
abbrev pub IsFrame : List ℕ → Type 0
IsFrame d = Fits d × (d ≢ 0xf8 ∷ [])

frames_fit : (ds : List (List ℕ)) → All IsFrame ds → All Fits ds
frames_fit [] h = tt
frames_fit (d ∷ ds) (h, hs) = (h.0, frames_fit ds hs)

module _ {S C : Type 0} (unmarshal_server : List ℕ → Option S)
    (unmarshal_client : List ℕ → Option C) where
  abbrev of_frame : Option (List (Message S C)) → List (Message S C)
  of_frame none = []
  of_frame (some ms) = ms

  -- What one frame stands for.
  abbrev pub messages : List ℕ → List (Message S C)
  messages d = of_frame (deliver unmarshal_server unmarshal_client d)

  abbrev pub all_messages : List (List ℕ) → List (Message S C)
  all_messages [] = []
  all_messages (d ∷ ds) = messages d ++ all_messages ds

  pub deliver-messages :
      (d : List ℕ) → IsFrame d → deliver unmarshal_server unmarshal_client d ≡ some (messages d)
  unfolding deliver
  deliver-messages [] (h, k) = absurd (omega arith)
  deliver-messages (a ∷ []) (h, k) = ground arith
  deliver-messages (a ∷ b ∷ rest) (h, k) = refl

  hand_over-messages :
      (d : List ℕ) (out : List (Message S C))
      → IsFrame d
      → hand_over unmarshal_server unmarshal_client d out ≡ went (out ++ messages d)
  unfolding hand_over
  hand_over-messages d out h = rw (deliver-messages d h)

  run-all_messages :
      (ds : List (List ℕ)) (out : List (Message S C))
      → All IsFrame ds
      → run (hand_over unmarshal_server unmarshal_client) ds out ≡ some (out ++ all_messages ds)
  run-all_messages [] out h = rw append-nil
  run-all_messages (d ∷ ds) out (h, hs) = rw (hand_over-messages d out h) (
      run-all_messages ds (out ++ messages d) hs
      ∙ ap some (append_assoc out (messages d) (all_messages ds)))

  -- However the bytes of a sequence of frames are cut into reads, the stream reader ends with an
  -- empty buffer and has passed on exactly the messages of those frames, in order; it neither
  -- panics nor loses its place. The frames are of one byte up to two megabytes, other than the
  -- single byte 0xF8.
  pub feed-sent :
      (ds chunks : List (List ℕ))
      → All IsFrame ds
      → flatten chunks ≡ sent ds
      → feed (hand_over unmarshal_server unmarshal_client) chunks no_pending []
        ≡ dealt no_pending (all_messages ds)
  feed-sent ds chunks hs e =
      feed-run (hand_over unmarshal_server unmarshal_client) ds chunks [] (all_messages ds)
        (frames_fit ds hs) e (run-all_messages ds [] hs)

-- HandleWrite writes the header and the payload that `sent` counts on.
pub handle_write-sent : (d : List ℕ) → Fits d → flatten (handle_write d) ≡ sent (d ∷ [])
unfolding handle_write
handle_write-sent d h = ground (arith, head_of-put d h)
