-- ===== src/Framing/Datagram.antt =====
-- The datagram reader: one frame to a datagram.
use vilan_peer.Base.{ℕ, ◌-◌, ◌≤◌, ◌≡◌, arith}
use vilan_peer.Base.{List, [], ◌++◌, append_assoc, length, replicate, Option}
use vilan_peer.Base.{length-append, drop-append_length, ltb, if◌then◌else◌}
use vilan_peer.Varint.RoundTrip.{uvarint32-put_uvarint32}
use vilan_peer.Framing.{pack_length, handled, read_udp}
use vilan_peer.Deframer.Headers.{head_of, head_of-put, head_of-ne-nil}
use vilan_peer.Framing.Stream.{IsFrame, messages, deliver-messages}

module _ {S C : Type 0} (unmarshal_server : List ℕ → Option S)
    (unmarshal_client : List ℕ → Option C) where
  -- A payload of three bytes or more and at most `max` that HandleWrite sent in one datagram comes
  -- out as its message; a shorter payload is dropped without a word.
  pub read_udp-head_of :
      (max : ℕ) (d : List ℕ)
      → IsFrame d
      → length d ≤ max
      → read_udp unmarshal_server unmarshal_client max (head_of d ++ d)
        ≡ handled tt (if ltb 2 (length d) then messages unmarshal_server unmarshal_client d else [])
  unfolding read_udp
  read_udp-head_of max d h small =
      let pad : List ℕ = replicate (pack_length - length (head_of d ++ d)) 0 in
      let whole =
        uvarint32-put_uvarint32 (length d) (head_of d) (d ++ pad) (omega (arith, h.0.1))
          (head_of-put d h.0) in
      rw (append_assoc (head_of d) d pad, whole)
        (ground (
          arith,
          length-append (head_of d) d,
          head_of-ne-nil d h.0,
          drop-append_length (head_of d) d,
          deliver-messages unmarshal_server unmarshal_client d h,
        ))
