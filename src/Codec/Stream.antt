-- ===== src/Codec/Stream.antt =====
-- netty/codec/format/protobuf.go on stream channels (scheme 0): the frames that Deframer cuts out of the
-- stream, decrypted and passed on.
pub mod Delivery
use vilan_peer.Base.{
  ℕ, Bool, true, false, List, [], ◌∷◌, ◌++◌, Option, none, some, take, length, ◌==◌, ◌&&◌,
  if◌then◌else◌,
}
use vilan_peer.Crypto.{Ciphers}
use vilan_peer.Runtime.State.{Runtime}
use vilan_peer.Deframer
use vilan_peer.Deframer.{Pending, Handed, went, Dealt, dealt}
use vilan_peer.Codec.{
  pack_length, Proto, Inbound, Read, dropped, passed, read_body, Outbound, data_out, handle_write,
}
use vilan_peer.Model.Wire.{DataFrame}

-- The frames whose first two bytes cannot be read.
abbrev pub is_cut : List ℕ → Bool
is_cut [] = true
is_cut (a ∷ []) = a == 144
is_cut (a ∷ b ∷ rest) = false

-- The counters and what was passed on.
abbrev pub Passing : Type 0
Passing = Runtime × List Inbound

abbrev pub pass_on : List Inbound → Runtime × Read → Handed Passing
pass_on out (r, dropped) = went (r, out)
pass_on out (r, passed m) = went (r, out ++ (m ∷ []))
pass_on out (r, Read.panicked) = Handed.panicked (r, out)

module _ (c : Ciphers) (proto : Proto) where
  -- What readAndDeal does with one frame.
  unfoldable pub hand_on : List ℕ → Passing → Handed Passing
  hand_on frame (r, out) =
      if is_cut frame then Handed.panicked (r, out) else pass_on out (read_body c proto frame r)

  -- readAndDeal, whose text is that of serial/protocol/protobuf.go but for what is done with a frame.
  unfoldable pub read_and_deal : ℕ → List ℕ → Passing → Dealt Passing
  unfolding hand_on
  read_and_deal frame_length buffer s = Deframer.read_and_deal hand_on frame_length buffer s

  -- HandleRead: what was read, at most PackLength bytes, and whether with an error.
  unfoldable pub handle_read : Pending → List ℕ → Bool → Runtime → Dealt Passing
  unfolding read_and_deal
  handle_read p bytes failed r =
      if length bytes == 0 && failed
      then dealt p (r, [])
      else read_and_deal p.frame_length (p.buffer ++ take pack_length bytes) (r, [])

  abbrev both : Option (List ℕ) → Option (List ℕ) → Option (List ℕ)
  both none b = none
  both (some a) none = none
  both (some a) (some b) = some (a ++ b)

  -- Packets that are written one after the other: the bytes on the wire.
  unfoldable pub write_each : List DataFrame → Runtime → Runtime × Option (List ℕ)
  write_each [] r = (r, some [])
  write_each (m ∷ ms) r =
      let (r1, first) = handle_write c proto (data_out m) r in
      let (r2, rest) = write_each ms r1 in (r2, both first rest)
