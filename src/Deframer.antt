-- ===== src/Deframer.antt =====
-- The stream branch that serial/protocol/protobuf.go and netty/codec/format/protobuf.go have in common:
-- readAndDeal cuts a stream into frames behind varint lengths. What is done with a frame is a parameter.
pub mod Headers
pub mod Stream
pub mod Total
use vilan_peer.Base.{
  ℕ, zero, suc, ◌*◌, ◌≤◌, List, [], ◌∷◌, ◌++◌, length, take, drop, ℤ, pos, negsuc, ltb, ◌==◌, ◌&&◌,
  ◌||◌, if◌then◌else◌,
}
use vilan_peer.Varint.{uvarint32}

-- The largest frame that the stream reader takes.
abbrev pub max_stream_frame : ℕ
max_stream_frame = 2 * 1024 * 1024

pub data Header : Type 0 where
  incomplete : Header
  overflow : Header
  header : ℕ → List ℕ → Header

abbrev pub header_of : List ℕ → ℕ → ℤ → Header
header_of buffer n (pos num) =
    if num == 0 && ltb (length buffer) 5 || ltb max_stream_frame n
    then incomplete
    else header n (drop num buffer)
header_of buffer n (negsuc num) = if ltb max_stream_frame n then incomplete else overflow

-- The header in front of the buffer: the frame's length and the buffer behind it.
unfoldable pub read_header : List ℕ → Header
read_header buffer = let (n, num) = uvarint32 buffer in header_of buffer n num

-- The buffer and the frame length that the codec keeps between reads.
pub record Pending : Type 0 where
  pub buffer : List ℕ
  pub frame_length : ℕ

abbrev pub no_pending : Pending
no_pending = record { buffer = []; frame_length = 0 }

-- What a frame comes to, with the state behind it.
pub data Handed {ℓ} (S : Type ℓ) : Type ℓ where
  went panicked : S → Handed S

-- `stuck` is no Go value: the model's fuel ran out.
pub data Dealt {ℓ} (S : Type ℓ) : Type ℓ where
  dealt : Pending → S → Dealt S
  stuck : Dealt S

module _ {S : Type 0} (hand : List ℕ → S → Handed S) where
  -- readAndDeal behind the first header: the branch for a whole frame, and the loop over a buffer
  -- that holds more. A panic is recovered: it empties the buffer.
  unfoldable pub deal : ℕ → ℕ → List ℕ → S → Dealt S
  deal zero n buffer s = stuck
  deal (suc fuel) n buffer s =
      if length buffer == n
      then elim (hand buffer s) [
        | went s' ↦ dealt no_pending s'
        | panicked s' ↦ dealt no_pending s'
      ]
      else if ltb n (length buffer)
      then elim (hand (take n buffer) s) [
        | panicked s' ↦ dealt no_pending s'
        | went s' ↦ elim (read_header (drop n buffer)) [
          | incomplete ↦ dealt (record { buffer = drop n buffer; frame_length = 0 }) s'
          | overflow ↦ dealt no_pending s'
          | header n' rest ↦ deal fuel n' rest s'
        ]
      ]
      else dealt (record { buffer = buffer; frame_length = n }) s

  -- readAndDeal, on the buffer with the new bytes.
  unfoldable pub read_and_deal : ℕ → List ℕ → S → Dealt S
  read_and_deal frame_length buffer s =
      if frame_length == 0
      then elim (read_header buffer) [
        | incomplete ↦ dealt (record { buffer = buffer; frame_length = 0 }) s
        | overflow ↦ dealt no_pending s
        | header n rest ↦ deal (suc (length rest)) n rest s
      ]
      else deal (suc (length buffer)) frame_length buffer s

  -- The stream branch of HandleRead.
  unfoldable pub read_stream : Pending → List ℕ → S → Dealt S
  read_stream p data' s = read_and_deal p.frame_length (p.buffer ++ data') s
