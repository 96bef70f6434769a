-- ===== src/Framing.antt =====
-- serial/protocol/protobuf.go: protobuf frames behind a varint length, over a byte stream (tcp) or
-- one to a datagram (udp). What proto.Unmarshal makes of a frame is a parameter, as is the type of
-- the messages; Reader.Read hands over at most PackLength bytes at a time.
pub mod Stream
pub mod Total
pub mod Datagram
use vilan_peer.Base.{ℕ, zero, suc, ◌+◌, ◌-◌, ◌*◌, ◌%◌, ◌^◌, Option, none, some, ltb, leb, ◌==◌}
use vilan_peer.Base.{List, [], ◌∷◌, ◌++◌, length, take, drop, replicate, ℤ, pos, negsuc}
use vilan_peer.Base.{Bool, ◌&&◌, ◌||◌, if◌then◌else◌}
use vilan_peer.Varint.{put_uvarint32, uvarint32}
use vilan_peer.Deframer.{Pending, no_pending, Handed, went, Dealt, dealt, stuck, read_stream}

-- PackLength
abbrev pub pack_length : ℕ
pack_length = 2048

pub record Codec : Type 0 where
  pub scheme : ℕ
  pub max_frame_length : ℕ
  pub pending : Pending

-- ProtobufCodec
pub protobuf_codec : ℕ → ℕ → Codec
protobuf_codec scheme max = record { scheme = scheme; max_frame_length = max; pending = no_pending }

-- What a handler comes to: its state and the messages passed on. `panicked` is a panic that leaves
-- the handler; `unfinished` is no Go value: the model's fuel ran out.
pub data Outcome {ℓ} (S M : Type ℓ) : Type ℓ where
  handled : S → List M → Outcome S M
  panicked : Outcome S M
  unfinished : Outcome S M

pub data Message {ℓ} (S C : Type ℓ) : Type ℓ where
  server : S → Message S C
  client : C → Message S C

module _ {S C : Type 0} (unmarshal_server : List ℕ → Option S)
    (unmarshal_client : List ℕ → Option C) where
  abbrev as_server : Option S → List (Message S C)
  as_server none = []
  as_server (some m) = server m ∷ []

  abbrev as_client : Option C → List (Message S C)
  as_client none = []
  as_client (some m) = client m ∷ []

  -- The messages passed on for one frame, told apart by its first two bytes. `none` is the panic of
  -- an index behind the frame's end.
  pub deliver : List ℕ → Option (List (Message S C))
  deliver [] = none
  deliver (a ∷ []) = if a == 0xf8 then none else some (as_client (unmarshal_client (a ∷ [])))
  deliver (a ∷ b ∷ rest) = some (
      if a == 0xf8 && b == 0x01
      then as_server (unmarshal_server (a ∷ b ∷ rest))
      else as_client (unmarshal_client (a ∷ b ∷ rest)))

  abbrev pub handed_on :
      List (Message S C) → Option (List (Message S C)) → Handed (List (Message S C))
  handed_on out none = Handed.panicked out
  handed_on out (some ms) = went (out ++ ms)

  -- One frame of the stream, behind the messages that were passed on before it.
  unfoldable pub hand_over : List ℕ → List (Message S C) → Handed (List (Message S C))
  unfolding deliver
  hand_over frame out = handed_on out (deliver frame)

  -- HandleRead, scheme 0, behind the messages that were passed on before.
  unfoldable pub read_tcp : Pending → List ℕ → List (Message S C) → Dealt (List (Message S C))
  unfolding hand_over
  read_tcp p data' out = read_stream hand_over p data' out

  abbrev passed_on : Option (List (Message S C)) → Outcome (Unit {0}) (Message S C)
  passed_on none = panicked
  passed_on (some ms) = handled tt ms

  abbrev udp_frame : ℕ → List ℕ → ℕ → ℤ → Outcome (Unit {0}) (Message S C)
  udp_frame max data' n (pos num) =
      if num == 0 && ltb (length data') 5 || ltb max n
      then handled tt []
      else if leb (length data') (num + 2)
      then handled tt []
      else passed_on (deliver (drop num data'))
  udp_frame max data' n (negsuc num) =
      if ltb max n || leb (length data' + num) 1 then handled tt [] else panicked

  -- HandleRead, any other scheme: one datagram in a buffer that is filled up with zeros.
  pub read_udp : ℕ → List ℕ → Outcome (Unit {0}) (Message S C)
  read_udp max data' =
      let (n, num) = uvarint32 (data' ++ replicate (pack_length - length data') 0) in
      udp_frame max data' n num

  abbrev with_pending : Codec → Dealt (List (Message S C)) → Outcome Codec (Message S C)
  with_pending c (dealt p ms) = handled (record c { pending = p }) ms
  with_pending c stuck = unfinished

  abbrev with_codec : Codec → Outcome (Unit {0}) (Message S C) → Outcome Codec (Message S C)
  with_codec c (handled _ ms) = handled c ms
  with_codec c panicked = panicked
  with_codec c unfinished = unfinished

  -- HandleRead: what Read returned, the bytes and whether with an error.
  pub handle_read : Codec → List ℕ → Bool → Outcome Codec (Message S C)
  unfolding read_tcp read_udp
  handle_read c data' failed =
      if length data' == 0 && failed
      then handled c []
      else if c.scheme == 0
      then with_pending c (read_tcp c.pending data' [])
      else with_codec c (read_udp c.max_frame_length data')

abbrev with_head : List ℕ → Option (List ℕ) → List (List ℕ)
with_head data' none = []
with_head data' (some head) = head ∷ data' ∷ []

-- HandleWrite: header and payload of a marshalled frame. The panic of a header that does not fit is
-- recovered, and nothing is written.
pub handle_write : List ℕ → List (List ℕ)
handle_write data' = with_head data' (put_uvarint32 5 (length data' % 2 ^ 32))
