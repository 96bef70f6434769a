-- ===== src/Codec.antt =====
-- netty/codec/format/protobuf.go on datagram channels (scheme 1, which every service chooses): one
-- frame to a datagram, behind a varint length, with the payload of data frames encrypted. What the
-- protobuf library makes of a frame is a parameter.
pub mod EndToEnd
pub mod Delivery
pub mod Stream
use vilan_peer.Base.{
  ℕ, ◌+◌, ◌-◌, ◌%◌, ◌^◌, Bool, true, false, List, [], ◌∷◌, ◌++◌, Option, none, some,
}
use vilan_peer.Base.{
  ℤ, pos, negsuc, length, take, drop, get_or, replicate, ◌==◌, ltb, leb, ◌&&◌, ◌||◌, if◌then◌else◌,
}
use vilan_peer.Varint.{uvarint32, put_uvarint32}
use vilan_peer.Model.Wire.{DataFrame, DataType, packet}
use vilan_peer.Model.Messages.{PeerFrame, ServerFrame}
use vilan_peer.Crypto.{Ciphers, Coded, coded, refused, crashed}
use vilan_peer.Runtime.State.{Runtime}
use vilan_peer.Runtime.Auth.{set_stats}
use vilan_peer.Runtime.Secrets.{encrypt_msg, decrypt_msg}

-- PackLength and ExSize
abbrev pub pack_length : ℕ
pack_length = 2048

abbrev pub ex_size : ℕ
ex_size = 30

-- proto.Marshal and proto.Unmarshal, with `none` for their errors, and XXX_Size.
pub record Proto : Type 0 where
  pub marshal_data : DataFrame → Option (List ℕ)
  pub marshal_peer : PeerFrame → Option (List ℕ)
  pub unmarshal_data : List ℕ → Option DataFrame
  pub unmarshal_server : List ℕ → Option ServerFrame
  pub data_size : DataFrame → ℕ
  pub peer_size : PeerFrame → ℕ
  pub server_size : ServerFrame → ℕ

-- The codec of one channel: the bytes of `rxBuffer`, which a shorter datagram overwrites in part.
-- Nothing is read of `txBuffer` before it is written.
pub record ProtobufCodec : Type 0 where
  pub max_frame_length : ℕ
  pub rx_buffer : List ℕ

-- ProtobufCodec(1, max)
abbrev pub protobuf_codec : ℕ → ProtobufCodec
protobuf_codec max = record { max_frame_length = max; rx_buffer = replicate pack_length 0 }

-- What HandleRead hands to the next handler.
pub data Inbound : Type 0 where
  data_frame : DataFrame → Inbound
  server_frame : ServerFrame → Inbound

pub data Read : Type 0 where
  dropped : Read
  passed : Inbound → Read
  panicked : Read

-- `txBuffer[:l]` behind a call of Encode or Decode; a call with an error leaves the payload alone, and
-- `none` is a panic.
abbrev pub coded_payload : Coded → List ℕ → Option (List ℕ)
coded_payload (coded out (pos n)) payload = if leb n pack_length then some (take n out) else none
coded_payload (coded out (negsuc n)) payload = none
coded_payload refused payload = some payload
coded_payload crashed payload = none

-- What the services write.
pub data Outbound : Type 0 where
  data_out : DataFrame → Outbound
  peer_out : PeerFrame → Outbound
  bytes_out : List ℕ → Outbound

-- rxBuffer after Read has copied a datagram into it.
abbrev pub filled : List ℕ → ProtobufCodec → List ℕ
filled datagram v =
    let front = take pack_length datagram in front ++ drop (length front) v.rx_buffer

abbrev pub read_length : List ℕ → ℕ
read_length datagram = length (take pack_length datagram)

abbrev pub with_head : List ℕ → Option (List ℕ) → Option (List ℕ)
with_head body none = none
with_head body (some head) = some (head ++ body)

-- Header and payload of a marshalled frame; `none` where nothing is written, since Marshal fails, or
-- by a panic that is recovered.
abbrev pub framed : Option (List ℕ) → Option (List ℕ)
framed none = none
framed (some body) = with_head body (put_uvarint32 5 (length body % 2 ^ 32))

abbrev pub is_packet : DataType → Bool
is_packet packet = true
is_packet _ = false

module _ (c : Ciphers) (proto : Proto) where
  abbrev pub pass_decrypted : DataFrame → Option (List ℕ) → Read
  pass_decrypted m none = panicked
  pass_decrypted m (some payload) = passed (data_frame (record m { payload = payload }))

  abbrev pub read_data : Option DataFrame → Runtime → Runtime × Read
  read_data none r = (r, dropped)
  read_data (some m) r =
      let r' = set_stats (ex_size + length m.payload) true (m.token == 0) r in
      if ltb 0 (length m.payload)
      then (r', pass_decrypted m (coded_payload (decrypt_msg c r' m.payload pack_length) m.payload))
      else (r', passed (data_frame m))

  abbrev pub read_server : Option ServerFrame → Runtime → Runtime × Read
  read_server none r = (r, dropped)
  read_server (some m) r = (set_stats (proto.server_size m) true false r, passed (server_frame m))

  abbrev pub read_body : List ℕ → Runtime → Runtime × Read
  read_body body r =
      if get_or body 0 0 == 144 && get_or body 1 0 == 3
      then read_data (proto.unmarshal_data body) r
      else read_server (proto.unmarshal_server body) r

  -- Behind the header: `rn` bytes were read, and the header is as Uvarint32 says.
  abbrev pub read_frame : ℕ → ℕ → List ℕ → ℕ → ℤ → Runtime → Runtime × Read
  read_frame max rn buffer n (pos num) r =
      if num == 0 && ltb rn 5 || ltb max n
      then (r, dropped)
      else if leb rn (num + 2)
      then (r, dropped)
      else read_body (drop num (take rn buffer)) r
  read_frame max rn buffer n (negsuc num) r =
      if ltb max n || leb (rn + num) 1 then (r, dropped) else (r, panicked)

  -- HandleRead: the header is looked for in the whole buffer, bytes of older datagrams included.
  unfoldable pub handle_read : ProtobufCodec → List ℕ → Runtime → ProtobufCodec × (Runtime × Read)
  handle_read v datagram r =
      let buffer = filled datagram v in
      let (n, num) = uvarint32 buffer in
      (
        record v { rx_buffer = buffer },
        read_frame v.max_frame_length (read_length datagram) buffer n num r,
      )

  abbrev pub write_packet : DataFrame → Option (List ℕ) → Runtime → Runtime × Option (List ℕ)
  write_packet m none r = (r, none)
  write_packet m (some payload) r = (
    set_stats (ex_size + length payload) false (m.token == 0) r,
    framed (proto.marshal_data (record m { payload = payload })),
  )

  abbrev pub payload_sent : DataFrame → Runtime → Option (List ℕ)
  payload_sent m r =
      if ltb 0 (length m.payload)
      then coded_payload (encrypt_msg c r m.payload pack_length) m.payload
      else some m.payload

  -- HandleWrite: the datagram that is written.
  unfoldable pub handle_write : Outbound → Runtime → Runtime × Option (List ℕ)
  handle_write (data_out m) r =
      if is_packet m.msg_type
      then write_packet m (payload_sent m r) r
      else (set_stats (proto.data_size m) false (m.token == 0) r, framed (proto.marshal_data m))
  handle_write (peer_out m) r =
      (set_stats (proto.peer_size m) false (m.token == 0) r, framed (proto.marshal_peer m))
  handle_write (bytes_out body) r = (r, framed (some body))
