-- ===== src/Codec/EndToEnd.antt =====
-- A frame that one peer writes is read by another one with the same cipher.
use vilan_peer.Base.{ℕ, ◌+◌, ◌%◌, ◌^◌, ◌≤◌, ◌<◌, ◌≡◌, refl, sym, ap, ◌∙◌, arith}
use vilan_peer.Base.{Bool, true, false, List, ◌∷◌, ◌++◌, append_assoc, some, pos}
use vilan_peer.Base.{length, take, drop, ◌==◌, take_all, take_more, length-append, lt→ltb}
use vilan_peer.Base.{take-append_length, drop-append_length, if◌then◌else◌}
use vilan_peer.Varint.{put_uvarint32}
use vilan_peer.Varint.Encode.{put_uvarint32_total}
use vilan_peer.Varint.RoundTrip.{uvarint32-put_uvarint32}
use vilan_peer.Deframer.Headers.{head_of, head_bytes}
use vilan_peer.Model.Wire.{DataFrame, packet}
use vilan_peer.Crypto.{Ciphers, coded}
use vilan_peer.Crypto.RoundTrip.{ComesBack}
use vilan_peer.Runtime.State.{Runtime, Crypt, not_connected}
use vilan_peer.Runtime.Auth.{set_stats}
use vilan_peer.Runtime.Secrets.{encode, decode, encrypt_msg, decrypt_msg}
use vilan_peer.Codec.{
  pack_length, ex_size, Proto, payload_sent, ProtobufCodec, data_frame, passed, coded_payload,
  filled, handle_read, data_out, framed, handle_write, with_head, read_data, read_frame,
  read_length, read_body, pass_decrypted,
}

-- The fields of a frame of Ethernet fit the types of the message.
abbrev pub IsPacket : DataFrame → Type 0
IsPacket m =
    (m.msg_type ≡ packet) × (m.src_mac < 2 ^ 64) × (m.dst_mac < 2 ^ 64) × (m.token < 2 ^ 32)

-- What protobuf promises: a packet begins with the tag of its type and holds its payload, the fields
-- besides the payload take 48 bytes at most, and a message is read back.
pub record IsProto (proto : Proto) : Type 0 where
  pub marshals :
      (m : DataFrame)
      → IsPacket m
      → (rest : List ℕ) × (proto.marshal_data m ≡ some (144 ∷ 3 ∷ rest))
        × (length m.payload ≤ length rest)
        × (length rest + 2 ≤ length m.payload + 48)
  pub unmarshals :
      (m : DataFrame) (bs : List ℕ)
      → IsPacket m
      → proto.marshal_data m ≡ some bs
      → proto.unmarshal_data bs ≡ some m

pub set_stats-crypt : (n : ℕ) (rx p2p : Bool) (r : Runtime) → (set_stats n rx p2p r).crypt ≡ r.crypt
unfolding set_stats
set_stats-crypt n rx p2p r = ground arith

pub set_stats-not_connected :
    (n : ℕ) (rx p2p : Bool) (r : Runtime) → not_connected (set_stats n rx p2p r) ≡ not_connected r
unfolding set_stats
set_stats-not_connected n rx p2p r = ground arith

module _ (c : Ciphers) (crypt : Crypt) (r : Runtime) (on : not_connected r ≡ false)
    (same : r.crypt ≡ some crypt) (text : List ℕ) (some_text : 0 < length text) where
  pub encrypt_msg_on : encrypt_msg c r text pack_length ≡ encode c crypt text pack_length
  unfolding encrypt_msg
  encrypt_msg_on = ground (arith, on, same)

  decrypt_msg_on : decrypt_msg c r text pack_length ≡ decode c crypt text pack_length
  unfolding decrypt_msg
  decrypt_msg_on = ground (arith, on, same)

coded_payload_whole :
    (out payload : List ℕ) (n : ℕ)
    → n ≤ pack_length
    → coded_payload (coded out (pos n)) payload ≡ some (take n out)
coded_payload_whole out payload n h = ground arith

framed_body :
    (body : List ℕ)
    → length body ≤ pack_length
    → (head : List ℕ) × (framed (some body) ≡ some (head ++ body))
      × (put_uvarint32 5 (length body) ≡ some head)
      × (1 ≤ length head)
      × (length head ≤ 5)
framed_body body h =
    let (head, e, _, lo, hi) = put_uvarint32_total (length body) (omega arith) in
    let whole : length body % 2 ^ 32 ≡ length body = omega arith in
    (head, ap (λ n. with_head body (put_uvarint32 5 n)) whole ∙ ap (with_head body) e, e, lo, hi)

filled_whole :
    (datagram : List ℕ) (v : ProtobufCodec)
    → length datagram ≤ pack_length
    → filled datagram v ≡ datagram ++ drop (length datagram) v.rx_buffer
filled_whole datagram v h =
    ap (λ front. front ++ drop (length front) v.rx_buffer) (take_more pack_length datagram h)

module _ (c : Ciphers) (proto : Proto) (v : ProtobufCodec) (r : Runtime) (head rest : List ℕ) where
  abbrev body : List ℕ
  body = 144 ∷ 3 ∷ rest

  body_between :
      (back : List ℕ)
      → length (head ++ body) ≤ pack_length
      → drop (length head) (take (read_length (head ++ body)) (head ++ (body ++ back))) ≡ body
  body_between back fits =
      ap (λ t. drop (length head) (take (length t) (head ++ (body ++ back))))
        (take_more pack_length (head ++ body) fits)
      ∙ ap (λ t. drop (length head) (take (length (head ++ body)) t))
          (sym (append_assoc head body back))
      ∙ ap (drop (length head)) (take-append_length (head ++ body) back)
      ∙ drop-append_length head body

  read_length_whole :
      length (head ++ body) ≤ pack_length → read_length (head ++ body) ≡ length head + length body
  read_length_whole fits =
      ap length (take_more pack_length (head ++ body) fits) ∙ length-append head body

  -- The tests of HandleRead let a whole frame through.
  read_frame_body :
      (back : List ℕ)
      → 1 ≤ length head
      → 1 ≤ length rest
      → length (head ++ body) ≤ pack_length
      → length body ≤ v.max_frame_length
      → read_frame c proto v.max_frame_length
          (read_length (head ++ body))
          (head ++ (body ++ back))
          (length body)
          (pos (length head))
          r
        ≡ read_data c proto (proto.unmarshal_data body) r
  read_frame_body back lo some_rest fits small =
      ground
        (arith, read_length_whole fits, ap (λ t. read_body c proto t r) (body_between back fits))

  -- HandleRead comes to the body of a whole frame, if the frame is a data frame.
  handle_read_body :
      put_uvarint32 5 (length body) ≡ some head
      → 1 ≤ length head
      → 1 ≤ length rest
      → length (head ++ body) ≤ pack_length
      → length body ≤ v.max_frame_length
      → (handle_read c proto v (head ++ body) r).1 ≡ read_data c proto (proto.unmarshal_data body) r
  unfolding handle_read
  handle_read_body e lo some_rest fits small =
      rw
        (
          filled_whole (head ++ body) v fits,
          append_assoc head body (drop (length (head ++ body)) v.rx_buffer),
          uvarint32-put_uvarint32 (length body) head
              (body ++ drop (length (head ++ body)) v.rx_buffer)
              (omega (arith, length-append head body)) e,
        )
        (read_frame_body (drop (length (head ++ body)) v.rx_buffer) lo some_rest fits small)

module _ (c : Ciphers) (proto : Proto) (laws : IsProto proto) (crypt : Crypt) (m : DataFrame)
    (size : ℕ) (fine : IsPacket m) (some_text : 0 < length m.payload)
    (room : length m.payload + size + 53 ≤ pack_length)
    (back : ComesBack
      (encode c crypt m.payload pack_length)
      (λ bs. decode c crypt bs pack_length)
      m.payload
      pack_length
      size) where
  abbrev coded_frame : DataFrame
  coded_frame = record m { payload = back.code }

  abbrev code_size : ℕ
  code_size = ex_size + length back.code

  abbrev direct : Bool
  direct = m.token == 0

  -- A connected sender writes the frame of the code.
  handle_write_coded :
      (r : Runtime)
      → not_connected r ≡ false
      → r.crypt ≡ some crypt
      → handle_write c proto (data_out m) r
        ≡ (set_stats code_size false direct r, framed (proto.marshal_data coded_frame))
  unfolding handle_write
  handle_write_coded r on same =
      let coded_back : payload_sent c proto m r ≡ some back.code = ground (
        arith,
        ap (λ t. coded_payload t m.payload)
            (encrypt_msg_on c crypt r on same m.payload some_text ∙ back.encoded),
        coded_payload_whole back.code m.payload (length back.code) back.fits,
        take_all back.code,
      ) in
      rw (fine.0, coded_back) refl

  -- A connected receiver makes the frame out of the code.
  read_data_coded :
      (r : Runtime)
      → not_connected r ≡ false
      → r.crypt ≡ some crypt
      → read_data c proto (some coded_frame) r
        ≡ (set_stats code_size true direct r, passed (data_frame m))
  read_data_coded r on same =
      let r' : Runtime = set_stats code_size true direct r in
      let decrypted : coded_payload (decrypt_msg c r' back.code pack_length) back.code
          ≡ some m.payload =
        ap (λ t. coded_payload t back.code)
          (decrypt_msg_on c crypt r' (set_stats-not_connected code_size true direct r ∙ on)
              (set_stats-crypt code_size true direct r ∙ same) back.code back.some_code
            ∙ back.decoded)
        ∙ coded_payload_whole back.out back.code (length m.payload) (omega arith)
        ∙ ap some back.begins in
      ap
        (λ test.
          if test
          then (
            r',
            pass_decrypted c proto coded_frame
                (coded_payload (decrypt_msg c r' back.code pack_length) back.code),
          )
          else (r', passed (data_frame coded_frame)))
        (lt→ltb 0 (length back.code) back.some_code)
      ∙ ap (λ t. (r', pass_decrypted c proto coded_frame t)) decrypted

  -- What a connected sender writes, a connected receiver reads.
  pub delivered :
      (v : ProtobufCodec) (sender receiver : Runtime)
      → length m.payload + size + 48 ≤ v.max_frame_length
      → not_connected sender ≡ false
      → not_connected receiver ≡ false
      → sender.crypt ≡ some crypt
      → receiver.crypt ≡ some crypt
      → (d : List ℕ) × (n : ℕ) × (handle_write c proto (data_out m) sender
          ≡ (set_stats n false direct sender, some d))
        × ((handle_read c proto v d receiver).1
            ≡ (set_stats n true direct receiver, passed (data_frame m)))
  delivered v sender receiver large on on' same same' =
      let (rest, marshalled, long, short) = laws.marshals coded_frame fine in
      let some_code = back.some_code in
      let code_short = back.short in
      let (head, written, put, lo, hi) = framed_body (144 ∷ 3 ∷ rest) (omega arith) in
      (
        head ++ (144 ∷ 3 ∷ rest),
        code_size,
        handle_write_coded sender on same
            ∙ ap (λ t. (set_stats code_size false direct sender, t))
                (ap framed marshalled ∙ written),
        handle_read_body c proto v receiver head rest put lo (omega arith)
              (omega (arith, length-append head (144 ∷ 3 ∷ rest))) (omega arith)
            ∙ ap (λ t. read_data c proto t receiver)
                (laws.unmarshals coded_frame (144 ∷ 3 ∷ rest) fine marshalled)
            ∙ read_data_coded receiver on' same',
      )

  -- The body of the frame that a connected sender writes, and what a connected receiver makes of it.
  pub framed_packet :
      (sender receiver : Runtime)
      → not_connected sender ≡ false
      → not_connected receiver ≡ false
      → sender.crypt ≡ some crypt
      → receiver.crypt ≡ some crypt
      → (rest : List ℕ) × (n : ℕ) × (handle_write c proto (data_out m) sender
          ≡ (set_stats n false direct sender, some (head_of (144 ∷ 3 ∷ rest) ++ (144 ∷ 3 ∷ rest))))
        × (read_body c proto (144 ∷ 3 ∷ rest) receiver
            ≡ (set_stats n true direct receiver, passed (data_frame m)))
        × (length rest + 2 ≤ pack_length)
  framed_packet sender receiver on on' same same' =
      let (rest, marshalled, long, short) = laws.marshals coded_frame fine in
      let code_short = back.short in
      let (head, written, put, lo, hi) = framed_body (144 ∷ 3 ∷ rest) (omega arith) in
      (
        rest,
        code_size,
        handle_write_coded sender on same
            ∙ ap (λ t. (set_stats code_size false direct sender, t))
                (ap framed marshalled
                  ∙ written
                  ∙ ap (λ o. some (head_bytes o ++ (144 ∷ 3 ∷ rest))) (sym put)),
        ap (λ t. read_data c proto t receiver)
              (laws.unmarshals coded_frame (144 ∷ 3 ∷ rest) fine marshalled)
            ∙ read_data_coded receiver on' same',
        omega arith,
      )
