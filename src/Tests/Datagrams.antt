-- ===== src/Tests/Datagrams.antt =====
-- common/security.go and netty/codec/format/protobuf.go on concrete states.
use vilan_peer.Base.{ℕ, ◌≡◌, refl, sym, ap, ◌∙◌, inl, arith, true, false, length, replicate}
use vilan_peer.Base.{List, [], ◌∷◌, Option, none, some}
use vilan_peer.Base.Text.{codes}
use vilan_peer.Model.Wire.{DataFrame, packet}
use vilan_peer.Crypto.{Ciphers, new_aes_crypt}
use vilan_peer.Crypto.RoundTrip.{IsCipher}
use vilan_peer.Runtime.State.{Runtime, aes}
use vilan_peer.Runtime.Auth.{set_stats}
use vilan_peer.Codec.{Proto, ProtobufCodec, handle_read, handle_write, data_out, data_frame, passed}
use vilan_peer.Codec.EndToEnd.{IsProto}
use vilan_peer.Codec.Stream.{write_each, hand_on}
use vilan_peer.Codec.Stream.Delivery.{feed-write_each, pieces, IsSendable}
use vilan_peer.Deframer.{no_pending, dealt}
use vilan_peer.Deframer.Stream.{feed}
use vilan_peer.Codec.Delivery.{handle_read-handle_write, handle_write_long_password}
use vilan_peer.Tests.Services.{runtime}

-- Ciphers that leave a text as it is.
abbrev clear : Ciphers
clear = record {
  cbc_encrypt = λ key iv text. text;
  cbc_decrypt = λ key iv text. text;
  des_encrypt = λ key block. block;
  des_decrypt = λ key block. block;
  rsa_encrypt = λ text. none;
  rsa_decrypt = λ text. none;
}

clear-IsCipher : IsCipher clear
clear-IsCipher = record {
  cbc_length = λ key iv text whole. refl;
  cbc_inverse = λ key iv text whole. refl;
  des_length = λ key b one. one;
  des_inverse = λ key b one. refl;
}

abbrev text : List ℕ
text = codes "a frame of more than a block"

abbrev pwd : List ℕ
pwd = codes "default_pwd"

-- A message as two bytes of a tag, its three numbers and its payload.
abbrev message : List ℕ → Option DataFrame
message (a ∷ b ∷ src ∷ dst ∷ token ∷ payload) =
    some
      (record { msg_type = packet; src_mac = src; dst_mac = dst; token = token; payload = payload })
message _ = none

abbrev fields : DataFrame → List ℕ
fields m = 144 ∷ 3 ∷ m.src_mac ∷ m.dst_mac ∷ m.token ∷ m.payload

abbrev proto : Proto
proto = record {
  marshal_data = λ m. some (fields m);
  marshal_peer = λ m. none;
  unmarshal_data = message;
  unmarshal_server = λ bs. none;
  data_size = λ m. length (fields m);
  peer_size = λ m. 0;
  server_size = λ m. 0;
}

abbrev message_of : Option (List ℕ) → Option DataFrame
message_of none = none
message_of (some bs) = message bs

proto-IsProto : IsProto proto
proto-IsProto = record {
  marshals =
      λ m fine. (m.src_mac ∷ m.dst_mac ∷ m.token ∷ m.payload, refl, omega arith, omega arith);
  unmarshals = λ m bs fine e.
      ap message_of (sym e) ∙ ap (λ t. some (record m { msg_type = t })) (sym fine.0);
}

abbrev frame : DataFrame
frame = record { msg_type = packet; src_mac = 0xa1; dst_mac = 0xb2; token = 0; payload = text }

abbrev keyed : Runtime
keyed = record runtime { crypt = some (aes (new_aes_crypt pwd)) }

-- A codec whose buffer still holds an older datagram.
abbrev used : ProtobufCodec
used = record { max_frame_length = 2048; rx_buffer = replicate 2048 255 }

handle_read-handle_write_example :
    (d : List ℕ) × (n : ℕ) × (handle_write clear proto (data_out frame) keyed
      ≡ (set_stats n false true keyed, some d))
    × ((handle_read clear proto used d keyed).1
        ≡ (set_stats n true true keyed, passed (data_frame frame)))
handle_read-handle_write_example =
    handle_read-handle_write clear proto (aes (new_aes_crypt pwd)) pwd frame used keyed keyed
      clear-IsCipher proto-IsProto (omega arith, inl (refl, omega arith))
      (refl, omega arith, omega arith, omega arith) (omega arith) (omega arith) (omega arith) refl
      refl refl refl

abbrev long_pwd : List ℕ
long_pwd = codes "a password of 25 letters."

abbrev mistaken : Runtime
mistaken = record runtime { crypt = some (aes (new_aes_crypt long_pwd)) }

handle_write_long_password_example :
    handle_write clear proto (data_out frame) mistaken ≡ (mistaken, none)
handle_write_long_password_example =
    handle_write_long_password clear proto long_pwd frame mistaken (omega arith) refl refl refl
      (omega arith) (omega arith)

-- The same frame three times over a stream, in reads of 7, 0 and 100 bytes and what is left.
feed-write_each_example :
    (bytes : List ℕ) × (receiver' : Runtime) × ((write_each clear proto
        (frame ∷ frame ∷ frame ∷ [])
        keyed).1
      ≡ some bytes)
    × (feed (hand_on clear proto) (pieces (7 ∷ 0 ∷ 100 ∷ []) bytes) no_pending (keyed, [])
        ≡ dealt no_pending (receiver', data_frame frame ∷ data_frame frame ∷ data_frame frame ∷ []))
feed-write_each_example =
    let packet' : IsSendable frame =
      ((refl, omega arith, omega arith, omega arith), omega arith, omega arith) in
    feed-write_each clear proto (aes (new_aes_crypt pwd)) pwd (frame ∷ frame ∷ frame ∷ [])
      (7 ∷ 0 ∷ 100 ∷ []) keyed keyed clear-IsCipher proto-IsProto
      (omega arith, inl (refl, omega arith)) (packet', (packet', (packet', tt))) (refl, refl)
      (refl, refl)
