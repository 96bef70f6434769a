-- ===== src/Codec/Delivery.antt =====
-- Which passwords let the peers of a group exchange packets.
use vilan_peer.Base.{ℕ, ◌+◌, ◌≤◌, ◌<◌, ◌≡◌, refl, sym, ap, ◌∙◌, subst, arith, ◌⊎◌, inl, inr}
use vilan_peer.Base.{true, false, List, [], ◌∷◌, ◌++◌, none, some}
use vilan_peer.Base.{length, replicate, length-take, length-replicate, length-append, ◌==◌}
use vilan_peer.Model.Wire.{DataFrame, packet}
use vilan_peer.Crypto.{
  Ciphers, Coded, crashed, key_bytes, aes_key_length, new_aes_crypt, new_des_crypt, aes_encode,
}
use vilan_peer.Crypto.RoundTrip.{IsCipher, ComesBack, aes_ComesBack, des_ComesBack}
use vilan_peer.Runtime.State.{Runtime, Crypt, aes, des, not_connected}
use vilan_peer.Runtime.Auth.{set_stats}
use vilan_peer.Runtime.Secrets.{encode, decode}
use vilan_peer.Codec.{
  pack_length, Proto, ProtobufCodec, data_frame, passed, handle_read, data_out, handle_write,
  payload_sent, coded_payload,
}
use vilan_peer.Codec.EndToEnd.{IsPacket, IsProto, delivered, encrypt_msg_on}

-- A cipher that initCrypt makes for a password that it can use: AES with a password of one to 16 bytes,
-- DES with any one.
abbrev pub IsUsable : Crypt → List ℕ → Type 0
IsUsable crypt pwd =
    (0 < length pwd)
    × (((crypt ≡ aes (new_aes_crypt pwd)) × (length pwd ≤ 16)) ⊎ (crypt ≡ des (new_des_crypt pwd)))

length-key_bytes : (n : ℕ) (key : List ℕ) → length (key_bytes n key) ≡ n
length-key_bytes n key =
    length-take n (key ++ replicate n 0)
      (omega (arith, length-append key (replicate n 0), length-replicate {A = ℕ} n 0))

new_aes_crypt_made :
    (pwd : List ℕ)
    → 0 < length pwd
    → new_aes_crypt pwd ≡ some (key_bytes (aes_key_length (length pwd)) pwd)
unfolding new_aes_crypt
new_aes_crypt_made [] some_pwd = absurd (omega arith)
new_aes_crypt_made (x ∷ xs) some_pwd = refl

new_des_crypt_made : (pwd : List ℕ) → 0 < length pwd → new_des_crypt pwd ≡ some (key_bytes 8 pwd)
unfolding new_des_crypt
new_des_crypt_made [] some_pwd = absurd (omega arith)
new_des_crypt_made (x ∷ xs) some_pwd = refl

short_key : (k : ℕ) → k ≤ 16 → aes_key_length k ≡ 16
short_key k h = ground arith

long_key : (k : ℕ) → 16 < k → aes_key_length k ≡ 32
long_key k h = ground arith

ComesBack-wider :
    (enc : Coded) (dec : List ℕ → Coded) (src : List ℕ) (room size more : ℕ)
    → size ≤ more
    → ComesBack enc dec src room size
    → ComesBack enc dec src room more
ComesBack-wider enc dec src room size more wider back = record {
  code = back.code;
  out = back.out;
  encoded = back.encoded;
  fits = back.fits;
  short = (let short = back.short in omega arith);
  some_code = back.some_code;
  decoded = back.decoded;
  begins = back.begins;
}

module _ (c : Ciphers) (cipher_laws : IsCipher c) (text pwd : List ℕ)
    (room : length text + 16 ≤ pack_length) where
  abbrev pub CryptsBack : Crypt → Type 0
  CryptsBack crypt =
      ComesBack (encode c crypt text pack_length) (λ bs. decode c crypt bs pack_length) text
        pack_length 16

  aes_CryptsBack : 0 < length pwd → length pwd ≤ 16 → CryptsBack (aes (new_aes_crypt pwd))
  aes_CryptsBack some_pwd short =
      subst (λ o. CryptsBack (aes o)) (sym (new_aes_crypt_made pwd some_pwd))
        (aes_ComesBack c cipher_laws text (key_bytes (aes_key_length (length pwd)) pwd) pack_length
          (length-key_bytes _ pwd ∙ short_key (length pwd) short) room)

  des_CryptsBack : 0 < length pwd → CryptsBack (des (new_des_crypt pwd))
  des_CryptsBack some_pwd =
      subst (λ o. CryptsBack (des o)) (sym (new_des_crypt_made pwd some_pwd))
        (ComesBack-wider _ _ text pack_length 8 16 (omega arith)
          (des_ComesBack c cipher_laws (key_bytes 8 pwd) text pack_length (omega arith)))

  pub usable_CryptsBack : (crypt : Crypt) → IsUsable crypt pwd → CryptsBack crypt
  usable_CryptsBack crypt (some_pwd, inl (e, short)) =
      subst CryptsBack (sym e) (aes_CryptsBack some_pwd short)
  usable_CryptsBack crypt (some_pwd, inr e) = subst CryptsBack (sym e) (des_CryptsBack some_pwd)

-- Two connected peers that use the same cipher and the same password, one to 16 bytes long for AES, any
-- for DES: a packet with a payload of 1 to 1979 bytes, and of at most 64 bytes less than the longest frame
-- that the other takes, that one of them writes is one datagram, which the other reads as the same packet,
-- and both add the same number of bytes to their counters. It holds
-- whatever is left in the receiver's buffer, given that protobuf and the block ciphers invert themselves.
pub handle_read-handle_write :
    (c : Ciphers) (proto : Proto) (crypt : Crypt) (pwd : List ℕ) (m : DataFrame) (v : ProtobufCodec)
    (sender receiver : Runtime)
    → IsCipher c
    → IsProto proto
    → IsUsable crypt pwd
    → IsPacket m
    → 0 < length m.payload
    → length m.payload + 69 ≤ pack_length
    → length m.payload + 64 ≤ v.max_frame_length
    → not_connected sender ≡ false
    → not_connected receiver ≡ false
    → sender.crypt ≡ some crypt
    → receiver.crypt ≡ some crypt
    → (d : List ℕ) × (n : ℕ) × (handle_write c proto (data_out m) sender
        ≡ (set_stats n false (m.token == 0) sender, some d))
      × ((handle_read c proto v d receiver).1
          ≡ (set_stats n true (m.token == 0) receiver, passed (data_frame m)))
handle_read-handle_write c proto crypt pwd m v sender receiver laws proto_laws usable fine some_text
      room large on on' same same' =
    delivered c proto proto_laws crypt m 16 fine some_text (omega arith)
      (usable_CryptsBack c laws m.payload pwd (omega arith) crypt usable) v sender receiver
      (omega arith) on on' same same'

long_aes_crashes :
    (c : Ciphers) (pwd text : List ℕ)
    → 16 < length pwd
    → length text + 16 ≤ pack_length
    → encode c (aes (new_aes_crypt pwd)) text pack_length ≡ crashed
unfolding aes_encode
long_aes_crashes c pwd text long room =
    rw (new_aes_crypt_made pwd (omega arith)) (
      ground
        (arith, length-key_bytes (aes_key_length (length pwd)) pwd, long_key (length pwd) long))

-- A connected peer that uses AES with a password of more than 16 bytes writes no packet with a payload
-- of 1 to 2032 bytes: the cipher panics, the panic is recovered, and nothing is sent or counted.
pub handle_write_long_password :
    (c : Ciphers) (proto : Proto) (pwd : List ℕ) (m : DataFrame) (r : Runtime)
    → 16 < length pwd
    → r.crypt ≡ some (aes (new_aes_crypt pwd))
    → not_connected r ≡ false
    → m.msg_type ≡ packet
    → 0 < length m.payload
    → length m.payload + 16 ≤ pack_length
    → handle_write c proto (data_out m) r ≡ (r, none)
unfolding handle_write
handle_write_long_password c proto pwd m r long same on is_packet some_text room =
    let crashed_payload : payload_sent c proto m r ≡ none = ground (
      arith,
      ap (λ t. coded_payload t m.payload)
          (encrypt_msg_on c (aes (new_aes_crypt pwd)) r on same m.payload some_text
            ∙ long_aes_crashes c pwd m.payload long room),
    ) in
    rw (is_packet, crashed_payload) refl
