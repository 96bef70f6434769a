-- ===== src/Runtime/Secrets.antt =====
-- EncryptMsg and DecryptMsg, and the objects of common.Crypt that they call.
use vilan_peer.Base.{ℕ, true, false, List, [], Option, none, some, pos, length, ◌==◌, if◌then◌else◌}
use vilan_peer.Crypto.{Ciphers, Coded, coded, refused, crashed}
use vilan_peer.Crypto.{aes_encode, aes_decode, des_encode, des_decode, rsa_encode, rsa_decode}
use vilan_peer.Runtime.State.{Runtime, Crypt, aes, des, rsa, not_connected}

-- Crypt.Encode. A method on a nil pointer panics.
abbrev pub encode : Ciphers → Crypt → List ℕ → ℕ → Coded
encode c (aes none) src room = crashed
encode c (aes (some key)) src room = aes_encode c key src room
encode c (des none) src room = crashed
encode c (des (some key)) src room = des_encode c key src room
encode c (rsa true) src room = rsa_encode c src room
encode c (rsa false) src room = crashed

-- Crypt.Decode. That of AES recovers the panic.
abbrev pub decode : Ciphers → Crypt → List ℕ → ℕ → Coded
decode c (aes none) src room = coded [] (pos 0)
decode c (aes (some key)) src room = aes_decode c key src room
decode c (des none) src room = crashed
decode c (des (some key)) src room = des_decode c key src room
decode c (rsa true) src room = rsa_decode c src room
decode c (rsa false) src room = crashed

abbrev with_crypt : (Crypt → Coded) → Option Crypt → Coded
with_crypt f none = refused
with_crypt f (some crypt) = f crypt

-- EncryptMsg, of the payload of a frame, into a buffer of `room` bytes.
unfoldable pub encrypt_msg : Ciphers → Runtime → List ℕ → ℕ → Coded
encrypt_msg c r payload room =
    if not_connected r
    then refused
    else if length payload == 0
    then refused
    else with_crypt (λ crypt. encode c crypt payload room) r.crypt

-- DecryptMsg
unfoldable pub decrypt_msg : Ciphers → Runtime → List ℕ → ℕ → Coded
decrypt_msg c r payload room =
    if not_connected r
    then refused
    else if length payload == 0
    then refused
    else with_crypt (λ crypt. decode c crypt payload room) r.crypt
