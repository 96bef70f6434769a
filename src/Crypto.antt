-- ===== src/Crypto.antt =====
-- common/security.go: padding, keys and buffers around the block ciphers of Go's library, which are
-- parameters. A buffer `dst` of `room` bytes stands for the bytes that are written to its front.
pub mod RoundTrip
use vilan_peer.Base.{ℕ, zero, suc, ◌+◌, ◌-◌, ◌%◌, Bool, true, false, List, [], ◌∷◌, ◌++◌, Option}
use vilan_peer.Base.{none, some, ℤ, pos, negsuc, length, take, drop, replicate, get_or, ◌==◌, ltb}
use vilan_peer.Base.{leb, not, ◌&&◌, ◌||◌, if◌then◌else◌}

-- cipher.NewCBCEncrypter and CryptBlocks, by key, first vector and text, and their inverses; the
-- block functions of crypto/des; crypto/rsa with the peer's keys.
pub record Ciphers : Type 0 where
  pub cbc_encrypt : List ℕ → List ℕ → List ℕ → List ℕ
  pub cbc_decrypt : List ℕ → List ℕ → List ℕ → List ℕ
  pub des_encrypt : List ℕ → List ℕ → List ℕ
  pub des_decrypt : List ℕ → List ℕ → List ℕ
  pub rsa_encrypt : List ℕ → Option (List ℕ)
  pub rsa_decrypt : List ℕ → Option (List ℕ)

-- How Encode or Decode ends: with the bytes written to the front of `dst` and the int returned; with
-- an error; or by a panic.
pub data Coded : Type 0 where
  coded : List ℕ → ℤ → Coded
  refused : Coded
  crashed : Coded

-- What a caller reads by `dst[:n]` after a call without an error, with `none` for a panic.
abbrev pub read_back : Coded → Option (List ℕ)
read_back (coded out (pos n)) = some (take n out)
read_back (coded out (negsuc n)) = none
read_back refused = none
read_back crashed = none

-- int a - b
abbrev pub int_sub : ℕ → ℕ → ℤ
int_sub a b = if leb b a then pos (a - b) else negsuc (b - a - 1)

-- `copy(make([]byte, n), key)`
abbrev pub key_bytes : ℕ → List ℕ → List ℕ
key_bytes n key = take n (key ++ replicate n 0)

-- The length of the key: the second test is the first one again, so 24 is never chosen.
abbrev pub aes_key_length : ℕ → ℕ
aes_key_length k = if leb k 16 then 16 else if leb k 16 then 24 else 32

abbrev is_nil : List ℕ → Bool
is_nil [] = true
is_nil (c ∷ cs) = false

-- NewAesCrypt and NewDesCrypt: `keyByte` of the new object, or `none` for nil. The library makes a
-- cipher of every key of these lengths.
unfoldable pub new_aes_crypt : List ℕ → Option (List ℕ)
new_aes_crypt key = if is_nil key then none else some (key_bytes (aes_key_length (length key)) key)

unfoldable pub new_des_crypt : List ℕ → Option (List ℕ)
new_des_crypt key = if is_nil key then none else some (key_bytes 8 key)

-- As many bytes as complete the last block, or a whole block, each of that number.
abbrev pub padding : ℕ → List ℕ → ℕ
padding size src = size - length src % size

abbrev pub padded : ℕ → List ℕ → List ℕ
padded size src = src ++ replicate (padding size src) (padding size src)

-- AesCrypt.Encode. The key is the first vector too: the library panics where it is not one block.
unfoldable pub aes_encode : Ciphers → List ℕ → List ℕ → ℕ → Coded
aes_encode c key src room =
    if ltb room (length src + padding 16 src)
    then refused
    else if length key == 16
    then coded (c.cbc_encrypt key key (padded 16 src)) (pos (length src + padding 16 src))
    else crashed

-- The last byte of a text tells how many to cut off.
abbrev pub unpadded : List ℕ → ℤ
unpadded out = int_sub (length out) (get_or out (length out - 1) 0)

-- AesCrypt.Decode: a panic is recovered, and the call returns 0 and no error. CryptBlocks panics at
-- a vector that is not one block, at a part of a block, and at a buffer that is too small.
unfoldable pub aes_decode : Ciphers → List ℕ → List ℕ → ℕ → Coded
aes_decode c key src room =
    if not (length key == 16) || (not (length src % 16 == 0) || ltb room (length src))
    then coded [] (pos 0)
    else if length src == 0
    then coded [] (pos 0)
    else coded (c.cbc_decrypt key key src) (unpadded (c.cbc_decrypt key key src))

abbrev pub joined : List ℕ → Option (List ℕ) → Option (List ℕ)
joined b none = none
joined b (some bs) = some (b ++ bs)

-- The loop over the blocks of DES, on fuel; `none` is the panic of a block that does not fit.
unfoldable pub blocks : (List ℕ → List ℕ) → ℕ → List ℕ → ℕ → Option (List ℕ)
blocks f zero src room = some []
blocks f (suc fuel) src room =
    let more = blocks f fuel (drop 8 src) (room - 8) in
    if length src == 0
    then some []
    else if ltb room 8 || ltb (length src) 8
    then none
    else joined (f (take 8 src)) more

abbrev encoded_des : Option (List ℕ) → Coded
encoded_des none = crashed
encoded_des (some out) = coded out (pos (length out))

-- DesCrypt.Encode
unfoldable pub des_encode : Ciphers → List ℕ → List ℕ → ℕ → Coded
des_encode c key src room =
    let text = padded 8 src in
    if not (length text % 8 == 0)
    then refused
    else encoded_des (blocks (c.des_encrypt key) (length text) text room)

abbrev decoded_des : Option (List ℕ) → Coded
decoded_des none = crashed
decoded_des (some out) = if length out == 0 then crashed else coded out (unpadded out)

-- DesCrypt.Decode
unfoldable pub des_decode : Ciphers → List ℕ → List ℕ → ℕ → Coded
des_decode c key src room =
    if not (length src % 8 == 0)
    then refused
    else decoded_des (blocks (c.des_decrypt key) (length src) src room)

-- `copy(dst, text)` and the length of the text.
abbrev copied : ℕ → Option (List ℕ) → Coded
copied room none = refused
copied room (some text) = coded (take room text) (pos (length text))

-- RsaCrypt.Encode and RsaCrypt.Decode
pub rsa_encode : Ciphers → List ℕ → ℕ → Coded
rsa_encode c src room = copied room (c.rsa_encrypt src)

pub rsa_decode : Ciphers → List ℕ → ℕ → Coded
rsa_decode c src room = copied room (c.rsa_decrypt src)

-- AesEncrypt, for a text: the first vector is a part of the key, so every key length will do.
unfoldable pub aes_encrypt : Ciphers → List ℕ → List ℕ → List ℕ
aes_encrypt c text key =
    let k = key_bytes (aes_key_length (length key)) key in
    c.cbc_encrypt k (take 16 k) (padded 16 text)

-- `origData[:length-unPadding]`, with the empty result of a recovered panic.
abbrev cut_text : List ℕ → ℤ → List ℕ
cut_text out (pos n) = take n out
cut_text out (negsuc n) = []

-- AesDecrypt: a panic is recovered, and the call returns the empty text and no error.
unfoldable pub aes_decrypt : Ciphers → List ℕ → List ℕ → List ℕ
aes_decrypt c crypt key =
    let k = key_bytes (aes_key_length (length key)) key in
    let out = c.cbc_decrypt k (take 16 k) crypt in
    if not (length crypt % 16 == 0) || length crypt == 0 then [] else cut_text out (unpadded out)
