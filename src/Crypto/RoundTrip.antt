-- ===== src/Crypto/RoundTrip.antt =====
-- What was encoded is decoded again.
use vilan_peer.Base.{ℕ, zero, suc, ◌+◌, ◌-◌, ◌%◌, ◌≤◌, ◌<◌, ◌≡◌, refl, ap, ◌∙◌, sym, arith}
use vilan_peer.Base.{true, false, List, [], ◌∷◌, ◌++◌, some, pos}
use vilan_peer.Base.{length, take, drop, replicate, get_or, length-append, length-replicate}
use vilan_peer.Base.{
  take-append_length, drop-append_length, length_none, length-drop, length-take, take-drop,
  take_all, subst, ◌==◌,
}
use vilan_peer.Crypto.{
  Ciphers, Coded, coded, read_back, padded, padding, unpadded, int_sub, aes_encode, aes_decode,
  aes_encrypt, aes_decrypt, blocks, joined, des_encode, des_decode, cut_text, key_bytes,
  aes_key_length,
}

-- What the block ciphers promise, of whole blocks: texts keep their length, and come back.
pub record IsCipher (c : Ciphers) : Type 0 where
  pub cbc_length :
      (key iv text : List ℕ)
      → length text % 16 ≡ 0
      → length (c.cbc_encrypt key iv text) ≡ length text
  pub cbc_inverse :
      (key iv text : List ℕ)
      → length text % 16 ≡ 0
      → c.cbc_decrypt key iv (c.cbc_encrypt key iv text) ≡ text
  pub des_length : (key b : List ℕ) → length b ≡ 8 → length (c.des_encrypt key b) ≡ 8
  pub des_inverse : (key b : List ℕ) → length b ≡ 8 → c.des_decrypt key (c.des_encrypt key b) ≡ b

-- That what `encode` makes of `src` is given back by `decode`: the code with its length, which fits
-- `room` and takes `size` bytes more than `src` at most, and a buffer that begins with `src`.
pub record ComesBack (encode : Coded) (decode : List ℕ → Coded) (src : List ℕ) (room size : ℕ)
    : Type 0 where
  pub code : List ℕ
  pub out : List ℕ
  pub encoded : encode ≡ coded code (pos (length code))
  pub fits : length code ≤ room
  pub short : length code ≤ length src + size
  pub some_code : 0 < length code
  pub decoded : decode code ≡ coded out (pos (length src))
  pub begins : take (length src) out ≡ src

pub read_back-ComesBack :
    (encode : Coded) (decode : List ℕ → Coded) (src : List ℕ) (room size : ℕ)
    → ComesBack encode decode src room size
    → (bs : List ℕ) × (read_back encode ≡ some bs) × (read_back (decode bs) ≡ some src)
read_back-ComesBack encode decode src room size back = (
  back.code,
  ap read_back back.encoded ∙ ap some (take_all back.code),
  ap read_back back.decoded ∙ ap some back.begins,
)

get_or-append_replicate :
    (xs : List ℕ) (n a d i : ℕ)
    → length xs ≤ i
    → i < length xs + n
    → get_or (xs ++ replicate n a) i d ≡ a
get_or-append_replicate [] zero a d i lo hi = absurd (omega arith)
get_or-append_replicate [] (suc n) a d zero lo hi = refl
get_or-append_replicate [] (suc n) a d (suc i) lo hi =
    get_or-append_replicate [] n a d i (omega arith) (omega arith)
get_or-append_replicate (x ∷ xs) n a d zero lo hi = absurd (omega arith)
get_or-append_replicate (x ∷ xs) n a d (suc i) lo hi =
    get_or-append_replicate xs n a d i (omega arith) (omega arith)

module _ (size : ℕ) (src : List ℕ) where
  pub length-padded : length (padded size src) ≡ length src + padding size src
  length-padded = omega (
    arith,
    length-append src (replicate (padding size src) (padding size src)),
    length-replicate (padding size src) (padding size src),
  )

  -- The padding tells its own length.
  pub unpadded-padded : 1 ≤ padding size src → unpadded (padded size src) ≡ pos (length src)
  unpadded-padded some_more =
      ap (λ k. int_sub (length (padded size src)) k) last
      ∙ ap (λ k. int_sub k (padding size src)) length-padded
      ∙ ground arith
    where
      last : get_or (padded size src) (length (padded size src) - 1) 0 ≡ padding size src
      last =
          get_or-append_replicate src (padding size src) (padding size src) 0
            (length (padded size src) - 1) (omega (arith, length-padded))
            (omega (arith, length-padded))

  pub take-padded : take (length src) (padded size src) ≡ src
  take-padded = take-append_length src (replicate (padding size src) (padding size src))

aes_decode_whole :
    (c : Ciphers) (key bs : List ℕ) (room : ℕ)
    → length key ≡ 16
    → length bs % 16 ≡ 0
    → 0 < length bs
    → length bs ≤ room
    → aes_decode c key bs room
      ≡ coded (c.cbc_decrypt key key bs) (unpadded (c.cbc_decrypt key key bs))
unfolding aes_decode
aes_decode_whole c key bs room one whole more fits = ground arith

aes_encode_fits :
    (c : Ciphers) (key src : List ℕ) (room : ℕ)
    → length key ≡ 16
    → length src + 16 ≤ room
    → aes_encode c key src room
      ≡ coded (c.cbc_encrypt key key (padded 16 src)) (pos (length src + padding 16 src))
unfolding aes_encode
aes_encode_fits c key src room one fits = ground arith

whole_test : (bs : List ℕ) → length bs % 16 ≡ 0 → (length bs % 16 == 0) ≡ true
whole_test bs h = ground arith

some_test : (bs : List ℕ) → 0 < length bs → (length bs == 0) ≡ false
some_test bs h = ground arith

module _ (c : Ciphers) (laws : IsCipher c) (src : List ℕ) where
  whole_blocks : length (padded 16 src) % 16 ≡ 0
  whole_blocks = omega (arith, length-padded 16 src)

  module _ (key iv : List ℕ) where
    encrypted_length : length (c.cbc_encrypt key iv (padded 16 src)) ≡ length src + padding 16 src
    encrypted_length = laws.cbc_length key iv (padded 16 src) whole_blocks ∙ length-padded 16 src

  pub aes_ComesBack :
      (key : List ℕ) (room : ℕ)
      → length key ≡ 16
      → length src + 16 ≤ room
      → ComesBack (aes_encode c key src room) (λ bs. aes_decode c key bs room) src room 16
  aes_ComesBack key room one fits =
      let bs : List ℕ = c.cbc_encrypt key key (padded 16 src) in
      let size : length bs ≡ length src + padding 16 src = encrypted_length key key in
      record {
        code = bs;
        out = padded 16 src;
        encoded = aes_encode_fits c key src room one fits ∙ ap (λ n. coded bs (pos n)) (sym size);
        fits = omega (arith, size);
        short = omega (arith, size);
        some_code = omega (arith, size);
        decoded =
            aes_decode_whole c key bs room one (omega (arith, size)) (omega (arith, size))
              (omega (arith, size))
            ∙ ap (λ t. coded t (unpadded t)) (laws.cbc_inverse key key (padded 16 src) whole_blocks)
            ∙ ap (coded (padded 16 src)) (unpadded-padded 16 src (omega arith));
        begins = take-padded 16 src;
      }

  -- With a key of one block and room for the padding, a text that AES has encoded is decoded again.
  pub aes_decode-aes_encode :
      (key : List ℕ) (room : ℕ)
      → length key ≡ 16
      → length src + 16 ≤ room
      → (bs : List ℕ) × (read_back (aes_encode c key src room) ≡ some bs)
        × (read_back (aes_decode c key bs room) ≡ some src)
  aes_decode-aes_encode key room one fits =
      read_back-ComesBack _ _ src room 16 (aes_ComesBack key room one fits)

  -- A text that AesEncrypt has encrypted under any key is decrypted by AesDecrypt.
  pub aes_decrypt-aes_encrypt : (key : List ℕ) → aes_decrypt c (aes_encrypt c src key) key ≡ src
  unfolding aes_decrypt aes_encrypt
  aes_decrypt-aes_encrypt key =
      let k : List ℕ = key_bytes (aes_key_length (length key)) key in
      let bs : List ℕ = c.cbc_encrypt k (take 16 k) (padded 16 src) in
      let size : length bs ≡ length src + padding 16 src = encrypted_length k (take 16 k) in
      rw (whole_test bs (omega (arith, size)), some_test bs (omega (arith, size)))
        (ap (λ t. cut_text t (unpadded t))
            (laws.cbc_inverse k (take 16 k) (padded 16 src) whole_blocks)
          ∙ ap (cut_text (padded 16 src)) (unpadded-padded 16 src (omega arith))
          ∙ take-padded 16 src)

-- One turn of the loop over blocks, on a block and what follows it.
blocks_next :
    (f : List ℕ → List ℕ) (fuel : ℕ) (b rest out : List ℕ) (room : ℕ)
    → length b ≡ 8
    → 8 ≤ room
    → blocks f fuel rest (room - 8) ≡ some out
    → blocks f (suc fuel) (b ++ rest) room ≡ some (f b ++ out)
unfolding blocks
blocks_next f fuel b rest out room one fits e =
    ground (arith, length-append b rest, front, ap (λ t. joined (f (take 8 (b ++ rest))) t) later)
  where
    front : take 8 (b ++ rest) ≡ b
    front = subst (λ n. take n (b ++ rest) ≡ b) one (take-append_length b rest)

    back : drop 8 (b ++ rest) ≡ rest
    back = subst (λ n. drop n (b ++ rest) ≡ rest) one (drop-append_length b rest)

    later : blocks f fuel (drop 8 (b ++ rest)) (room - 8) ≡ some out
    later = ap (λ t. blocks f fuel t (room - 8)) back ∙ e

-- That the loop with `f`, and then the loop with `g`, gives the text back.
abbrev LoopsBack : (List ℕ → List ℕ) → (List ℕ → List ℕ) → ℕ → ℕ → List ℕ → Type 0
LoopsBack f g fuel room src =
    (out : List ℕ) × (blocks f fuel src room ≡ some out)
    × (length out ≡ length src)
    × (blocks g fuel out room ≡ some src)

module _ (f g : List ℕ → List ℕ)
    (law : (b : List ℕ) → length b ≡ 8 → (length (f b) ≡ 8) × (g (f b) ≡ b)) where
  blocks_back_next :
      (fuel room : ℕ) (b rest : List ℕ)
      → length b ≡ 8
      → 8 ≤ room
      → LoopsBack f g fuel (room - 8) rest
      → LoopsBack f g (suc fuel) room (b ++ rest)
  blocks_back_next fuel room b rest one fits (out, there, size, back) = (
    f b ++ out,
    blocks_next f fuel b rest out room one fits there,
    omega (arith, length-append (f b) out, length-append b rest, (law b one).0),
    blocks_next g fuel (f b) out rest room (law b one).0 fits back
        ∙ ap (λ t. some (t ++ rest)) (law b one).1,
  )

  blocks_back :
      (fuel : ℕ) (src : List ℕ) (room : ℕ)
      → length src % 8 ≡ 0
      → length src ≤ room
      → length src ≤ fuel
      → LoopsBack f g fuel room src
  unfolding blocks
  blocks_back zero src room whole fits deep =
      ([], refl, omega (arith, deep), ap some (length_none src deep))
  blocks_back (suc fuel) [] room whole fits deep = ([], refl, refl, refl)
  blocks_back (suc fuel) (x ∷ xs) room whole fits deep =
      subst (LoopsBack f g (suc fuel) room) (take-drop 8 (x ∷ xs)) (
        blocks_back_next fuel room (take 8 (x ∷ xs)) (drop 8 (x ∷ xs))
          (length-take 8 (x ∷ xs) (omega arith)) (omega arith)
          (blocks_back fuel (drop 8 (x ∷ xs)) (room - 8) (omega (arith, length-drop 8 (x ∷ xs)))
            (omega (arith, length-drop 8 (x ∷ xs))) (omega (arith, length-drop 8 (x ∷ xs)))))

des_encode-blocks :
    (c : Ciphers) (key src out : List ℕ) (room : ℕ)
    → blocks (c.des_encrypt key) (length (padded 8 src)) (padded 8 src) room ≡ some out
    → des_encode c key src room ≡ coded out (pos (length out))
unfolding des_encode
des_encode-blocks c key src out room e = ground (arith, e, length-padded 8 src)

des_decode-blocks :
    (c : Ciphers) (key bs out : List ℕ) (room : ℕ)
    → length bs % 8 ≡ 0
    → 0 < length out
    → blocks (c.des_decrypt key) (length bs) bs room ≡ some out
    → des_decode c key bs room ≡ coded out (unpadded out)
unfolding des_decode
des_decode-blocks c key bs out room whole more e = ground (arith, e)

module _ (c : Ciphers) (laws : IsCipher c) (key src : List ℕ) where
  des_blocks :
      (room : ℕ)
      → length src + 8 ≤ room
      → LoopsBack
          (c.des_encrypt key)
          (c.des_decrypt key)
          (length (padded 8 src))
          room
          (padded 8 src)
  des_blocks room fits =
      blocks_back (c.des_encrypt key) (c.des_decrypt key)
        (λ b one. (laws.des_length key b one, laws.des_inverse key b one)) (length (padded 8 src))
        (padded 8 src) room (omega (arith, length-padded 8 src))
        (omega (arith, length-padded 8 src)) (omega arith)

  des_blocks_ComesBack :
      (room : ℕ)
      → length src + 8 ≤ room
      → LoopsBack
          (c.des_encrypt key)
          (c.des_decrypt key)
          (length (padded 8 src))
          room
          (padded 8 src)
      → ComesBack (des_encode c key src room) (λ bs. des_decode c key bs room) src room 8
  des_blocks_ComesBack room fits (out, there, size, back) = record {
    code = out;
    out = padded 8 src;
    encoded = des_encode-blocks c key src out room there;
    fits = omega (arith, size, length-padded 8 src);
    short = omega (arith, size, length-padded 8 src);
    some_code = omega (arith, size, length-padded 8 src);
    decoded =
        des_decode-blocks c key out (padded 8 src) room (omega (arith, size, length-padded 8 src))
          (omega (arith, length-padded 8 src))
          (subst (λ n. blocks (c.des_decrypt key) n out room ≡ some (padded 8 src)) (sym size) back)
        ∙ ap (coded (padded 8 src)) (unpadded-padded 8 src (omega arith));
    begins = take-padded 8 src;
  }

  pub des_ComesBack :
      (room : ℕ)
      → length src + 8 ≤ room
      → ComesBack (des_encode c key src room) (λ bs. des_decode c key bs room) src room 8
  des_ComesBack room fits = des_blocks_ComesBack room fits (des_blocks room fits)

  -- With room for the padding, a text that DES has encoded is decoded again, whatever the key.
  pub des_decode-des_encode :
      (room : ℕ)
      → length src + 8 ≤ room
      → (bs : List ℕ) × (read_back (des_encode c key src room) ≡ some bs)
        × (read_back (des_decode c key bs room) ≡ some src)
  des_decode-des_encode room fits = read_back-ComesBack _ _ src room 8 (des_ComesBack room fits)
