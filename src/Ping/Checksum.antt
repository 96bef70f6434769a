-- ===== src/Ping/Checksum.antt =====
-- The checksum of Marshal against the rule of RFC 1071.
use Prim.Native.Nat.{bit_xor, bit_xor-bitwise}
use vilan_peer.Base.{
  ℕ, ◌+◌, ◌*◌, ◌/◌, ◌%◌, ◌^◌, ◌≤◌, ◌<◌, ◌≡◌, ap, ◌∙◌, arith, false, List, [], ◌∷◌, length, All,
  Option, none, some,
}
use vilan_peer.Ping.{
  IcmpEcho, IcmpMessage, marshal, marshal_echo, marshal_body, sum_words, folded, flipped,
  with_checksum, is_icmpv6,
}

abbrev pub IsByte : ℕ → Type 0
IsByte b = b < 256

-- The sum of the 16-bit words, the low byte first, without bounds.
abbrev pub words : List ℕ → ℕ
words [] = 0
words (a ∷ []) = a
words (a ∷ b ∷ rest) = a + 256 * b + words rest

words-le : (bs : List ℕ) → All IsByte bs → words bs ≤ 65535 * length bs
words-le [] h = omega arith
words-le (a ∷ []) h = omega arith
words-le (a ∷ b ∷ rest) (x, (y, h)) = omega (arith, words-le rest h)

small : (n : ℕ) → n < 2 ^ 32 → n % 2 ^ 32 ≡ n
small n h = omega arith

sum_words-words : (bs : List ℕ) (s : ℕ) → s + words bs < 2 ^ 32 → sum_words bs s ≡ s + words bs
unfolding sum_words
sum_words-words [] s h = omega arith
sum_words-words (a ∷ []) s h = omega arith
sum_words-words (a ∷ b ∷ rest) s h =
    ap (sum_words rest) (small (s + (b * 256 + a)) (omega (arith, h)))
    ∙ sum_words-words rest (s + (b * 256 + a)) (omega (arith, h))
    ∙ omega arith

zero-bit_xor : (b : ℕ) → bit_xor 0 b ≡ b
zero-bit_xor b = bit_xor-bitwise 0 b

checks :
    (s : ℕ)
    → s < 2 ^ 32
    → (s + flipped (folded s) % 256 + 256 * (flipped (folded s) / 256 % 256)) % 65535 ≡ 0
unfolding folded
checks s h = omega arith

abbrev pub payload_of : Option IcmpEcho → List ℕ
payload_of none = []
payload_of (some p) = p.payload

body_fits :
    (body : Option IcmpEcho)
    → All IsByte (payload_of body)
    → length (payload_of body) ≤ 65507
    → words (marshal_body body) ≤ 65535 * 65511
unfolding marshal_echo
body_fits none h n = omega arith
body_fits (some p) h n = omega (arith, words-le p.payload h)

checked :
    (kind code s : ℕ) (body : List ℕ)
    → kind + 256 * code + words body ≡ s
    → s < 2 ^ 32
    → words (with_checksum kind code body (folded s)) % 65535 ≡ 0
checked kind code s body e h =
    rw (zero-bit_xor (flipped (folded s) % 256), zero-bit_xor (flipped (folded s) / 256 % 256))
      (omega (arith, checks s h, e))

-- What Marshal makes of an ICMPv4 message is right in the sense of RFC 1071: the sum of its 16-bit words,
-- the checksum among them, is a multiple of 65535. The payload is of bytes, at most 65507 as IPv4 allows;
-- type and code are any numbers.
pub marshal-checksum :
    (m : IcmpMessage)
    → is_icmpv6 m.kind ≡ false
    → All IsByte (payload_of m.body)
    → length (payload_of m.body) ≤ 65507
    → words (marshal m) % 65535 ≡ 0
unfolding marshal
marshal-checksum m v4 bytes n =
    let total = m.kind % 256 + 256 * (m.code % 256) + words (marshal_body m.body) in
    let e =
      sum_words-words (m.kind % 256 ∷ m.code % 256 ∷ 0 ∷ 0 ∷ marshal_body m.body) 0
        (omega (arith, body_fits m.body bytes n)) in
    rw (v4, e)
      (checked (m.kind % 256) (m.code % 256) _ (marshal_body m.body) (omega arith)
        (omega (arith, body_fits m.body bytes n)))
