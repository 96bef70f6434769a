-- ===== src/Address/RoundTrip.antt =====
-- IPv4 addresses printed and read back.
use vilan_peer.Base.{ℕ, ◌+◌, ◌*◌, ◌/◌, ◌%◌, ◌^◌, ◌≤◌, ◌<◌, ◌≡◌, refl, ap, ◌∙◌, arith}
use vilan_peer.Base.{List, [], ◌∷◌, ◌++◌, Option, none, some, ℤ, pos, negsuc}
use vilan_peer.Base.{Bool, true, false, not, ◌&&◌, ◌==◌}
use vilan_peer.Base.Bits.{holds_below, holds_below_at, shift_bit_or}
use vilan_peer.Base.Text.{codes, split, parse_int, decimal}
use vilan_peer.Address.{add_octet, ip_v4_to_uint32, uint32_to_ip_v4, octets_value}

abbrev lacks : ℕ → List ℕ → Bool
lacks sep [] = true
lacks sep (c ∷ cs) = not (c == sep) && lacks sep cs

split_last : (sep : ℕ) (p : List ℕ) → lacks sep p ≡ true → split sep p ≡ p ∷ []
unfolding split
split_last sep [] h = refl
split_last sep (c ∷ cs) h = ground (arith, split_last sep cs)

split_part :
    (sep : ℕ) (p rest : List ℕ)
    → lacks sep p ≡ true
    → split sep (p ++ (sep ∷ rest)) ≡ p ∷ split sep rest
unfolding split
split_part sep [] rest h = ground arith
split_part sep (c ∷ cs) rest h = ground (arith, split_part sep cs rest)

abbrev is_value : ℕ → Option ℤ → Bool
is_value n none = false
is_value n (some (pos m)) = m == n
is_value n (some (negsuc m)) = false

is_value→eq : (n : ℕ) (o : Option ℤ) → is_value n o ≡ true → o ≡ some (pos n)
is_value→eq n none h = cc
is_value→eq n (some (pos m)) h = ground arith
is_value→eq n (some (negsuc m)) h = cc

octet_table : holds_below (λ n. is_value n (parse_int 16 (decimal n))) 256 ≡ true
unfolding holds_below parse_int decimal
octet_table = refl

parse_octet : (n : ℕ) → n < 256 → parse_int 16 (decimal n) ≡ some (pos n)
parse_octet n h =
    is_value→eq n _
      (holds_below_at (λ k. is_value k (parse_int 16 (decimal k))) n 256 h octet_table)

no_dot_table : holds_below (λ n. lacks b'.' (decimal n)) 256 ≡ true
unfolding holds_below decimal
no_dot_table = refl

no_dot : (n : ℕ) → n < 256 → lacks b'.' (decimal n) ≡ true
no_dot n h = holds_below_at (λ k. lacks b'.' (decimal k)) n 256 h no_dot_table

split_quad :
    (a b c d : ℕ)
    → a < 256
    → b < 256
    → c < 256
    → d < 256
    → split b'.' (decimal a ++ (b'.' ∷ (decimal b ++ (b'.' ∷ (decimal c ++ (b'.' ∷ decimal d))))))
      ≡ decimal a ∷ decimal b ∷ decimal c ∷ decimal d ∷ []
split_quad a b c d ha hb hc hd = rw (
  split_part b'.' (decimal a) _ (no_dot a ha),
  split_part b'.' (decimal b) _ (no_dot b hb),
  split_part b'.' (decimal c) _ (no_dot c hc),
  split_last b'.' (decimal d) (no_dot d hd),
)

add_octet_fits :
    (ip n : ℕ) → ip < 2 ^ 24 → n < 256 → add_octet ip (some (pos n)) ≡ some (ip * 256 + n)
add_octet_fits ip n h hn = ground (arith, shift_bit_or 8 ip n)

-- What IpV4toUint32 makes of four octets, most significant first.
read_quad :
    (a b c d : ℕ)
    → a < 256
    → b < 256
    → c < 256
    → d < 256
    → ip_v4_to_uint32
        (decimal a ++ (b'.' ∷ (decimal b ++ (b'.' ∷ (decimal c ++ (b'.' ∷ decimal d))))))
      ≡ some (((a * 256 + b) * 256 + c) * 256 + d)
unfolding ip_v4_to_uint32
read_quad a b c d ha hb hc hd =
    rw (split_quad a b c d ha hb hc hd, octets_value)
      (rw (parse_octet a ha, parse_octet b hb, parse_octet c hc, parse_octet d hd)
        (ground (
          arith,
          add_octet_fits 0 a,
          add_octet_fits a b,
          add_octet_fits (a * 256 + b) c,
          shift_bit_or 8 ((a * 256 + b) * 256 + c) d,
        )))

-- An address that Uint32toIpV4 printed is read back by IpV4toUint32, for every uint32.
pub ip_v4_to_uint32-uint32_to_ip_v4 :
    (ip : ℕ) → ip < 2 ^ 32 → ip_v4_to_uint32 (uint32_to_ip_v4 ip) ≡ some ip
unfolding uint32_to_ip_v4
ip_v4_to_uint32-uint32_to_ip_v4 ip h =
    read_quad (ip / 2 ^ 24) (ip / 2 ^ 16 % 256) (ip / 2 ^ 8 % 256) (ip % 256) (omega arith)
      (omega arith) (omega arith) (omega arith)
    ∙ ap some (omega arith)

abbrev is_addr : ℕ → Option ℕ → Bool
is_addr n none = false
is_addr n (some m) = m == n

is_addr→eq : (n : ℕ) (o : Option ℕ) → is_addr n o ≡ true → o ≡ some n
is_addr→eq n none h = cc
is_addr→eq n (some m) h = ground arith

wide_table :
    holds_below (λ n. is_addr n (ip_v4_to_uint32 (codes "0.0.0." ++ decimal n))) 1000 ≡ true
unfolding holds_below ip_v4_to_uint32 split parse_int decimal
wide_table = refl

-- IpV4toUint32 does not check that a part is an octet: a last part from 256 to 999 is accepted, and
-- the address read is that of another text, with the part's high bits in the third octet.
pub ip_v4_to_uint32_wide_part :
    (d : ℕ)
    → 256 ≤ d
    → d < 1000
    → ip_v4_to_uint32 (codes "0.0.0." ++ decimal d) ≡ ip_v4_to_uint32 (uint32_to_ip_v4 d)
ip_v4_to_uint32_wide_part d lo hi = rw (ip_v4_to_uint32-uint32_to_ip_v4 d (omega arith)) (
    is_addr→eq d _ (
      holds_below_at (λ k. is_addr k (ip_v4_to_uint32 (codes "0.0.0." ++ decimal k))) d 1000 hi
        wide_table))
