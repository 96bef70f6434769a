-- ===== src/Base/Text.antt =====
-- Text as a list of bytes, and what the program uses of Go's `strings` and `strconv`.
use Prim.Native.Nat.{ℕ, zero, suc, ◌+◌, ◌-◌, ◌*◌, ◌/◌, ◌%◌, ◌^◌}
use Prim.Native.Nat.{◌<◌, ◌≤◌}
use vilan_peer.Base.Lists.{All}
use mathlib.Core.Path.{◌≡◌, refl, ap, ◌∙◌}
use native.Mathlib.Omega.{arith}
use Prim.Native.Char.{code}
use Prim.Native.String.{String}
use mathlib.Core.Bool.{Bool, true, false, ◌&&◌}
use mathlib.Core.Option.{Option, none, some}
use mathlib.Core.List.{List, [], ◌∷◌}
use mathlib.Core.Logic.{inl, inr}
use vilan_peer.Base.Tests.{==-refl, Bool-cases, ltb, leb, ◌==◌, if◌then◌else◌}
use vilan_peer.Base.Int.{ℤ, pos, negsuc}

-- The bytes of an ASCII text.
abbrev pub codes : String → List ℕ
codes String.[] = []
codes (String.◌∷◌ c s) = code c ∷ codes s

abbrev pub cons_head : ℕ → List (List ℕ) → List (List ℕ)
cons_head c [] = (c ∷ []) ∷ []
cons_head c (p ∷ ps) = (c ∷ p) ∷ ps

-- strings.Split(s, sep) for a separator of one byte.
unfoldable pub split : ℕ → List ℕ → List (List ℕ)
split sep [] = [] ∷ []
split sep (c ∷ cs) = let rest = split sep cs in if c == sep then [] ∷ rest else cons_head c rest

-- A run of decimal digits; `none` at any other byte.
unfoldable pub digits_value : ℕ → List ℕ → Option ℕ
digits_value acc [] = some acc
digits_value acc (c ∷ cs) =
    let rest = digits_value (acc * 10 + (c - b'0')) cs in
    if leb b'0' c && leb c b'9' then rest else none

abbrev parse_uint : List ℕ → Option ℕ
parse_uint [] = none
parse_uint (c ∷ cs) = digits_value 0 (c ∷ cs)

abbrev fits_bits : ℕ → Option ℕ → Option ℕ
fits_bits bits none = none
fits_bits bits (some n) = if ltb n (2 ^ bits) then some n else none

-- strconv.ParseUint(s, 10, bits), with `none` for its errors.
unfoldable pub parse_uint_bits : ℕ → List ℕ → Option ℕ
unfolding digits_value
parse_uint_bits bits s = fits_bits bits (parse_uint s)

abbrev in_range : ℕ → Option ℕ → Option ℤ
in_range bits none = none
in_range bits (some n) = if ltb n (2 ^ (bits - 1)) then some (pos n) else none

abbrev in_range_neg : ℕ → Option ℕ → Option ℤ
in_range_neg bits none = none
in_range_neg bits (some zero) = some (pos 0)
in_range_neg bits (some (suc n)) = if ltb n (2 ^ (bits - 1)) then some (negsuc n) else none

-- strconv.ParseInt(s, 10, bits), with `none` for its errors.
unfoldable pub parse_int : ℕ → List ℕ → Option ℤ
unfolding digits_value
parse_int bits [] = none
parse_int bits (c ∷ cs) =
    if c == b'-'
    then in_range_neg bits (parse_uint cs)
    else if c == b'+'
    then in_range bits (parse_uint cs)
    else in_range bits (parse_uint (c ∷ cs))

decimal_loop : ℕ → ℕ → List ℕ → List ℕ
decimal_loop zero n acc = acc
decimal_loop (suc fuel) n acc =
    let more = decimal_loop fuel (n / 10) ((n % 10 + b'0') ∷ acc) in
    if ltb n 10 then (n + b'0') ∷ acc else more

-- `%d` of a uint64: twenty digits at most.
unfoldable pub decimal : ℕ → List ℕ
unfolding decimal_loop
decimal n = decimal_loop 20 n []

-- Whether two texts are the same.
unfoldable pub same_text : List ℕ → List ℕ → Bool
same_text [] [] = true
same_text [] (d ∷ ds) = false
same_text (c ∷ cs) [] = false
same_text (c ∷ cs) (d ∷ ds) = (c == d) && same_text cs ds

digits_value-decimal_loop :
    (fuel n : ℕ) (acc : List ℕ)
    → n < 10 ^ suc fuel
    → digits_value 0 (decimal_loop (suc fuel) n acc) ≡ digits_value n acc
unfolding digits_value decimal_loop
digits_value-decimal_loop zero n acc h = ground arith
digits_value-decimal_loop (suc fuel) n acc h =
    ground (arith, digits_value-decimal_loop fuel (n / 10) ((n % 10 + b'0') ∷ acc))

decimal_loop_some :
    (fuel n : ℕ) (acc : List ℕ) → (c : ℕ) × (cs : List ℕ) × (decimal_loop (suc fuel) n acc ≡ c ∷ cs)
unfolding decimal_loop
decimal_loop_some zero n acc = elim (Bool-cases (ltb n 10)) [
  | inl last ↦ (n + b'0', acc, rw last refl)
  | inr more ↦ (n % 10 + b'0', acc, rw more refl)
]
decimal_loop_some (suc fuel) n acc = elim (Bool-cases (ltb n 10)) [
  | inl last ↦ (n + b'0', acc, rw last refl)
  | inr more ↦
      let (c, cs, e) = decimal_loop_some fuel (n / 10) ((n % 10 + b'0') ∷ acc) in (c, cs, rw more e)
]

parse_uint_some : (s : List ℕ) (c : ℕ) (cs : List ℕ) → s ≡ c ∷ cs → parse_uint s ≡ digits_value 0 s
parse_uint_some [] c cs e = cc
parse_uint_some (x ∷ xs) c cs e = refl

-- A uint64 that was printed is parsed again.
pub parse_uint_bits-decimal : (n : ℕ) → n < 2 ^ 64 → parse_uint_bits 64 (decimal n) ≡ some n
unfolding parse_uint_bits decimal digits_value
parse_uint_bits-decimal n h =
    let (c, cs, e) = decimal_loop_some 19 n [] in
    ap (fits_bits 64)
      (parse_uint_some (decimal n) c cs e ∙ digits_value-decimal_loop 19 n [] (omega arith))
    ∙ ground arith

pub same_text_refl : (t : List ℕ) → same_text t t ≡ true
unfolding same_text
same_text_refl [] = refl
same_text_refl (c ∷ cs) = rw (==-refl c) (same_text_refl cs)

abbrev pub IsDigit : ℕ → Type 0
IsDigit c = (b'0' ≤ c) × (c ≤ b'9')

decimal_loop-IsDigit :
    (fuel n : ℕ) (acc : List ℕ)
    → n < 10 ^ suc fuel
    → All IsDigit acc
    → All IsDigit (decimal_loop (suc fuel) n acc)
unfolding decimal_loop
decimal_loop-IsDigit zero n acc h digits = elim (Bool-cases (ltb n 10)) [
  | inl last ↦ rw last ((omega arith, omega arith), digits)
  | inr more ↦ absurd (ground arith)
]
decimal_loop-IsDigit (suc fuel) n acc h digits = elim (Bool-cases (ltb n 10)) [
  | inl last ↦ rw last ((omega arith, ground arith), digits)
  | inr more ↦ rw more (
      decimal_loop-IsDigit fuel (n / 10) ((n % 10 + b'0') ∷ acc) (ground arith)
        ((omega arith, omega arith), digits))
]

-- What is printed of a uint64 is digits, one at least.
pub decimal-IsDigit : (n : ℕ) → n < 2 ^ 64 → All IsDigit (decimal n)
unfolding decimal
decimal-IsDigit n h = decimal_loop-IsDigit 19 n [] (omega arith) tt

pub decimal-ne-nil : (n : ℕ) → (c : ℕ) × (cs : List ℕ) × (decimal n ≡ c ∷ cs)
unfolding decimal
decimal-ne-nil n = decimal_loop_some 19 n []

fits_fewer : (o : Option ℕ) (n : ℕ) → fits_bits 64 o ≡ some n → n < 2 ^ 16 → fits_bits 16 o ≡ some n
fits_fewer none n e h = cc
fits_fewer (some m) n e h = ground arith

pub parse_uint_bits-decimal_16 : (n : ℕ) → n < 2 ^ 16 → parse_uint_bits 16 (decimal n) ≡ some n
unfolding parse_uint_bits
parse_uint_bits-decimal_16 n h =
    fits_fewer (parse_uint (decimal n)) n (parse_uint_bits-decimal n (omega arith)) h
