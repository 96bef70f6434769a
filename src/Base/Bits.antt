-- ===== src/Base/Bits.antt =====
-- Masks on one byte as tables checked by evaluation, and `|` of disjoint fields as a sum.
use Prim.Native.Nat.{ℕ, zero, suc, ◌+◌, ◌*◌, ◌/◌, ◌%◌, ◌^◌, ◌≤◌, ◌<◌, max, bit_and, bit_or}
use Prim.Native.Nat.{digits, bit_or-bitwise}
use mathlib.Core.Path.{◌≡◌, refl, ap}
use mathlib.Core.Bool.{Bool, true, ◌&&◌}
use native.Mathlib.Nat.{pow-suc}
use native.Mathlib.Omega.{arith}
use vilan_peer.Base.Tests.{◌==◌, ==→eq}

-- Whether a test holds of every number below a bound.
unfoldable pub holds_below : (ℕ → Bool) → ℕ → Bool
holds_below test zero = true
holds_below test (suc k) = holds_below test k && test k

pub holds_below_at : (test : ℕ → Bool) (b k : ℕ) → b < k → holds_below test k ≡ true → test b ≡ true
unfolding holds_below
holds_below_at test b zero lt e = absurd (omega arith)
holds_below_at test b (suc k) lt e = ground (arith, holds_below_at test b k)

low_bits_table : holds_below (λ b. bit_and b 0x7f == b % 128) 256 ≡ true
unfolding holds_below
low_bits_table = refl

pub low_bits : (b : ℕ) → b < 256 → bit_and b 0x7f ≡ b % 128
low_bits b h = ==→eq _ _ (holds_below_at _ b 256 h low_bits_table)

set_top_table : holds_below (λ b. bit_or b 0x80 == b % 128 + 128) 256 ≡ true
unfolding holds_below
set_top_table = refl

pub set_top_bit : (b : ℕ) → b < 256 → bit_or b 0x80 ≡ b % 128 + 128
set_top_bit b h = ==→eq _ _ (holds_below_at _ b 256 h set_top_table)

-- `|` reads binary digits on fuel; more fuel than the first operand changes nothing.
abbrev or_digits : ℕ → ℕ → ℕ → ℕ
or_digits fuel x y = digits (λ w. w) max fuel x y

or_digits_more :
    (x y fuel more : ℕ) → x ≤ fuel → fuel ≤ more → or_digits more x y ≡ or_digits fuel x y
or_digits_more zero y zero zero le up = refl
or_digits_more zero y zero (suc more) le up = refl
or_digits_more zero y (suc fuel) zero le up = absurd (omega arith)
or_digits_more zero y (suc fuel) (suc more) le up = refl
or_digits_more (suc x) y zero more le up = absurd (omega arith)
or_digits_more (suc x) y (suc fuel) zero le up = absurd (omega arith)
or_digits_more (suc x) y (suc fuel) (suc more) le up =
    omega (arith, or_digits_more (suc x / 2) (y / 2) fuel more (omega arith) (omega arith))

pub zero-bit_or : (b : ℕ) → bit_or 0 b ≡ b
zero-bit_or b = bit_or-bitwise 0 b

bit_or_step : (a b : ℕ) → bit_or a b ≡ bit_or (a / 2) (b / 2) * 2 + max (a % 2) (b % 2)
bit_or_step zero b = omega (arith, zero-bit_or b, zero-bit_or (b / 2))
bit_or_step (suc a) b = omega (
  arith,
  bit_or-bitwise (suc a) b,
  bit_or-bitwise (suc a / 2) (b / 2),
  or_digits_more (suc a / 2) (b / 2) (suc a / 2) a (omega arith) (omega arith),
)

shift_suc : (q k : ℕ) → q * 2 ^ suc k ≡ q * 2 ^ k * 2
shift_suc q k = omega (arith, ap (λ (t : ℕ). q * t) (pow-suc 2 k))

-- `x | (q << k)` is a sum when `x` fits `k` bits.
pub bit_or_shift : (k x q : ℕ) → x < 2 ^ k → bit_or x (q * 2 ^ k) ≡ x + q * 2 ^ k
bit_or_shift zero zero q h = omega (arith, zero-bit_or (q * 2 ^ 0))
bit_or_shift zero (suc x) q h = absurd (omega arith)
bit_or_shift (suc k) x q h = omega (
  arith,
  bit_or_step x (q * 2 ^ suc k),
  shift_suc q k,
  ap (λ (t : ℕ). bit_or (x / 2) t) half,
  bit_or_shift k (x / 2) q (omega (arith, pow-suc 2 k)),
)
  where
    half : q * 2 ^ suc k / 2 ≡ q * 2 ^ k
    half = omega (arith, shift_suc q k)

bit_or-zero_fuel : (n a : ℕ) → a ≤ n → bit_or a 0 ≡ a
bit_or-zero_fuel n zero h = zero-bit_or 0
bit_or-zero_fuel zero (suc a) h = absurd (omega arith)
bit_or-zero_fuel (suc n) (suc a) h =
    omega (arith, bit_or_step (suc a) 0, bit_or-zero_fuel n (suc a / 2) (omega arith))

-- `(q << k) | x` is a sum when `x` fits `k` bits.
pub shift_bit_or : (k q x : ℕ) → x < 2 ^ k → bit_or (q * 2 ^ k) x ≡ q * 2 ^ k + x
shift_bit_or zero q zero h = omega (arith, bit_or-zero_fuel (q * 2 ^ 0) (q * 2 ^ 0) (omega arith))
shift_bit_or zero q (suc x) h = absurd (omega arith)
shift_bit_or (suc k) q x h = omega (
  arith,
  bit_or_step (q * 2 ^ suc k) x,
  shift_suc q k,
  ap (λ (t : ℕ). bit_or t (x / 2)) half,
  shift_bit_or k q (x / 2) (omega (arith, pow-suc 2 k)),
)
  where
    half : q * 2 ^ suc k / 2 ≡ q * 2 ^ k
    half = omega (arith, shift_suc q k)
