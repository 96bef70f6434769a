-- ===== src/Varint/Decode.antt =====
-- `Uvarint32` on any input.
use vilan_peer.Base.{ℕ, suc, ◌+◌, ◌*◌, ◌%◌, ◌^◌, ◌≤◌, ◌<◌, ◌≡◌, refl, arith}
use vilan_peer.Base.{List, [], ◌∷◌, ◌++◌, length, All, bit_and, bit_or, pos}
use vilan_peer.Varint.{shl32, uvarint32_loop, uvarint32}

-- A header that is not complete has the top bit set on all its bytes.
abbrev pub IsOpen : ℕ → Type 0
IsOpen b = 128 ≤ b

pub uvarint32_loop_open :
    (buf : List ℕ) (i x s : ℕ) → All IsOpen buf → uvarint32_loop buf i x s ≡ (0, pos 0)
unfolding uvarint32_loop
uvarint32_loop_open [] i x s h = refl
uvarint32_loop_open (b ∷ buf) i x s h =
    ground
      (arith, uvarint32_loop_open buf (i + 1) (bit_or x (shl32 (bit_and b 0x7f) s)) (s + 7) h.1)

-- The answer is a header's value and its length, and more input does not change it.
uvarint32_loop-append :
    (buf more : List ℕ) (i x s v n : ℕ)
    → uvarint32_loop buf i x s ≡ (v, pos (suc n))
    → (uvarint32_loop (buf ++ more) i x s ≡ (v, pos (suc n))) × (i ≤ n) × (suc n ≤ i + length buf)
unfolding uvarint32_loop
uvarint32_loop-append [] more i x s v n e = ground arith
uvarint32_loop-append (b ∷ buf) more i x s v n e = ground (
  arith,
  uvarint32_loop-append buf more (i + 1) (bit_or x (shl32 (bit_and b 0x7f) s)) (s + 7) v n,
)

-- A decoded header lies within the buffer, and bytes behind the buffer do not change it.
pub uvarint32-append :
    (buf more : List ℕ) (v n : ℕ)
    → uvarint32 buf ≡ (v, pos (suc n))
    → (uvarint32 (buf ++ more) ≡ (v, pos (suc n))) × (suc n ≤ length buf)
unfolding uvarint32
uvarint32-append buf more v n e =
    let (same, _, fits) = uvarint32_loop-append buf more 0 0 0 v n e in (same, omega (arith, fits))

-- The number that five groups stand for when nothing is cut off.
abbrev pub wide_value : ℕ → ℕ → ℕ → ℕ → ℕ → ℕ
wide_value b0 b1 b2 b3 b4 =
    b0 % 128 + b1 % 128 * 2 ^ 7 + b2 % 128 * 2 ^ 14 + b3 % 128 * 2 ^ 21 + b4 * 2 ^ 28

-- The documentation promises a negative length for a value that does not fit 32 bits. For every
-- header of five bytes whose value is 2 ^ 32 or more, the length is 5 and no overflow is reported.
pub uvarint32_misses_overflow :
    (b0 b1 b2 b3 b4 : ℕ) (rest : List ℕ)
    → All IsOpen (b0 ∷ b1 ∷ b2 ∷ b3 ∷ [])
    → b4 < 128
    → 2 ^ 32 ≤ wide_value b0 b1 b2 b3 b4
    → (uvarint32 (b0 ∷ b1 ∷ b2 ∷ b3 ∷ b4 ∷ rest)).1 ≡ pos 5
unfolding uvarint32 uvarint32_loop
uvarint32_misses_overflow b0 b1 b2 b3 b4 rest open_bytes last wide = ground arith
