-- ===== src/Varint/RoundTrip.antt =====
-- `Uvarint32` reads back what `PutUvarint32` wrote.
use vilan_peer.Base.{ℕ, zero, suc, ◌+◌, ◌*◌, ◌/◌, ◌%◌, ◌^◌, ◌≤◌, ◌<◌, ◌≡◌, ap, arith}
use vilan_peer.Base.{List, [], ◌∷◌, ◌++◌, some, length, All, ltb, bit_or, pos}
use vilan_peer.Base.Bits.{low_bits, bit_or_shift}
use vilan_peer.Varint.{IsU32, shl32, put_uvarint32, uvarint32_loop, uvarint32}
use vilan_peer.Varint.Encode.{groups, groups_bytes, put_uvarint32-groups}
use vilan_peer.Varint.Decode.{IsOpen, uvarint32_loop_open}
use vilan_peer.Base.{Bool-cases, inl, inr, length-append}
use native.Mathlib.Numerals.{towards_suc}

append-ne-nil : (front : List ℕ) (y : ℕ) (back : List ℕ) → ¬ ([] ≡ front ++ (y ∷ back))
append-ne-nil [] y back e = cc
append-ne-nil (a ∷ front) y back e = cc

shift_seven : (s : ℕ) → 2 ^ (s + 7) ≡ 128 * 2 ^ s
shift_seven s = simp towards_suc (omega arith)

-- The lowest group of `w` and the others, at bit `s`.
split_low : (w s : ℕ) → w % 128 * 2 ^ s + w / 128 * 2 ^ (s + 7) ≡ w * 2 ^ s
split_low w s = omega (arith, low_and_high, raised)
  where
    low_and_high : (w / 128 * 128 + w % 128) * 2 ^ s ≡ w * 2 ^ s
    low_and_high = ap (λ (t : ℕ). t * 2 ^ s) (omega arith)

    raised : w / 128 * 2 ^ (s + 7) ≡ w / 128 * (128 * 2 ^ s)
    raised = ap (λ (t : ℕ). w / 128 * t) (shift_seven s)

or_group : (x g s : ℕ) → x < 2 ^ s → x + g * 2 ^ s < 2 ^ 32 → bit_or x (shl32 g s) ≡ x + g * 2 ^ s
or_group x g s h fits = ground (arith, bit_or_shift s x g)

group_fits : (x w s : ℕ) → x < 2 ^ s → x + w % 128 * 2 ^ s < 2 ^ (s + 7)
group_fits x w s h = omega (arith, shift_seven s, scaled)
  where
    scaled : w % 128 * 2 ^ s ≤ 127 * 2 ^ s
    scaled = grind arith

uvarint32_loop-groups :
    (k i w x s : ℕ) (rest : List ℕ)
    → w < 128 ^ suc k
    → i + k ≤ 4
    → x < 2 ^ s
    → x + w * 2 ^ s < 2 ^ 32
    → uvarint32_loop (groups k w ++ rest) i x s ≡ (x + w * 2 ^ s, pos (i + length (groups k w)))
unfolding groups uvarint32_loop
uvarint32_loop-groups zero i w x s rest hw hi hx fits = ground (arith, or_group x w s)
uvarint32_loop-groups (suc k) i w x s rest hw hi hx fits = ground (
  arith,
  or_group x w s,
  or_group x (w % 128) s,
  low_bits (w % 128 + 128),
  split_low w s,
  group_fits x w s,
  uvarint32_loop-groups k (i + 1) (w / 128) (x + w % 128 * 2 ^ s) (s + 7) rest,
)

-- A uint32 that PutUvarint32 wrote is read back by Uvarint32, with the header's length, whatever
-- bytes follow it.
pub uvarint32-put_uvarint32 :
    (x : ℕ) (bs rest : List ℕ)
    → IsU32 x
    → put_uvarint32 5 x ≡ some bs
    → uvarint32 (bs ++ rest) ≡ (x, pos (length bs))
unfolding uvarint32
uvarint32-put_uvarint32 x bs rest h e =
    ground (arith, put_uvarint32-groups 4 x, uvarint32_loop-groups 4 0 x 0 0 rest)

groups-IsOpen :
    (k w : ℕ) (front : List ℕ) (y : ℕ) (back : List ℕ)
    → groups k w ≡ front ++ (y ∷ back)
    → All IsOpen front
unfolding groups
groups-IsOpen k w [] y back e = tt
groups-IsOpen zero w (a ∷ front) y back e = absurd (append-ne-nil front y back (cc))
groups-IsOpen (suc k) w (a ∷ front) y back e = elim (Bool-cases (ltb w 128)) [
  | inl last ↦ absurd (append-ne-nil front y back (ground arith))
  | inr more ↦ (ground arith, groups-IsOpen k (w / 128) front y back (ground arith))
]

-- Of every proper prefix of a header Uvarint32 says that the buffer is too small.
pub uvarint32_truncated :
    (x : ℕ) (front : List ℕ) (y : ℕ) (back : List ℕ)
    → IsU32 x
    → put_uvarint32 5 x ≡ some (front ++ (y ∷ back))
    → (uvarint32 front ≡ (0, pos 0)) × (length front < 5)
unfolding uvarint32
uvarint32_truncated x front y back h e = (
  uvarint32_loop_open front 0 0 0
      (groups-IsOpen 4 x front y back (ground (arith, put_uvarint32-groups 4 x))),
  ground (arith, put_uvarint32-groups 4 x, groups_bytes 4 x, length-append front (y ∷ back)),
)
