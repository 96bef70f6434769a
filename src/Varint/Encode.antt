-- ===== src/Varint/Encode.antt =====
-- What PutUvarint32 writes, in plain arithmetic.
use vilan_peer.Base.{ℕ, zero, suc, ◌+◌, ◌/◌, ◌%◌, ◌^◌, ◌≤◌, ◌<◌, ◌≡◌, arith}
use vilan_peer.Base.{List, [], ◌∷◌, some, length, All, ltb, if◌then◌else◌}
use vilan_peer.Base.{bit_or}
use vilan_peer.Base.Bits.{set_top_bit}
use vilan_peer.Varint.{IsByte, IsU32, put_uvarint32}

-- The groups of `x`, for `x` below 128 ^ (k + 1).
unfoldable pub groups : ℕ → ℕ → List ℕ
groups zero x = x ∷ []
groups (suc k) x =
    let rest = groups k (x / 128) in if ltb x 128 then x ∷ [] else (x % 128 + 128) ∷ rest

inner_group : (x : ℕ) → bit_or (x % 256) 0x80 ≡ x % 128 + 128
inner_group x = omega (arith, set_top_bit (x % 256) (omega arith))

pub put_uvarint32-groups : (k x : ℕ) → x < 128 ^ suc k → put_uvarint32 (suc k) x ≡ some (groups k x)
unfolding put_uvarint32 groups
put_uvarint32-groups zero x h = ground arith
put_uvarint32-groups (suc k) x h = ground (arith, inner_group x, put_uvarint32-groups k (x / 128))

pub groups_bytes :
    (k x : ℕ)
    → x < 128 ^ suc k
    → All IsByte (groups k x) × (1 ≤ length (groups k x)) × (length (groups k x) ≤ k + 1)
unfolding groups
groups_bytes zero x h = omega arith
groups_bytes (suc k) x h = ground (arith, groups_bytes k (x / 128))

-- Every uint32 fits the five bytes of `[binary.MaxVarintLen32]byte`: PutUvarint32 does not panic,
-- and writes one to five bytes.
pub put_uvarint32_total :
    (x : ℕ)
    → IsU32 x
    → (bs : List ℕ) × (put_uvarint32 5 x ≡ some bs)
      × All IsByte bs
      × (1 ≤ length bs)
      × (length bs ≤ 5)
put_uvarint32_total x h =
    let (bytes, lo, hi) = groups_bytes 4 x (omega arith) in
    (groups 4 x, put_uvarint32-groups 4 x (omega arith), bytes, lo, hi)
