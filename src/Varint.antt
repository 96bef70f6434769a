-- ===== src/Varint.antt =====
-- netty/utils/binary.go: the length header in front of each protobuf frame, a uint32 in groups of
-- seven bits, lowest first, with the top bit set on every byte but the last.
pub mod Encode
pub mod Decode
pub mod RoundTrip
use vilan_peer.Base.{ℕ, zero, suc, ◌+◌, ◌*◌, ◌/◌, ◌%◌, ◌^◌, ◌<◌, bit_and, bit_or}
use vilan_peer.Base.{List, [], ◌∷◌, Option, none, some, ltb, ◌==◌, ◌&&◌, ◌||◌, if◌then◌else◌}
use vilan_peer.Base.{ℤ, pos, negsuc}

abbrev pub IsByte : ℕ → Type 0
IsByte b = b < 256

abbrev pub IsU32 : ℕ → Type 0
IsU32 x = x < 2 ^ 32

abbrev cons? : ℕ → Option (List ℕ) → Option (List ℕ)
cons? b none = none
cons? b (some bs) = some (b ∷ bs)

-- PutUvarint32 into a buffer with `room` bytes left: the bytes written, whose number is the result.
-- `none` is the panic of a write behind the end of the buffer.
unfoldable pub put_uvarint32 : ℕ → ℕ → Option (List ℕ)
put_uvarint32 zero x = none
put_uvarint32 (suc room) x =
    let more = cons? (bit_or (x % 256) 0x80) (put_uvarint32 room (x / 128)) in
    if ltb x 0x80 then some (x % 256 ∷ []) else more

-- uint32(b) << s
abbrev pub shl32 : ℕ → ℕ → ℕ
shl32 b s = b * 2 ^ s % 2 ^ 32

-- The loop of Uvarint32, at index `i`.
unfoldable pub uvarint32_loop : List ℕ → ℕ → ℕ → ℕ → ℕ × ℤ
uvarint32_loop [] i x s = (0, pos 0)
uvarint32_loop (b ∷ buf) i x s =
    let more = uvarint32_loop buf (i + 1) (bit_or x (shl32 (bit_and b 0x7f) s)) (s + 7) in
    if ltb b 0x80
    then if ltb 5 i || i == 5 && ltb 1 b then (0, negsuc i) else (bit_or x (shl32 b s), pos (i + 1))
    else more

unfoldable pub uvarint32 : List ℕ → ℕ × ℤ
uvarint32 buf = uvarint32_loop buf 0 0 0
