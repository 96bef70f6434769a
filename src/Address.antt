-- ===== src/Address.antt =====
-- common/utils.go: IPv4 addresses and MAC addresses as numbers and as text, and the classes of MAC
-- addresses. config/config_app.go, model/peer_info.go and model/route_info.go repeat the first two.
pub mod RoundTrip
pub mod Mask
use vilan_peer.Base.{ℕ, zero, suc, ◌+◌, ◌-◌, ◌*◌, ◌/◌, ◌%◌, ◌^◌, bit_and, bit_or}
use vilan_peer.Base.{List, [], ◌∷◌, ◌++◌, Option, none, some, ℤ, pos, negsuc}
use vilan_peer.Base.{Bool, not, ◌&&◌, ltb, ◌==◌, if◌then◌else◌}
use vilan_peer.Base.Text.{split, parse_int, decimal}

-- uint32(val) of a signed number.
abbrev pub to_u32 : ℤ → ℕ
to_u32 (pos n) = n % 2 ^ 32
to_u32 (negsuc n) = 2 ^ 32 - 1 - n % 2 ^ 32

-- One round of the loop of IpV4toUint32: `IP = (IP << 8) | uint32(val)`.
abbrev pub add_octet : ℕ → Option ℤ → Option ℕ
add_octet ip none = none
add_octet ip (some val) = some (bit_or (ip * 2 ^ 8 % 2 ^ 32) (to_u32 val))

infixl 5 ◌>>=◌
abbrev ◌>>=◌ : Option ℕ → (ℕ → Option ℕ) → Option ℕ
none >>= f = none
some a >>= f = f a

octets_value : List (List ℕ) → Option ℕ
octets_value (a ∷ b ∷ c ∷ d ∷ []) = do
  ip ← add_octet 0 (parse_int 16 a)
  ip' ← add_octet ip (parse_int 16 b)
  ip'' ← add_octet ip' (parse_int 16 c)
  add_octet ip'' (parse_int 16 d)
octets_value _ = none

-- IpV4toUint32, with `none` for its errors.
unfoldable pub ip_v4_to_uint32 : List ℕ → Option ℕ
unfolding octets_value
ip_v4_to_uint32 ip = octets_value (split b'.' ip)

-- Uint32toIpV4; `x & 0xFF` is `x % 256`.
unfoldable pub uint32_to_ip_v4 : ℕ → List ℕ
uint32_to_ip_v4 ip =
    decimal (ip / 2 ^ 24)
    ++ (b'.'
        ∷ (decimal (ip / 2 ^ 16 % 256)
            ++ (b'.' ∷ (decimal (ip / 2 ^ 8 % 256) ++ (b'.' ∷ decimal (ip % 256))))))

-- The loop of MaskBitLen: `rounds` is 32 - i, and `mask` the bit that is tested.
mask_bit_len_loop : ℕ → ℕ → ℕ → ℕ → ℕ
mask_bit_len_loop zero ip_mask i mask = 32
mask_bit_len_loop (suc rounds) ip_mask i mask =
    let more = mask_bit_len_loop rounds ip_mask (i + 1) (mask / 2) in
    if not (bit_and ip_mask mask == 0) then more else i

unfoldable pub mask_bit_len : ℕ → ℕ
unfolding mask_bit_len_loop
mask_bit_len ip_mask = mask_bit_len_loop 32 ip_mask 0 0x8000_0000

-- a - b in uint32.
abbrev pub sub32 : ℕ → ℕ → ℕ
sub32 a b = (a % 2 ^ 32 + 2 ^ 32 - b % 2 ^ 32) % 2 ^ 32

-- a << s in uint32: a shift by 32 or more gives 0.
abbrev pub shl32 : ℕ → ℕ → ℕ
shl32 a s = if ltb s 32 then a * 2 ^ s % 2 ^ 32 else 0

-- `uint32(0xFFFFFFFF) << (32 - bits)`, the mask of a prefix length, as the services compute it.
unfoldable pub prefix_mask : ℕ → ℕ
prefix_mask bits = shl32 0xffff_ffff (sub32 32 bits)

abbrev pub mac_broadcast : ℕ
mac_broadcast = 0xffff_ffff_ffff

abbrev pub mac_multicast : ℕ
mac_multicast = 0x01005e

abbrev pub is_broadcast_mac : ℕ → Bool
is_broadcast_mac mac = mac == mac_broadcast

abbrev pub is_multicast_mac : ℕ → Bool
is_multicast_mac mac = mac == mac_multicast

abbrev pub is_uni_cast : ℕ → Bool
is_uni_cast mac = not (mac == mac_broadcast) && not (mac == mac_multicast)

swap32 : ℕ → ℕ
swap32 x = x % 256 * 2 ^ 24 + x / 2 ^ 8 % 256 * 2 ^ 16 + x / 2 ^ 16 % 256 * 2 ^ 8 + x / 2 ^ 24

sock_of : Bool → Option ℕ → Option ℤ → Option (ℕ × ℕ)
unfolding swap32
sock_of little none port = none
sock_of little (some ip) none = none
sock_of little (some ip) (some p) = some (if little then ip else swap32 ip, to_u32 p)

addr_of_parts : Bool → List (List ℕ) → Option (ℕ × ℕ)
unfolding sock_of
addr_of_parts little (host ∷ port ∷ []) = sock_of little (ip_v4_to_uint32 host) (parse_int 32 port)
addr_of_parts little _ = none

-- ExtractAddrFromStr: address and port of "a.b.c.d:port". `little` is what IsLittleEndian answers.
unfoldable pub extract_addr_from_str : Bool → List ℕ → Option (ℕ × ℕ)
unfolding addr_of_parts
extract_addr_from_str little addr = addr_of_parts little (split b':' addr)
