-- ===== src/Runtime/Link.antt =====
-- What the service finds out of its own connection: updateLocalIp, updateLinkInfo and
-- getWiFiQuality.
pub mod Quality
use vilan_peer.Base.{ℕ, zero, suc, ◌+◌, ◌-◌, ◌/◌, ◌*◌, ◌%◌, ◌^◌, List, [], ◌∷◌, Option, none, some}
use vilan_peer.Base.{◌==◌, if◌then◌else◌, ltb, ℤ, pos, negsuc}
use vilan_peer.Base.Text.{split, same_text}
use vilan_peer.Address.{ip_v4_to_uint32, to_u32}
use vilan_peer.Model.Wire.{IpNet}
use vilan_peer.Runtime.State.{
  Runtime, Host, Interface, Station, unlisted, station_error, no_station,
}
use vilan_peer.Runtime.State.{signal}

abbrev located : List ℕ → Option ℕ → ℕ → Runtime → Runtime
located ip none bits r = r
located ip (some addr) bits r = record r {
  local_ip = some (record { net_addr = addr; net_bit_len = if bits == 32 then 24 else bits });
}

abbrev found_net : List ℕ → Option (List ℕ × ℕ) → Runtime → Runtime
found_net ip none r = r
found_net ip (some (addr, bits)) r = located ip (ip_v4_to_uint32 addr) bits r

-- updateLocalIp. `bits` is the second result of Mask.Size, the length of the whole mask.
unfoldable pub update_local_ip : Host → List ℕ → Runtime → Runtime
update_local_ip host ip r = found_net ip (host.local_net ip) (record r { local_ip_str = ip })

abbrev head_or_nil : List (List ℕ) → List ℕ
head_or_nil [] = []
head_or_nil (p ∷ ps) = p

-- strings.Split(s, sep)[0]
abbrev pub first_part : ℕ → List ℕ → List ℕ
first_part sep s = head_or_nil (split sep s)

-- Go's `int` division of `x + 120` by 90, towards 0, times 100.
abbrev percent : ℤ → ℤ
percent (pos a) = pos ((a + 120) / 90 * 100)
percent (negsuc n) = if ltb n 120 then pos ((119 - n) / 90 * 100) else below ((n - 119) / 90 * 100)
  where
    below : ℕ → ℤ
    below zero = pos 0
    below (suc k) = negsuc k

-- The quality that getWiFiQuality computes of a signal: a uint32, at most 100.
unfoldable pub signal_quality : ℤ → ℕ
signal_quality s = if ltb 100 (to_u32 (percent s)) then 100 else to_u32 (percent s)

abbrev wifi_quality : Station → Option ℕ
wifi_quality unlisted = some 101
wifi_quality station_error = some 88
wifi_quality no_station = none
wifi_quality (signal s) = some (signal_quality s)

-- The first address of an interface that is `ip` and whose interface has a type.
abbrev typed : Option ℕ → Interface → Option (ℕ × Interface) → Option (ℕ × Interface)
typed none face rest = rest
typed (some mode) face rest = some (mode, face)

search_addrs : List ℕ → Interface → List (List ℕ) → Option (ℕ × Interface)
search_addrs ip face [] = none
search_addrs ip face (a ∷ more) =
    let rest = search_addrs ip face more in
    if same_text (first_part b'/' a) ip then typed face.if_type face rest else rest

abbrev or_else : Option (ℕ × Interface) → Option (ℕ × Interface) → Option (ℕ × Interface)
or_else none rest = rest
or_else (some found) rest = some found

abbrev search_face : List ℕ → Interface → Option (List (List ℕ)) → Option (ℕ × Interface)
search_face ip face none = none
search_face ip face (some addrs) = search_addrs ip face addrs

search_interfaces : List ℕ → List Interface → Option (ℕ × Interface)
search_interfaces ip [] = none
search_interfaces ip (face ∷ faces) =
    or_else (search_face ip face face.addrs) (search_interfaces ip faces)

abbrev set_quality : Option ℕ → Runtime → Runtime
set_quality none r = r
set_quality (some q) r = record r { link_quality = q }

-- The quality for a mode: 0 unknown, 1 wired, 2 Wi-Fi, 3 mobile. A panic of getWiFiQuality leaves it.
abbrev with_mode : ℕ → Station → Runtime → Runtime
with_mode mode station r =
    let r' = record r { link_mode = mode } in
    if mode == 2
    then set_quality (wifi_quality station) r'
    else if ltb mode 4
    then record r' { link_quality = 101 }
    else r'

abbrev with_found : Option (ℕ × Interface) → Runtime → Runtime
with_found none r = with_mode 0 unlisted r
with_found (some (mode, face)) r = with_mode mode face.station r

abbrev all_faces : Option (List Interface) → List Interface
all_faces none = []
all_faces (some faces) = faces

-- updateLinkInfo
unfoldable pub update_link_info : Host → List ℕ → Runtime → Runtime
unfolding search_interfaces search_addrs
update_link_info host ip r = with_found (search_interfaces ip (all_faces host.interfaces)) r
