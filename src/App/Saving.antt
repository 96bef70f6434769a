-- ===== src/App/Saving.antt =====
-- What SaveConfig does with the configuration of the window.
use vilan_peer.Base.{ℕ, zero, suc, ◌/◌, ◌^◌, ◌<◌, ◌≡◌, refl, ap, arith, All}
use vilan_peer.Base.{Bool, true, false, List, Option, none, some, length}
use native.Mathlib.Nat.{pow-suc}
use vilan_peer.Varint.{IsByte}
use vilan_peer.Model.Config.{AppConfig}
use vilan_peer.Runtime.State.{Host}
use vilan_peer.Settings.{Library}
use vilan_peer.App.{
  Config, AppState, Scanner, Told, saved, not_saved, save_config, hex_bytes, little_endian,
  from_little_endian, objection, save_unless, save_with, after_save, uint64_to_mac_str,
  mac_str_to_uint64,
}

abbrev pub is_saved : Told → Bool
is_saved saved = true
is_saved _ = false

-- What an answer without success leaves: the old state, or where the configuration could not be saved
-- the old state but for the file, which is as it is in `t`.
abbrev pub left_by : {F : Type 0} → Told → AppState F → AppState F → AppState F
left_by not_saved s t = record s { file = t.file }
left_by _ s t = s

module _ {F : Type 0} (host : Host) (lib : Library F) (fmt : Scanner) (s : AppState F) where
  abbrev Refused : AppState F × Told → Type 0
  Refused (t, told) = is_saved told ≡ false → t ≡ left_by told s t

  after_save-Refused : (r : AppConfig × (Option F × Bool)) → Refused (after_save host r s)
  after_save-Refused (c, (file, true)) h = cc
  after_save-Refused (c, (file, false)) h = refl

  save_with-Refused : (conf : Config) (mac : Option ℕ) → Refused (save_with host lib fmt conf mac s)
  save_with-Refused conf none h = refl
  save_with-Refused conf (some mac) h = after_save-Refused _ h

  left_by-same : (told : Told) → s ≡ left_by told s s
  left_by-same not_saved = refl
  left_by-same _ = refl

  save_unless-Refused :
      (told : Option Told) (conf : Config) → Refused (save_unless host lib fmt told conf s)
  save_unless-Refused (some told) conf h = left_by-same told
  save_unless-Refused none conf h = save_with-Refused conf (mac_str_to_uint64 fmt conf.hw_mac) h

-- Where SaveConfig answers anything but success, the configuration and the logger are as they were, and
-- no service was restarted. Unless the answer is that it could not be saved, the file is as it was too.
pub save_config_rejected :
    {F : Type 0} (host : Host) (lib : Library F) (fmt : Scanner) (conf : Option Config)
    (s : AppState F)
    → is_saved (save_config host lib fmt conf s).1 ≡ false
    → let (t, told) = save_config host lib fmt conf s in t ≡ left_by told s t
unfolding save_config
save_config_rejected host lib fmt none s h = refl
save_config_rejected host lib fmt (some conf) s h =
    save_unless-Refused host lib fmt s (objection conf) conf h

from_little_endian-little_endian :
    (n x : ℕ) → x < 256 ^ n → from_little_endian (little_endian n x) ≡ x
from_little_endian-little_endian zero x h = omega arith
from_little_endian-little_endian (suc n) x h =
    omega (arith, from_little_endian-little_endian n (x / 256) (omega (arith, pow-suc 256 n)))

little_endian_bytes : (n x : ℕ) → All IsByte (little_endian n x)
little_endian_bytes zero x = tt
little_endian_bytes (suc n) x = (omega arith, little_endian_bytes n (x / 256))

length-little_endian : (n x : ℕ) → length (little_endian n x) ≡ n
length-little_endian zero x = refl
length-little_endian (suc n) x = ap suc (length-little_endian n (x / 256))

-- What Sscanf promises: six bytes that were printed in this way are read back.
pub record IsScanner (fmt : Scanner) : Type 0 where
  pub scans : (bs : List ℕ) → length bs ≡ 6 → All IsByte bs → fmt.scan (hex_bytes bs) ≡ some bs

-- A MAC address of 48 bits that Uint64ToMacStr printed is read back by MacStrToUint64.
pub mac_str_to_uint64-uint64_to_mac_str :
    (fmt : Scanner) (mac : ℕ)
    → IsScanner fmt
    → mac < 2 ^ 48
    → mac_str_to_uint64 fmt (uint64_to_mac_str mac) ≡ some mac
unfolding mac_str_to_uint64 uint64_to_mac_str
mac_str_to_uint64-uint64_to_mac_str fmt mac laws h =
    rw (laws.scans (little_endian 6 mac) (length-little_endian 6 mac) (little_endian_bytes 6 mac))
      (ap some (from_little_endian-little_endian 6 mac (omega arith)))
