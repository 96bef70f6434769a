-- ===== src/App.antt =====
-- wails-app.go: what the window of the program asks for. What the window shows, the texts of the
-- answers and the tray icon are outside.
pub mod PeerList
pub mod Sorting
pub mod History
pub mod Saving
pub mod Unchanged
pub mod Life
use vilan_peer.Base.{
  ℕ, zero, suc, ◌+◌, ◌*◌, ◌/◌, ◌%◌, ◌^◌, Bool, true, false, List, [], ◌∷◌, ◌++◌, Option, none, some,
  String,
}
use vilan_peer.Base.{length, take, ◌==◌, ltb, leb, not, ◌&&◌, ◌||◌, if◌then◌else◌}
use vilan_peer.Base.Text.{codes, same_text}
use vilan_peer.Address.{ip_v4_to_uint32, uint32_to_ip_v4, prefix_mask, mask_bit_len}
use vilan_peer.Model.Config.{
  AppConfig, PeerConfig, TapConfig, CryptType, crypt_none, crypt_aes, crypt_des, crypt_rsa,
}
use vilan_peer.Model.Config.{IpMode, auto_assign, static, other, copy_app_config_to}
use vilan_peer.Runtime.State.{Host, World, Reply}
use vilan_peer.Runtime.Life.{restart}
use vilan_peer.Settings.{Library}
use vilan_peer.Settings

-- model.Config, the configuration as the window shows it, without TabName.
pub record Config : Type 0 where
  pub server_ip : String
  pub server_port : ℕ
  pub peer_name : String
  pub group_name : String
  pub group_pwd : String
  pub crypt_type : CryptType
  pub peer_pwd : String
  pub hw_mac : List ℕ
  pub ip_mode : ℕ
  pub ip_addr : List ℕ
  pub ip_mask : List ℕ
  pub enable_log : Bool
  pub log_level : ℕ

-- What the window's calls work on: the services, the file of the configuration, and what the logger
-- was told.
pub record AppState (F : Type 0) : Type 0 where
  pub world : World
  pub file : Option F
  pub log_enabled : Bool
  pub log_level : ℕ

abbrev pub hex_digit : ℕ → ℕ
hex_digit n = if ltb n 10 then n + b'0' else n + 55

abbrev pub hex_byte : ℕ → List ℕ
hex_byte b = hex_digit (b / 16) ∷ hex_digit (b % 16) ∷ []

abbrev joined_by : ℕ → List (List ℕ) → List ℕ
joined_by sep [] = []
joined_by sep (p ∷ []) = p
joined_by sep (p ∷ q ∷ ps) = p ++ (sep ∷ joined_by sep (q ∷ ps))

-- The first `n` bytes of binary.LittleEndian.PutUint64, and Uint64 of such bytes.
abbrev pub little_endian : ℕ → ℕ → List ℕ
little_endian zero x = []
little_endian (suc n) x = x % 256 ∷ little_endian n (x / 256)

abbrev pub from_little_endian : List ℕ → ℕ
from_little_endian [] = 0
from_little_endian (b ∷ bs) = b + 256 * from_little_endian bs

abbrev each {ℓ κ} : {A : Type ℓ} {B : Type κ} → (A → B) → List A → List B
each f [] = []
each f (x ∷ xs) = f x ∷ each f xs

-- `%02X` of each byte, with colons between them.
abbrev pub hex_bytes : List ℕ → List ℕ
hex_bytes bs = joined_by b':' (each hex_byte bs)

-- Uint64ToMacStr
unfoldable pub uint64_to_mac_str : ℕ → List ℕ
uint64_to_mac_str mac = hex_bytes (little_endian 6 mac)

-- fmt.Sscanf with "%x:%x:%x:%x:%x:%x": the six bytes, or `none` where it does not find them.
pub record Scanner : Type 0 where
  pub scan : List ℕ → Option (List ℕ)

abbrev mac_of : Option (List ℕ) → Option ℕ
mac_of none = none
mac_of (some bs) = some (from_little_endian bs)

-- MacStrToUint64
unfoldable pub mac_str_to_uint64 : Scanner → List ℕ → Option ℕ
mac_str_to_uint64 fmt text = mac_of (fmt.scan text)

-- The number of an IpMode.
abbrev pub mode_number : IpMode → ℕ
mode_number auto_assign = 1
mode_number static = 2
mode_number (other n) = n

-- GetConfig
unfoldable pub get_config : World → Config
get_config w =
    let c = w.app_config in
    record {
      server_ip = c.server_ip;
      server_port = c.server_port;
      peer_name = c.peer_config.name;
      group_name = c.peer_config.group_name;
      group_pwd = c.peer_config.group_pwd;
      crypt_type = c.peer_config.crypt_type;
      peer_pwd = c.peer_config.peer_pwd;
      hw_mac = uint64_to_mac_str c.tap_config.hw_mac;
      ip_mode = mode_number c.tap_config.ip_mode;
      ip_addr = uint32_to_ip_v4 c.tap_config.ip_addr;
      ip_mask = uint32_to_ip_v4 (prefix_mask c.tap_config.ip_mask);
      enable_log = c.enable_log;
      log_level = c.log_level;
    }

-- What SaveConfig tells the window.
pub data Told : Type 0 where
  no_config no_peer_name no_group_name no_peer_pwd bad_server_ip bad_ip bad_mask bad_mac : Told
  not_saved saved : Told

abbrev pub same_string : String → String → Bool
same_string s t = same_text (codes s) (codes t)

abbrev pub crypt_number : CryptType → ℕ
crypt_number crypt_none = 0
crypt_number crypt_aes = 1
crypt_number crypt_des = 2
crypt_number crypt_rsa = 3
crypt_number (other n) = n

abbrev pub is_none : CryptType → Bool
is_none crypt_none = true
is_none _ = false

abbrev pub is_some : Option ℕ → Bool
is_some none = false
is_some (some n) = true

abbrev pub or_zero : Option ℕ → ℕ
or_zero none = 0
or_zero (some n) = n

abbrev pub mode_of : ℕ → IpMode
mode_of n = if n == 2 then static else auto_assign

abbrev pub is_auto : IpMode → Bool
is_auto auto_assign = true
is_auto _ = false

-- Whether the services must start again with the new configuration.
unfoldable pub need_restart : AppConfig → AppConfig → Bool
need_restart old c =
    not (old.tap_config.hw_mac == c.tap_config.hw_mac)
    || (not (crypt_number old.peer_config.crypt_type == crypt_number c.peer_config.crypt_type)
        || (not (is_none old.peer_config.crypt_type)
              && not (same_string old.peer_config.peer_pwd c.peer_config.peer_pwd)
            || (not (mode_number old.tap_config.ip_mode == mode_number c.tap_config.ip_mode)
                || ((not (old.tap_config.ip_addr == c.tap_config.ip_addr)
                        || not (old.tap_config.ip_mask == c.tap_config.ip_mask))
                      && not (is_auto c.tap_config.ip_mode)
                    || (not (same_string old.server_ip c.server_ip)
                        || (not (old.server_port == c.server_port)
                            || (not
                                  (same_string old.peer_config.group_name c.peer_config.group_name)
                                || not (
                                    same_string old.peer_config.group_pwd
                                      c.peer_config.group_pwd))))))))

-- config.NewConfig
abbrev pub new_config : AppConfig
new_config = record {
  server_ip = "";
  server_port = 0;
  heartbeat = 0;
  offline = 0;
  max_packet_size = 0;
  packet_num = 0;
  p2p_try_count = 0;
  p2p_retry_interval = 0;
  allow_visit_port = false;
  enable_log = false;
  save_log = false;
  log_level = 0;
  peer_config = record {
    group_name = "";
    group_pwd = "";
    peer_pwd = "";
    name = "";
    crypt_type = crypt_none;
  };
  tap_config = record {
    name = "";
    hw_mac = 0;
    hw_mac_str = [];
    ip_mode = other 0;
    ip_addr = 0;
    ip_addr_str = [];
    ip_mask = 0;
    dev_type = 0;
  };
}

-- The copy of the program's configuration with the window's values.
abbrev pub changed : Config → ℕ → AppConfig → AppConfig
changed conf mac c = record c {
  server_ip = conf.server_ip;
  server_port = conf.server_port;
  enable_log = conf.enable_log;
  log_level = conf.log_level;
  peer_config = record {
    group_name = conf.group_name;
    group_pwd = conf.group_pwd;
    peer_pwd = conf.peer_pwd;
    name = conf.peer_name;
    crypt_type = conf.crypt_type;
  };
  tap_config = record c.tap_config {
    hw_mac = mac;
    ip_mode = mode_of conf.ip_mode;
    ip_addr = or_zero (ip_v4_to_uint32 conf.ip_addr);
    ip_mask = mask_bit_len (or_zero (ip_v4_to_uint32 conf.ip_mask));
  };
}

abbrev restart_if : Bool → Host → World → World
restart_if true host w = (restart host w).0
restart_if false host w = w

-- The first of the tests on the window's values that fails, up to that of the MAC address.
abbrev pub objection : Config → Option Told
objection conf =
    if Settings.empty conf.peer_name
    then some no_peer_name
    else if Settings.empty conf.group_name
    then some no_group_name
    else if not (is_none conf.crypt_type) && Settings.empty conf.peer_pwd
    then some no_peer_pwd
    else if not (is_some (ip_v4_to_uint32 (codes conf.server_ip)))
    then some bad_server_ip
    else if not (is_some (ip_v4_to_uint32 conf.ip_addr)) && not (is_auto (mode_of conf.ip_mode))
    then some bad_ip
    else if not (is_some (ip_v4_to_uint32 conf.ip_mask)) && not (is_auto (mode_of conf.ip_mode))
    then some bad_mask
    else none

module _ {F : Type 0} where
  abbrev pub taken_over : Host → AppConfig → Option F → AppState F → AppState F
  taken_over host c file s = record {
    world = restart_if (need_restart s.world.app_config c) host (record s.world { app_config = c });
    file = file;
    log_enabled = c.enable_log;
    log_level = c.log_level;
  }

  abbrev pub after_save : Host → AppConfig × (Option F × Bool) → AppState F → AppState F × Told
  after_save host (c, (file, true)) s = (taken_over host c file s, saved)
  after_save host (c, (file, false)) s = (record s { file = file }, not_saved)

  module _ (host : Host) (lib : Library F) (fmt : Scanner) where
    abbrev pub save_with : Config → Option ℕ → AppState F → AppState F × Told
    save_with conf none s = (s, bad_mac)
    save_with conf (some mac) s =
        after_save host
          (Settings.save_config lib
            (changed conf mac (copy_app_config_to s.world.app_config new_config)) s.file)
          s

    abbrev pub save_unless : Option Told → Config → AppState F → AppState F × Told
    save_unless (some told) conf s = (s, told)
    save_unless none conf s = save_with conf (mac_str_to_uint64 fmt conf.hw_mac) s

    -- SaveConfig
    unfoldable pub save_config : Option Config → AppState F → AppState F × Told
    save_config none s = (s, no_config)
    save_config (some conf) s = save_unless (objection conf) conf s
