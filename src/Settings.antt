-- ===== src/Settings.antt =====
-- config/config_app.go: the file that keeps the configuration. The library's JSON and base64 are
-- parameters, and so is the type `F` of what a file holds. The addresses in the file are texts; the fields HwMac and IpAddr are not written.
pub mod RoundTrip
use vilan_peer.Base.{
  ℕ, Bool, true, false, List, [], ◌∷◌, Option, none, some, String, ◌||◌, if◌then◌else◌, ltb, ◌^◌,
}
use vilan_peer.Base.Text.{decimal, parse_uint_bits}
use vilan_peer.Address.{ip_v4_to_uint32, uint32_to_ip_v4}
use vilan_peer.Model.Config.{AppConfig, PeerConfig, TapConfig, crypt_none, crypt_aes, auto_assign}

-- What json.Unmarshal makes of a file: the sections may be missing, and those of `fields` are not
-- read.
pub record Parsed : Type 0 where
  pub fields : AppConfig
  pub peer_config : Option PeerConfig
  pub tap_config : Option TapConfig

-- encoding/json, encoding/base64, os.Hostname, and whether WriteFile succeeds; `left_over` is what a
-- WriteFile that fails leaves of the file, which it may have truncated. Where json.Unmarshal fails, `partly` is what it has set of an empty configuration.
pub record Library (F : Type 0) : Type 0 where
  pub marshal : AppConfig → Option F
  pub unmarshal : F → Option Parsed
  pub partly : F → AppConfig
  pub encode64 : String → String
  pub decode64 : String → Option String
  pub hostname : Option String
  pub can_write : Bool
  pub left_over : F → Option F → Option F

abbrev pub empty : String → Bool
empty String.[] = true
empty (String.◌∷◌ c s) = false

-- The configuration of the program, `none` for nil, and the file, `none` where it cannot be read.
pub record Store (F : Type 0) : Type 0 where
  pub app_config : Option AppConfig
  pub file : Option F

-- The new texts of the addresses, which SaveAppConfig and SaveConfig leave in the configuration.
abbrev pub with_texts : AppConfig → AppConfig
with_texts c = record c {
  tap_config = record c.tap_config {
    hw_mac_str = decimal c.tap_config.hw_mac;
    ip_addr_str = uint32_to_ip_v4 c.tap_config.ip_addr;
  };
}

abbrev pub with_passwords : String → String → AppConfig → AppConfig
with_passwords peer group c = record c {
  peer_config = record c.peer_config { peer_pwd = peer; group_pwd = group };
}

abbrev pub host_name : Option String → String
host_name none = "vilan_peer"
host_name (some name) = if empty name then "vilan_peer" else name

abbrev default_tap : TapConfig
default_tap = record {
  name = "vilan";
  hw_mac = 0;
  hw_mac_str = [];
  ip_mode = auto_assign;
  ip_addr = 0;
  ip_addr_str = [];
  ip_mask = 0;
  dev_type = 1;
}

-- The section of the peer, and whether it was completed.
abbrev peer_section : String → Option PeerConfig → PeerConfig × Bool
peer_section host none = (
  record {
    group_name = "default_group";
    group_pwd = "";
    peer_pwd = "group_pwd";
    name = host;
    crypt_type = crypt_none;
  },
  true,
)
peer_section host (some p) = if empty p.name then (record p { name = host }, true) else (p, false)

abbrev set_mac : Option ℕ → TapConfig → TapConfig
set_mac none t = t
set_mac (some mac) t = record t { hw_mac = mac }

abbrev set_ip : Option ℕ → TapConfig → TapConfig
set_ip none t = t
set_ip (some ip) t = record t { ip_addr = ip }

-- The section of the network card, and whether it was completed.
abbrev tap_section : Option TapConfig → TapConfig × Bool
tap_section none = (default_tap, true)
tap_section (some t) =
    (set_ip (ip_v4_to_uint32 t.ip_addr_str) (set_mac (parse_uint_bits 64 t.hw_mac_str) t), false)

abbrev or_as_is : Option String → String → String
or_as_is none pwd = pwd
or_as_is (some text) pwd = text

module _ {F : Type 0} where
  -- The configuration as it is written: passwords in base64, addresses as texts.
  abbrev pub hidden : Library F → AppConfig → AppConfig
  hidden lib c =
      with_passwords (lib.encode64 c.peer_config.peer_pwd) (lib.encode64 c.peer_config.group_pwd)
        (with_texts c)

  abbrev write_file : Library F → Option F → Option F → Option F × Bool
  write_file lib none file = (file, false)
  write_file lib (some content) file =
      if lib.can_write then (some content, true) else (lib.left_over content file, false)

  -- SaveConfig: the configuration afterwards, the file, and whether the call has no error.
  unfoldable pub save_config : Library F → AppConfig → Option F → AppConfig × (Option F × Bool)
  save_config lib c file = (with_texts c, write_file lib (lib.marshal (hidden lib c)) file)

  -- SaveAppConfig, of the program's configuration. Nil panics.
  abbrev pub save_app_config : Library F → Store F → Option (Store F × Bool)
  save_app_config lib s = elim s.app_config [
    | none ↦ none
    | some c ↦
        let (c', (file, ok)) = save_config lib c s.file in
        some (record { app_config = some c'; file = file }, ok)
  ]

  abbrev shown : Library F → PeerConfig → PeerConfig
  shown lib p = record p {
    peer_pwd = or_as_is (lib.decode64 p.peer_pwd) p.peer_pwd;
    group_pwd = or_as_is (lib.decode64 p.group_pwd) p.group_pwd;
  }

  abbrev save_if : Bool → Library F → AppConfig → Option F → Store F
  save_if true lib c file =
      let (c', (file', ok)) = save_config lib c file in
      record { app_config = some c'; file = file' }
  save_if false lib c file = record { app_config = some c; file = file }

  abbrev load_parsed : Library F → Parsed → Option F → Store F
  load_parsed lib parsed file =
      let (p, new_peer) = peer_section (host_name lib.hostname) parsed.peer_config in
      let (t, new_tap) = tap_section parsed.tap_config in
      save_if (new_peer || new_tap) lib
        (record parsed.fields { peer_config = shown lib p; tap_config = t }) file

  -- The configuration that replaces a file that is no JSON. Its passwords are in base64 when it is saved,
  -- and so twice in base64 in the file.
  abbrev pub default_config : Library F → AppConfig → AppConfig
  default_config lib c = record c {
    server_ip = "192.168.1.100";
    server_port = 3000;
    heartbeat = 30;
    offline = 90;
    max_packet_size = 65535;
    packet_num = 128;
    p2p_try_count = 3;
    p2p_retry_interval = 3;
    allow_visit_port = false;
    enable_log = true;
    save_log = true;
    log_level = 2;
    peer_config = record {
      group_name = "default_group";
      group_pwd = lib.encode64 "12345678";
      peer_pwd = lib.encode64 "default_pwd";
      name = host_name lib.hostname;
      crypt_type = crypt_aes;
    };
    tap_config = default_tap;
  }

  abbrev load_default : Library F → AppConfig → Option F → Store F
  load_default lib c file =
      let (c', (file', ok)) = save_config lib (default_config lib c) file in
      record { app_config = some (with_passwords "default_pwd" "12345678" c'); file = file' }

  abbrev load_content : Library F → F → Option Parsed → Store F × Bool
  load_content lib content none = (load_default lib (lib.partly content) (some content), false)
  load_content lib content (some parsed) = (load_parsed lib parsed (some content), true)

  abbrev load_file : Library F → Store F → Option F → Store F × Bool
  load_file lib s none = (s, false)
  load_file lib s (some content) = load_content lib content (lib.unmarshal content)

  -- InitAppConfig, and whether it has no error.
  unfoldable pub init_app_config : Library F → Store F → Store F × Bool
  init_app_config lib s = load_file lib s s.file
