-- ===== src/Model/Config.antt =====
-- model/config.go, model/tuntap_info.go, model/base.go and config.CopyAppConfigTo. Both sections of
-- the configuration are there: config.InitAppConfig makes them before any service is created.
use vilan_peer.Base.{ℕ, Bool, String, List, []}

-- PeerState, in the order of its numbers: a state is compared by `number`.
pub data PeerState : Type 0 where
  un_init init_error init_ok un_conn conn_ok un_ack auth_fail ok : PeerState

abbrev pub number : PeerState → ℕ
number un_init = 0
number init_error = 1
number init_ok = 2
number un_conn = 3
number conn_ok = 4
number un_ack = 5
number auth_fail = 6
number ok = 7

-- CryptType; `other` holds a number that has no name.
pub data CryptType : Type 0 where
  crypt_none crypt_aes crypt_des crypt_rsa : CryptType
  other : ℕ → CryptType

-- IpMode; `other` holds a number that has no name.
pub data IpMode : Type 0 where
  auto_assign static : IpMode
  other : ℕ → IpMode

-- TunTapState
pub data TunTapState : Type 0 where
  un_init init_failed init_ok running stop : TunTapState

pub record PeerConfig : Type 0 where
  pub group_name : String
  pub group_pwd : String
  pub peer_pwd : String
  pub name : String
  pub crypt_type : CryptType

pub record TapConfig : Type 0 where
  pub name : String
  pub hw_mac : ℕ
  pub hw_mac_str : List ℕ
  pub ip_mode : IpMode
  pub ip_addr : ℕ
  pub ip_addr_str : List ℕ
  pub ip_mask : ℕ
  pub dev_type : ℕ

pub record AppConfig : Type 0 where
  pub server_ip : String
  pub server_port : ℕ
  pub heartbeat : ℕ
  pub offline : ℕ
  pub max_packet_size : ℕ
  pub packet_num : ℕ
  pub p2p_try_count : ℕ
  pub p2p_retry_interval : ℕ
  pub allow_visit_port : Bool
  pub enable_log : Bool
  pub save_log : Bool
  pub log_level : ℕ
  pub peer_config : PeerConfig
  pub tap_config : TapConfig

-- config.CopyAppConfigTo: every field of `conf` is replaced by that of the program's configuration,
-- IpAddrStr by the empty text.
unfoldable pub copy_app_config_to : AppConfig → AppConfig → AppConfig
copy_app_config_to app conf = record conf {
  server_ip = app.server_ip;
  server_port = app.server_port;
  heartbeat = app.heartbeat;
  offline = app.offline;
  max_packet_size = app.max_packet_size;
  packet_num = app.packet_num;
  p2p_try_count = app.p2p_try_count;
  p2p_retry_interval = app.p2p_retry_interval;
  allow_visit_port = app.allow_visit_port;
  enable_log = app.enable_log;
  save_log = app.save_log;
  log_level = app.log_level;
  peer_config = app.peer_config;
  tap_config = record app.tap_config { ip_addr_str = [] };
}
