-- ===== src/App/Unchanged.antt =====
-- Saving the configuration that the window was given.
use vilan_peer.Base.{ℕ, ◌^◌, ◌≤◌, ◌<◌, ◌≡◌, refl, arith, ◌⊎◌, inl, inr}
use vilan_peer.Base.{Bool, true, false, [], none, some, not, ◌&&◌, ◌||◌, ==-refl}
use vilan_peer.Base.Text.{codes, same_text_refl}
use vilan_peer.Address.{ip_v4_to_uint32, uint32_to_ip_v4, prefix_mask}
use vilan_peer.Address.RoundTrip.{ip_v4_to_uint32-uint32_to_ip_v4}
use vilan_peer.Address.Mask.{mask_bit_len-prefix_mask}
use vilan_peer.Model.Config.{AppConfig, TapConfig, IpMode, auto_assign, static, copy_app_config_to}
use vilan_peer.Runtime.State.{Host, World}
use vilan_peer.Settings.{Library, empty, with_texts, hidden}
use vilan_peer.Settings.RoundTrip.{IsLibrary, saved_file}
use vilan_peer.App.{
  AppState, Scanner, saved, save_config, get_config, mac_str_to_uint64, need_restart, is_none,
  is_some, mode_of, mode_number, crypt_number, changed, new_config, objection,
}
use vilan_peer.App.Saving.{IsScanner, mac_str_to_uint64-uint64_to_mac_str}

-- A configuration that the window's tests let through, and whose numbers fit their fields.
pub record IsSound (c : AppConfig) : Type 0 where
  pub named : empty c.peer_config.name ≡ false
  pub group_named : empty c.peer_config.group_name ≡ false
  pub secret : (not (is_none c.peer_config.crypt_type) && empty c.peer_config.peer_pwd) ≡ false
  pub server : is_some (ip_v4_to_uint32 (codes c.server_ip)) ≡ true
  pub mac : c.tap_config.hw_mac < 2 ^ 48
  pub ip : c.tap_config.ip_addr < 2 ^ 32
  pub mask : c.tap_config.ip_mask ≤ 32
  pub mode : (c.tap_config.ip_mode ≡ auto_assign) ⊎ (c.tap_config.ip_mode ≡ static)

prefix_mask_fits : (n : ℕ) → prefix_mask n < 2 ^ 32
unfolding prefix_mask
prefix_mask_fits n = ground arith

mode_of-mode_number : (m : IpMode) → (m ≡ auto_assign) ⊎ (m ≡ static) → mode_of (mode_number m) ≡ m
mode_of-mode_number m (inl e) = rw e refl
mode_of-mode_number m (inr e) = rw e refl

abbrev without_text : AppConfig → AppConfig
without_text c = record c { tap_config = record c.tap_config { ip_addr_str = [] } }

and_false : (b : Bool) → (b && false || false) ≡ false
and_false true = refl
and_false false = refl

-- A configuration needs no restart beside one that differs in the texts of the addresses only.
need_restart_texts : (c : AppConfig) → need_restart c (with_texts c) ≡ false
unfolding need_restart
need_restart_texts c =
    rw
      (
        ==-refl c.tap_config.hw_mac,
        ==-refl (crypt_number c.peer_config.crypt_type),
        same_text_refl (codes c.peer_config.peer_pwd),
        ==-refl (mode_number c.tap_config.ip_mode),
        ==-refl c.tap_config.ip_addr,
        ==-refl c.tap_config.ip_mask,
        same_text_refl (codes c.server_ip),
        ==-refl c.server_port,
        same_text_refl (codes c.peer_config.group_name),
        same_text_refl (codes c.peer_config.group_pwd),
      )
      (and_false (not (is_none c.peer_config.crypt_type)))

module _ (w : World) (sound : IsSound w.app_config) where
  abbrev tap : TapConfig
  tap = w.app_config.tap_config

  read_ip : ip_v4_to_uint32 (uint32_to_ip_v4 tap.ip_addr) ≡ some tap.ip_addr
  read_ip = ip_v4_to_uint32-uint32_to_ip_v4 tap.ip_addr sound.ip

  read_mask :
      ip_v4_to_uint32 (uint32_to_ip_v4 (prefix_mask tap.ip_mask)) ≡ some (prefix_mask tap.ip_mask)
  read_mask =
      ip_v4_to_uint32-uint32_to_ip_v4 (prefix_mask tap.ip_mask) (prefix_mask_fits tap.ip_mask)

  read_mac :
      (fmt : Scanner)
      → IsScanner fmt
      → mac_str_to_uint64 fmt (get_config w).hw_mac ≡ some tap.hw_mac
  unfolding get_config
  read_mac fmt scanner = mac_str_to_uint64-uint64_to_mac_str fmt tap.hw_mac scanner sound.mac

  no_objection : objection (get_config w) ≡ none
  unfolding get_config
  no_objection =
      rw (sound.named, sound.group_named, sound.secret, sound.server, read_ip, read_mask) refl

  changed_back :
      changed (get_config w) tap.hw_mac (copy_app_config_to w.app_config new_config)
      ≡ without_text w.app_config
  unfolding get_config copy_app_config_to
  changed_back =
      rw
        (
          read_ip,
          read_mask,
          mask_bit_len-prefix_mask tap.ip_mask sound.mask,
          mode_of-mode_number tap.ip_mode sound.mode,
        )
        refl

-- Saving the configuration that GetConfig shows succeeds, writes that configuration, and restarts no
-- service: of the services only the texts of the addresses in the program's configuration are new. The
-- names, the password and the address of the server pass the tests of SaveConfig, the MAC address is below
-- 2^48 and the IP address below 2^32, the mask has at most 32 bits, the IpMode is AutoAssign or Static,
-- the file can be written, and JSON, base64 and Sscanf read back what was written in their form.
pub save_config-get_config :
    {F : Type 0} (host : Host) (lib : Library F) (fmt : Scanner) (s : AppState F)
    → IsLibrary lib
    → IsScanner fmt
    → lib.can_write ≡ true
    → IsSound s.world.app_config
    → (bs : F) × (lib.marshal (hidden lib s.world.app_config) ≡ some bs)
      × (save_config host lib fmt (some (get_config s.world)) s ≡ (
        record {
          world = record s.world { app_config = with_texts s.world.app_config };
          file = some bs;
          log_enabled = s.world.app_config.enable_log;
          log_level = s.world.app_config.log_level;
        },
        saved,
      ))
unfolding save_config
save_config-get_config host lib fmt s laws scanner can sound =
    let c : AppConfig = s.world.app_config in
    let (bs, e) = laws.marshals (hidden lib c) in
    (
      bs,
      e,
      rw
          (
            no_objection s.world sound,
            read_mac s.world sound fmt scanner,
            changed_back s.world sound,
            saved_file lib laws (without_text c) can sound.named (omega (arith, sound.mac)) sound.ip
                bs s.file e,
            need_restart_texts c,
          )
          refl,
    )
