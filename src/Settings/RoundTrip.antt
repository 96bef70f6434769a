-- ===== src/Settings/RoundTrip.antt =====
-- What was saved is loaded again.
use vilan_peer.Base.{◌^◌, ◌<◌, ◌≡◌, refl, ap, true, false, Option, none, some, String}
use vilan_peer.Base.{Option-cases, inl, inr, arith}
use vilan_peer.Base.Text.{parse_uint_bits-decimal}
use vilan_peer.Address.RoundTrip.{ip_v4_to_uint32-uint32_to_ip_v4}
use vilan_peer.Model.Config.{AppConfig, TapConfig}
use vilan_peer.Settings.{
  Library, with_texts, with_passwords, hidden, save_config, init_app_config, default_config, empty,
  host_name,
}

-- The fields of a section that are written.
abbrev pub stripped : TapConfig → TapConfig
stripped t = record t { hw_mac = 0; ip_addr = 0 }

-- What the library promises: a configuration is marshalled and read back, without the fields that are
-- marked as left out, and base64 is decoded again.
pub record IsLibrary {F : Type 0} (lib : Library F) : Type 0 where
  pub marshals : (c : AppConfig) → (bs : F) × (lib.marshal c ≡ some bs)
  pub unmarshals :
      (c : AppConfig) (bs : F)
      → lib.marshal c ≡ some bs
      → lib.unmarshal bs
        ≡ some (record {
          fields = record c { tap_config = stripped c.tap_config };
          peer_config = some c.peer_config;
          tap_config = some (stripped c.tap_config);
        })
  pub decodes : (text : String) → lib.decode64 (lib.encode64 text) ≡ some text

module _ {F : Type 0} (lib : Library F) (laws : IsLibrary lib) (c : AppConfig)
    (can : lib.can_write ≡ true) (named : empty c.peer_config.name ≡ false)
    (mac : c.tap_config.hw_mac < 2 ^ 64) (ip : c.tap_config.ip_addr < 2 ^ 32) where
  pub saved_file :
      (bs : F) (file : Option F)
      → lib.marshal (hidden lib c) ≡ some bs
      → save_config lib c file ≡ (with_texts c, (some bs, true))
  unfolding save_config
  saved_file bs file e = rw (e, can) refl

  loaded :
      (bs : F) (old : Option AppConfig)
      → lib.marshal (hidden lib c) ≡ some bs
      → init_app_config lib (record { app_config = old; file = some bs })
        ≡ (record { app_config = some (with_texts c); file = some bs }, true)
  unfolding init_app_config
  loaded bs old e =
      rw
        (
          laws.unmarshals (hidden lib c) bs e,
          named,
          parse_uint_bits-decimal c.tap_config.hw_mac mac,
          ip_v4_to_uint32-uint32_to_ip_v4 c.tap_config.ip_addr ip,
          laws.decodes c.peer_config.peer_pwd,
          laws.decodes c.peer_config.group_pwd,
        )
        refl

  -- SaveConfig of a configuration with a name, a uint64 as MAC address and a uint32 as IP address
  -- succeeds on a file that can be written, and InitAppConfig then loads the configuration that SaveConfig
  -- left, whatever was there before.
  pub init_app_config-save_config :
      (file : Option F) (old : Option AppConfig)
      → ((save_config lib c file).1.1 ≡ true)
        × (init_app_config lib (record { app_config = old; file = (save_config lib c file).1.0 })
            ≡ (
              record {
                app_config = some (save_config lib c file).0;
                file = (save_config lib c file).1.0;
              },
              true,
            ))
  init_app_config-save_config file old =
      let (bs, e) = laws.marshals (hidden lib c) in
      rw (saved_file bs file e) (refl, loaded bs old e)

host_name_some : {F : Type 0} (lib : Library F) → empty (host_name lib.hostname) ≡ false
host_name_some lib = elim (Option-cases lib.hostname) [
  | inl none' ↦ rw none' refl
  | inr (name, some') ↦ rw some' (named name)
]
  where
    named : (name : String) → empty (host_name (some name)) ≡ false
    named String.[] = refl
    named (String.◌∷◌ c s) = refl

-- A file that is no JSON, but can be written, is replaced by the default configuration, and the program
-- runs with the default passwords. The next start loads the base64 text of those passwords in their place.
-- JSON and base64 read back what was written in their form.
pub init_app_config_default_twice :
    {F : Type 0} (lib : Library F) (laws : IsLibrary lib) (content : F) (old new : Option AppConfig)
    → lib.can_write ≡ true
    → lib.unmarshal content ≡ none
    → let first = init_app_config lib (record { app_config = old; file = some content }) in
      let second = init_app_config lib (record { app_config = new; file = first.0.file }) in
      let made = with_texts (default_config lib (lib.partly content)) in
      (first.0.app_config ≡ some (with_passwords "default_pwd" "12345678" made))
      × (second.0.app_config
          ≡ some (with_passwords (lib.encode64 "default_pwd") (lib.encode64 "12345678") made))
unfolding init_app_config
init_app_config_default_twice lib laws content old new can bad =
    let c : AppConfig = default_config lib (lib.partly content) in
    let (bs, e) = laws.marshals (hidden lib c) in
    rw
      (
        bad,
        saved_file lib laws c can (host_name_some lib) (omega arith) (omega arith) bs (some content)
            e,
      )
      (
        refl,
        ap (λ t. t.0.app_config)
            (loaded lib laws c can (host_name_some lib) (omega arith) (omega arith) bs new e),
      )
