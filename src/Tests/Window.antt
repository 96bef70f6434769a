-- ===== src/Tests/Window.antt =====
-- config/config_app.go and wails-app.go on concrete states.
use vilan_peer.Base.{
  ℕ, ◌<◌, ◌*◌, ◌-◌, ◌/◌, ◌%◌, ltb, if◌then◌else◌, ◌+◌, ◌≤◌, ◌≡◌, refl, sym, ap, inl, ◌⊎◌, arith,
  All, length, take, Bool, true, false, String,
}
use vilan_peer.Base.{List, [], ◌∷◌, ◌++◌, Option, none, some}
use vilan_peer.Base.Text.{codes, parse_uint_bits, split, parse_int}
use vilan_peer.Address.{ip_v4_to_uint32}
use vilan_peer.Model.Config.{AppConfig}
use vilan_peer.Varint.{IsByte}
use mathlib.Core.List.{Perm}
use vilan_peer.Settings.{
  Parsed, Library, Store, with_texts, with_passwords, hidden, default_config, init_app_config,
}
use vilan_peer.Settings
use vilan_peer.Settings.RoundTrip.{
  IsLibrary, stripped, init_app_config-save_config, init_app_config_default_twice,
}
use vilan_peer.App.{AppState, Config, Scanner, save_config, get_config, saved, hex_bytes, hex_digit}
use vilan_peer.App.Saving.{is_saved, left_by, IsScanner, save_config_rejected}
use vilan_peer.App.Unchanged.{IsSound, save_config-get_config}
use vilan_peer.App.PeerList.{PeerInfo, sort_peers, ip_number}
use vilan_peer.App.Sorting.{IsSorted, IsReadable, sort_peers_lem}
use vilan_peer.App.History.{history, history_newest}
use vilan_peer.Tests.Peers.{config}
use vilan_peer.Tests.Services.{host, world}

abbrev parse : Option AppConfig → Option Parsed
parse none = none
parse (some c) = some (record {
  fields = record c { tap_config = stripped c.tap_config };
  peer_config = some c.peer_config;
  tap_config = some (stripped c.tap_config);
})

-- A text and its code, which has one character more in front.
abbrev tail_of : String → Option String
tail_of String.[] = none
tail_of (String.◌∷◌ c text) = some text

-- Files that hold a configuration, or something else.
abbrev library : Library (Option AppConfig)
library = record {
  marshal = λ c. some (some c);
  unmarshal = parse;
  partly = λ bs. config;
  encode64 = λ text. String.◌∷◌ "e" text;
  decode64 = tail_of;
  hostname = none;
  can_write = true;
  left_over = λ content old. none;
}

abbrev parsed : Option (Option AppConfig) → Option Parsed
parsed none = none
parsed (some f) = parse f

library-IsLibrary : IsLibrary library
library-IsLibrary = record {
  marshals = λ c. (some c, refl);
  unmarshals = λ c bs e. ap parsed (sym e);
  decodes = λ text. refl;
}

abbrev unhex : ℕ → ℕ
unhex c = if ltb c 58 then c - 48 else c - 55

abbrev scan_six : List ℕ → Option (List ℕ)
scan_six (a ∷ a' ∷ s ∷ b ∷ b' ∷ t ∷ c ∷ c' ∷ u ∷ d ∷ d' ∷ v ∷ e ∷ e' ∷ w ∷ f ∷ f' ∷ []) = some (
    (unhex a * 16 + unhex a')
    ∷ (unhex b * 16 + unhex b')
    ∷ (unhex c * 16 + unhex c')
    ∷ (unhex d * 16 + unhex d')
    ∷ (unhex e * 16 + unhex e')
    ∷ (unhex f * 16 + unhex f')
    ∷ [])
scan_six _ = none

abbrev scanner : Scanner
scanner = record { scan = scan_six }

unhex-hex : (b : ℕ) → b < 256 → unhex (hex_digit (b / 16)) * 16 + unhex (hex_digit (b % 16)) ≡ b
unhex-hex b h = ground arith

scan_six-hex_bytes :
    (bs : List ℕ) → length bs ≡ 6 → All IsByte bs → scan_six (hex_bytes bs) ≡ some bs
scan_six-hex_bytes (a ∷ b ∷ c ∷ d ∷ e ∷ f ∷ []) six (ha, (hb, (hc, (hd, (he, (hf, _)))))) =
    rw
      (
        unhex-hex a ha,
        unhex-hex b hb,
        unhex-hex c hc,
        unhex-hex d hd,
        unhex-hex e he,
        unhex-hex f hf,
      )
      refl
scan_six-hex_bytes _ six h = absurd (omega (arith, six))

scanner-IsScanner : IsScanner scanner
scanner-IsScanner = record { scans = scan_six-hex_bytes }

init_app_config-save_config_example :
    let c = (Settings.save_config library config none).0 in
    let (file, ok) = (Settings.save_config library config none).1 in
    (ok ≡ true)
    × (init_app_config library (record { app_config = none; file = file })
        ≡ (record { app_config = some c; file = file }, true))
init_app_config-save_config_example =
    init_app_config-save_config library library-IsLibrary config refl refl (omega arith)
      (omega arith) none none

init_app_config_default_twice_example :
    let first = init_app_config library (record { app_config = none; file = some none }) in
    let second = init_app_config library (record { app_config = none; file = first.0.file }) in
    let made = with_texts (default_config library config) in
    (first.0.app_config ≡ some (with_passwords "default_pwd" "12345678" made))
    × (second.0.app_config ≡ some (with_passwords "edefault_pwd" "e12345678" made))
init_app_config_default_twice_example =
    init_app_config_default_twice library library-IsLibrary none none none refl refl

abbrev state : AppState (Option AppConfig)
state = record { world = world; file = none; log_enabled = false; log_level = 0 }

abbrev unnamed : Config
unnamed = record (get_config world) { peer_name = "" }

unnamed_refused : is_saved (save_config host library scanner (some unnamed) state).1 ≡ false
unfolding save_config
unnamed_refused = refl

save_config_rejected_example :
    let (t, told) = save_config host library scanner (some unnamed) state in
    t ≡ left_by told state t
save_config_rejected_example =
    save_config_rejected host library scanner (some unnamed) state unnamed_refused

sound : IsSound config
unfolding ip_v4_to_uint32 split parse_int
sound = record {
  named = refl;
  group_named = refl;
  secret = refl;
  server = refl;
  mac = omega arith;
  ip = omega arith;
  mask = omega arith;
  mode = inl refl;
}

save_config-get_config_example :
    (bs : Option AppConfig) × (some (some (hidden library config)) ≡ some bs)
    × (save_config host library scanner (some (get_config world)) state ≡ (
      record {
        world = record world { app_config = with_texts config };
        file = some bs;
        log_enabled = true;
        log_level = 1;
      },
      saved,
    ))
save_config-get_config_example =
    save_config-get_config host library scanner state library-IsLibrary scanner-IsScanner refl sound

abbrev seen : String → Bool → PeerInfo
seen addr online = record {
  peer_name = "b2";
  peer_mac = codes "178";
  net_addr = codes addr;
  inter_addr = codes "0.0.0.0/0";
  online = online;
  connect_type = 0;
}

abbrev peers : List PeerInfo
peers = seen "10.0.0.9/24" false ∷ seen "10.0.1.2/24" true ∷ seen "10.0.0.7/24" true ∷ []

readable : All IsReadable peers
unfolding ip_number parse_uint_bits
readable = (refl, (refl, (refl, tt)))

sort_peers_lem_example :
    (on : List PeerInfo) × (off : List PeerInfo) × (sort_peers peers ≡ on ++ off)
    × All (λ p. p.online ≡ true) on
    × All (λ p. p.online ≡ false) off
    × IsSorted on
    × IsSorted off
    × Perm (on ++ off) peers
sort_peers_lem_example = sort_peers_lem peers readable

abbrev events : List ℕ
events = 7 ∷ 8 ∷ 9 ∷ []

history_newest_example :
    (n : ℕ) × (history events ≡ take n events)
    × (length (history events) ≡ n)
    × (n ≤ 101)
    × ((n ≡ 3) ⊎ (91 ≤ n))
history_newest_example = history_newest events
