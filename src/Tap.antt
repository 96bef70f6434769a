-- ===== src/Tap.antt =====
-- service/tuntap_service.go: the virtual network card. The device is the operating system's: what
-- its calls answer is a parameter, and what is done to it is the log.
use vilan_peer.Base.{ℕ, Bool, true, false, List, [], ◌∷◌, ◌++◌, Option, none, some, String}
use vilan_peer.Base.{if◌then◌else◌, ◌==◌, ◌||◌}
use vilan_peer.Address.{prefix_mask, uint32_to_ip_v4}
use vilan_peer.Model.Config.{AppConfig, TunTapState}

-- tuntap.CreateTapDevice: an error, a nil device, or the device of a number.
pub data Created : Type 0 where
  refused no_device : Created
  device : ℕ → Created

-- What the devices and the routing commands answer; `true` is success.
pub record Os : Type 0 where
  pub create : String → Created
  pub mac_of : ℕ → Option ℕ
  pub set_mac : ℕ → ℕ → Bool
  pub set_ip : ℕ → List ℕ → List ℕ → Bool
  pub close : ℕ → Bool
  pub write : ℕ → List ℕ → Option ℕ
  pub add_route : List ℕ → List ℕ → List ℕ → Bool

-- What the service does to its surroundings, oldest first. `reading` is the start of readTap.
pub data TapEvent : Type 0 where
  did_set_mac : ℕ → ℕ → TapEvent
  did_set_ip : ℕ → List ℕ → List ℕ → TapEvent
  went_up : ℕ → TapEvent
  reading : ℕ → TapEvent
  closed : ℕ → TapEvent
  wrote : ℕ → List ℕ → TapEvent
  added_route : List ℕ → List ℕ → List ℕ → TapEvent
  deleted_route : List ℕ → List ℕ → List ℕ → TapEvent

-- TunTapService
pub record Tap : Type 0 where
  pub tapper : Option ℕ
  pub state : TunTapState
  pub log : List TapEvent

-- How a call of the service ends.
pub data TapReply : Type 0 where
  fine bad_address create_failed mac_unknown mac_refused ip_refused close_failed : TapReply
  not_running no_tapper write_failed route_failed : TapReply

abbrev pub is_fine : TapReply → Bool
is_fine fine = true
is_fine _ = false

abbrev pub is_running : TunTapState → Bool
is_running TunTapState.running = true
is_running _ = false

abbrev pub note : TapEvent → Tap → Tap
note e t = record t { log = t.log ++ (e ∷ []) }

abbrev created : Created → Tap → Tap × TapReply
created refused t = (record t { tapper = none; state = TunTapState.init_failed }, create_failed)
created no_device t = (record t { tapper = none; state = TunTapState.init_failed }, create_failed)
created (device d) t = (record t { tapper = some d; state = TunTapState.init_ok }, fine)

-- createTap
unfoldable pub create_tap : Os → AppConfig → Tap → Tap × TapReply
create_tap os c t =
    if (c.tap_config.hw_mac == 0) || (c.tap_config.ip_addr == 0)
    then (record t { state = TunTapState.un_init }, bad_address)
    else created (os.create c.tap_config.name) t

-- What Start does once the device has its MAC address.
abbrev with_mac : Os → AppConfig → ℕ → Tap → Tap × TapReply
with_mac os c d t =
    let ip = uint32_to_ip_v4 c.tap_config.ip_addr in
    let mask = uint32_to_ip_v4 (prefix_mask c.tap_config.ip_mask) in
    if os.set_ip d ip mask
    then (note (reading d) (note (went_up d) (note (did_set_ip d ip mask) t)), fine)
    else (t, ip_refused)

abbrev check_mac : Os → AppConfig → ℕ → Option ℕ → Tap → Tap × TapReply
check_mac os c d none t = (t, mac_unknown)
check_mac os c d (some mac) t =
    let own = c.tap_config.hw_mac in
    if mac == own
    then with_mac os c d t
    else if os.set_mac d own
    then with_mac os c d (note (did_set_mac d own) t)
    else (t, mac_refused)

abbrev made : Os → AppConfig → Option ℕ → TapReply → Tap → Tap × TapReply
made os c none e t = (t, e)
made os c (some d) fine t = check_mac os c d (os.mac_of d) t
made os c (some d) e t = (t, e)

-- Start
unfoldable pub start_tap : Os → AppConfig → Tap → Tap × TapReply
unfolding create_tap
start_tap os c t = elim t.state [
  | TunTapState.running ↦ (t, fine)
  | _ ↦ made os c (create_tap os c t).0.tapper (create_tap os c t).1 (create_tap os c t).0
]

abbrev close_device : Os → Option ℕ → Tap → Tap × TapReply
close_device os none t = (t, fine)
close_device os (some d) t =
    if os.close d
    then (record (note (closed d) t) { tapper = none }, fine)
    else (note (closed d) t, close_failed)

-- Stop
unfoldable pub stop_tap : Os → Tap → Tap × TapReply
stop_tap os t = close_device os t.tapper (record t { state = TunTapState.stop })

abbrev wrote_to : ℕ → List ℕ → Option ℕ → Tap → Tap × Option ℕ
wrote_to d bytes n t = (note (wrote d bytes) t, n)

abbrev write_device : Os → List ℕ → Option ℕ → Tap → Tap × Option ℕ
write_device os bytes none t = (t, none)
write_device os bytes (some d) t = wrote_to d bytes (os.write d bytes) t

-- WriteData2TunTap: the number of bytes written, or `none` for an error.
unfoldable pub write_data : Os → List ℕ → Tap → Tap × Option ℕ
write_data os bytes t = elim t.state [
  | TunTapState.running ↦ write_device os bytes t.tapper t
  | _ ↦ (t, none)
]

-- AddRoute
unfoldable pub add_route : Os → List ℕ → List ℕ → List ℕ → Tap → Tap × TapReply
add_route os dst mask gw t =
    if os.add_route dst mask gw then (note (added_route dst mask gw) t, fine) else (t, route_failed)

-- DelRoute; the services do not look at its result.
abbrev pub del_route : List ℕ → List ℕ → List ℕ → Tap → Tap
del_route dst mask gw t = note (deleted_route dst mask gw) t
