-- ===== src/App/Life.antt =====
-- The start of the services when the window is ready, and their end when it is closed (domReady and
-- beforeClose of wails-app.go). The services are those that were just made.
use vilan_peer.Base.{
  length, ◌≡◌, refl, Bool, true, false, [], Option, none, some, ◌==◌, not, ◌&&◌, if◌then◌else◌,
  Bool-cases, inl, inr,
}
use vilan_peer.Model.Config.{IpMode, static, PeerState, number}
use vilan_peer.P2p.Check
use vilan_peer.P2p.State as P2pState
use vilan_peer.Tap.{start_tap}
use vilan_peer.Runtime.State.{Host, World, Runtime, set_peer_state, Reply, done, failed, p2p_env}
use vilan_peer.Runtime.Peers.{clean_routes}
use vilan_peer.Runtime.Life.{init, start_runtime, stop_runtime}
use vilan_peer.Serial.{stop_service}
use vilan_peer.Serial.Client.{Ports}
use vilan_peer.Serial.Calls.{stop_clients}
use vilan_peer.Serial.Reachable.{started}

-- The services; `ports` is `none` where the serial port service was not started, so that its maps are
-- nil.
pub record Program : Type 0 where
  pub world : World
  pub ports : Option Ports

abbrev is_static : IpMode → Bool
is_static static = true
is_static _ = false

-- TunTapService: an error is logged, and the start goes on.
abbrev pub with_tap : Host → World → World
with_tap host w =
    let c = w.app_config.tap_config in
    let made = record w { tap = (start_tap host.os w.app_config w.tap).0 } in
    if is_static c.ip_mode && not (c.hw_mac == 0) then made else w

abbrev pub no_ports : Ports
no_ports = record { server = started; clients = record { client_ctx = []; log = [] } }

abbrev pub after_runtime : Host → World → Reply → Program
after_runtime host w done = record {
  world = record w { p2p = Check.start (p2p_env host w) w.p2p };
  ports = if w.app_config.allow_visit_port then some no_ports else none;
}
after_runtime host w r = record { world = w; ports = none }

-- domReady behind the configuration.
unfoldable pub dom_ready : Host → World → Program
dom_ready host w =
    let w1 = with_tap host w in
    let (r, reply) = start_runtime host (init w1.runtime) in
    after_runtime host (record w1 { runtime = r }) reply

-- How beforeClose ends: the window closes, or stays, or the program panics.
pub data Closing : Type 0 where
  closes stays crashed : Closing

abbrev pub stop_ports : Ports → Ports
stop_ports p = record { server = stop_service p.server; clients = stop_clients p.clients }

abbrev pub closing : P2pState.Reply → Closing
closing P2pState.panicked = crashed
closing _ = closes

-- The services after the serial port service.
abbrev pub stop_others : Program → Program × Closing
stop_others p =
    let w = stop_runtime p.world in
    let (p2p, reply) = Check.stop w.p2p in
    (record p { world = record w { p2p = p2p } }, closing reply)

abbrev pub stop_from : Option Ports → Program → Program × Closing
stop_from none p = (p, crashed)
stop_from (some ports) p = stop_others (record p { ports = some (stop_ports ports) })

-- beforeClose, with the answer to its question, or `none` where the dialog fails.
unfoldable pub before_close : Option Bool → Program → Program × Closing
before_close none p = (p, closes)
before_close (some false) p = (p, stays)
before_close (some true) p = stop_from p.ports p

no_visit :
    (host : Host) (w : World) (r : Reply)
    → w.app_config.allow_visit_port ≡ false
    → (after_runtime host w r).ports ≡ none
no_visit host w done e = rw e refl
no_visit host w (failed x) e = refl
no_visit host w _ e = refl

with_tap-visit : (host : Host) (w : World) → (with_tap host w).app_config ≡ w.app_config
with_tap-visit host w =
    elim (Bool-cases
      (is_static w.app_config.tap_config.ip_mode && not (w.app_config.tap_config.hw_mac == 0))) [
        | inl yes' ↦ rw yes' refl
        | inr no' ↦ rw no' refl
      ]

dom_ready-ports :
    (host : Host) (w : World)
    → w.app_config.allow_visit_port ≡ false
    → (dom_ready host w).ports ≡ none
unfolding dom_ready
dom_ready-ports host w e =
    let w1 = with_tap host w in
    let (r, reply) = start_runtime host (init w1.runtime) in
    no_visit host (record w1 { runtime = r }) reply (rw (with_tap-visit host w) e)

stop_unstarted : (p : Program) → p.ports ≡ none → stop_from p.ports p ≡ (p, crashed)
stop_unstarted p e = rw e refl

-- In a program that was started with its ports closed to others, the user's leave to quit stops nothing:
-- the serial port service has no maps, its Stop panics, and the other services are not reached.
pub before_close-dom_ready :
    (host : Host) (w : World)
    → w.app_config.allow_visit_port ≡ false
    → before_close (some true) (dom_ready host w) ≡ (dom_ready host w, crashed)
unfolding before_close dom_ready
before_close-dom_ready host w e = stop_unstarted (dom_ready host w) (dom_ready-ports host w e)

set_peer_state-running :
    (state : PeerState) (r : Runtime) → (set_peer_state state r).running ≡ r.running
unfolding set_peer_state
set_peer_state-running state r = elim (Bool-cases (number r.peer_state == number state)) [
  | inl yes' ↦ rw yes' refl
  | inr no' ↦ rw no' refl
]

stop_runtime-running : (w : World) → (stop_runtime w).runtime.running ≡ false
unfolding stop_runtime
stop_runtime-running w = set_peer_state-running PeerState.un_conn _

before_close-ports :
    (p : Program) (ports : Ports)
    → p.ports ≡ some ports
    → before_close (some true) p ≡ stop_others (record p { ports = some (stop_ports ports) })
unfolding before_close
before_close-ports p ports some' = rw some' refl

stop_others-closes : (p : Program) → p.world.p2p.cancel_func ≡ true → (stop_others p).1 ≡ closes
unfolding stop_runtime clean_routes Check.stop
stop_others-closes p on = rw on refl

-- Whether nothing is left to run, for what beforeClose leaves.
abbrev pub nothing_left : Option Ports → Bool
nothing_left none = false
nothing_left (some p) = (length p.server.server_ctx == 0) && (length p.clients.client_ctx == 0)

abbrev pub AllStopped : Program × Closing → Type 0
AllStopped (q, end) =
    (end ≡ closes)
    × (q.world.runtime.running ≡ false)
    × (q.world.p2p.running ≡ false)
    × (nothing_left q.ports ≡ true)

stop_ports-left : (ports : Ports) → nothing_left (some (stop_ports ports)) ≡ true
unfolding stop_service stop_clients
stop_ports-left ports = refl

-- In a program whose services were all started, leave to quit stops the runtime service and the P2P
-- service, and leaves no context of the serial port service.
pub before_close_lem :
    (p : Program) (ports : Ports)
    → p.ports ≡ some ports
    → p.world.p2p.cancel_func ≡ true
    → AllStopped (before_close (some true) p)
before_close_lem p ports some' on = rw (before_close-ports p ports some') (
  stop_others-closes (record p { ports = some (stop_ports ports) }) on,
  stop_runtime-running p.world,
  Check.stop-running (stop_runtime p.world).p2p,
  stop_ports-left ports,
)
