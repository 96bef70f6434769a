-- ===== src/Server.antt =====
-- service/msg_handler.go: what the channel to the server, and the punch channels to it, do on the
-- services; and service/tuntap_service.go's loop, which posts what the network card reads.
use vilan_peer.Base.{ℕ, ◌+◌, ◌*◌, Bool, true, false, List, [], ◌∷◌, Option, none, some}
use vilan_peer.Base.{◌==◌, if◌then◌else◌, ltb, length, take}
use vilan_peer.Model.Config.{PeerState, number, TunTapState}
use vilan_peer.Model.Wire.{DataFrame}
use vilan_peer.Model.Messages.{ServerFrame}
use vilan_peer.P2p.State.{P2p}
use vilan_peer.P2p.State as P2pState
use vilan_peer.P2p.Punch.{punch_active, hear_punch, process_p2p_trigger}
use vilan_peer.P2p.Connect.{process_p2p_ack}
use vilan_peer.Tap.{Tap, TapReply, fine, write_data, create_tap, stop_tap, note, closed}
use vilan_peer.Tap.{went_up, is_running}
use vilan_peer.Runtime.State.{Runtime, Host, World, Reply, panicked, unix, p2p_env}
use vilan_peer.Runtime.State.{set_peer_state}
use vilan_peer.Runtime.Send.{send_auth_request, send_ping, post_tun_tap_data}
use vilan_peer.Runtime.Auth.{on_runtime, process_auth_response, process_pong}
use vilan_peer.Runtime.Peers.{process_peer_state_changed, process_group_peers_response}
use vilan_peer.Runtime.Peers.{process_config, process_config_ack}
use vilan_peer.Runtime.Pages.{process_peer_links_request, process_peer_links_response}
use vilan_peer.Runtime.Life.{set_connected}

-- The context of a MessageHandler: the server's, or a punch socket of P2pService.
pub data Context : Type 0 where
  server : Context
  punch : ℕ → Context

-- A message for HandleRead: nil, or by its type; `unknown` is any other type.
pub data Inbound : Type 0 where
  nothing unknown : Inbound
  data_frame : DataFrame → Inbound
  server_frame : ServerFrame → Inbound

-- A call of processMsg ends, or panics; its errors are only logged.
pub data Verdict : Type 0 where
  ended crashed : Verdict

abbrev on_p2p : (P2p → P2p) → World → World
on_p2p f w = record w { p2p = f w.p2p }

abbrev hear_server : Host → ℕ → Runtime → Runtime
hear_server host h r = record r {
  server_sock = record r.server_sock { handler = some h; last_receive = unix host };
}

-- HandleActive on channel `h`.
unfoldable pub handle_active : Host → Context → ℕ → World → World
handle_active host server h w =
    on_runtime
      (λ r.
        (send_auth_request host
          (set_peer_state PeerState.un_ack (set_connected true (hear_server host h r)))).0)
      w
handle_active host (punch r) h w = on_p2p (punch_active (p2p_env host w) r h) w

abbrev verdict : Reply → Verdict
verdict panicked = crashed
verdict _ = ended

abbrev p2p_verdict : P2pState.Reply → Verdict
p2p_verdict P2pState.panicked = crashed
p2p_verdict _ = ended

abbrev by_runtime : (Runtime → Runtime × Reply) → World → World × Verdict
by_runtime f w = let (r, reply) = f w.runtime in (record w { runtime = r }, verdict reply)

abbrev by_p2p : (P2p → P2p × P2pState.Reply) → World → World × Verdict
by_p2p f w = let (p, reply) = f w.p2p in (record w { p2p = p }, p2p_verdict reply)

abbrev by_world : World × Reply → World × Verdict
by_world (w, reply) = (w, verdict reply)

-- processMsg
unfoldable pub process_msg : Host → ServerFrame → World → World × Verdict
process_msg host (ServerFrame.auth_ack m) w = by_world (process_auth_response host m w)
process_msg host (ServerFrame.p2p_trigger m) w = by_p2p (process_p2p_trigger (p2p_env host w) m) w
process_msg host (ServerFrame.p2p_ack m) w = by_p2p (process_p2p_ack (p2p_env host w) m) w
process_msg host (ServerFrame.state_changed m) w = by_world (process_peer_state_changed m w)
process_msg host (ServerFrame.pong m) w = by_runtime (process_pong m) w
process_msg host (ServerFrame.group_peers_response m) w =
    by_runtime (process_group_peers_response m) w
process_msg host (ServerFrame.links_request m) w = by_runtime (process_peer_links_request host m) w
process_msg host (ServerFrame.links_response m) w = by_runtime (process_peer_links_response m) w
process_msg host (ServerFrame.config m) w = by_runtime (process_config m) w
process_msg host (ServerFrame.config_ack m) w = by_runtime (process_config_ack m) w
process_msg host ServerFrame.other w = (w, ended)

abbrev hear : Host → Context → ℕ → World → World
hear host server h w = on_runtime (hear_server host h) w
hear host (punch r) h w = on_p2p (hear_punch (p2p_env host w) r h) w

-- HandleRead on channel `h`.
unfoldable pub handle_read : Host → Context → ℕ → Inbound → World → World × Verdict
handle_read host c h nothing w = (w, ended)
handle_read host c h unknown w = (hear host c h w, ended)
handle_read host c h (data_frame m) w =
    let w' = hear host c h w in (record w' { tap = (write_data host.os m.payload w'.tap).0 }, ended)
handle_read host c h (server_frame m) w = process_msg host m (hear host c h w)

-- HandleException and HandleInactive, on the service's own state.
unfoldable pub handle_inactive : Context → World → World
handle_inactive server w = on_runtime (set_connected false) w
handle_inactive (punch r) w = w

-- HandleEvent on ReadIdleEvent.
unfoldable pub handle_read_idle : Host → World → World
handle_read_idle host w =
    let pinged = on_runtime (λ r. (send_ping host r).0) w in
    if number w.runtime.peer_state == 7 then pinged else w

-- binary.LittleEndian.Uint64 of six bytes and two zeros.
unfoldable pub mac_of_bytes : List ℕ → ℕ
mac_of_bytes [] = 0
mac_of_bytes (b ∷ bs) = b + 256 * mac_of_bytes bs

-- tapData2Net: an Ethernet frame is posted to the address that it begins with.
unfoldable pub tap_data_to_net : Host → List ℕ → World → World
tap_data_to_net host bytes w =
    let posted = (post_tun_tap_data host (mac_of_bytes (take 6 bytes)) bytes w).0 in
    if ltb (length bytes) 14 then w else posted

abbrev set_tap : Tap → World → World
set_tap t w = record w { tap = t }

abbrev bring_up : Option ℕ → Tap → Tap
bring_up none t = t
bring_up (some d) t = record (note (went_up d) t) { state = TunTapState.running }

abbrev reopened : TapReply → World → World × Bool
reopened fine w = (set_tap (bring_up w.tap.tapper w.tap) w, true)
reopened e w = (w, false)

abbrev reopen : Host → World → World × Bool
reopen host w =
    let (t, reply) = create_tap host.os w.app_config (stop_tap host.os w.tap).0 in
    reopened reply (set_tap t w)

-- One round of the loop of readTap, with what the device's Read gave (`none` for an error): the
-- state, and whether the loop goes on. Another thread may have stopped the service meanwhile.
unfoldable pub read_round : Host → Option (List ℕ) → World → World × Bool
read_round host (some (b ∷ bs)) w = (tap_data_to_net host (b ∷ bs) w, is_running w.tap.state)
read_round host _ w = if is_running w.tap.state then reopen host w else (w, false)

-- The start of readTap, and its deferred function.
pub read_begin : World → World
read_begin w = set_tap (record w.tap { state = TunTapState.running }) w

abbrev close_tapper : Option ℕ → Tap → Tap
close_tapper none t = t
close_tapper (some d) t = note (closed d) t

pub read_end : World → World
read_end w = set_tap (record (close_tapper w.tap.tapper w.tap) { state = TunTapState.stop }) w
