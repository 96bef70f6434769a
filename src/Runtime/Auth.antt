-- ===== src/Runtime/Auth.antt =====
-- The answer of the server to a registration, its heartbeat, and the traffic counters.
pub mod Answers
pub mod Rejections
pub mod Counters
use vilan_peer.Base.{ℕ, ◌+◌, ◌%◌, ◌^◌, Bool, true, false, ◌||◌, Option, none, some, ℤ, pos, negsuc}
use vilan_peer.Base.{◌==◌, if◌then◌else◌}
use vilan_peer.Model.Config.{AppConfig, PeerState, auth_fail, ok, init_error, TunTapState}
use vilan_peer.Model.Wire.{Sock, IpNet}
use vilan_peer.Model.Messages.{AuthAck}
use vilan_peer.P2p.Connect.{reset_p2p_socks}
use vilan_peer.Tap.{TapReply, is_fine, is_running, start_tap}
use vilan_peer.Runtime.State.{Runtime, Host, World, Reply, done, failed, Error, emit, saved_config}
use vilan_peer.Runtime.State.{set_peer_state, not_connected, no_message, bad_mac, bad_ip, rejected}
use vilan_peer.Runtime.Send.{send_group_peers_request}

abbrev pub set_mac : ℕ → AppConfig → AppConfig
set_mac mac c = record c { tap_config = record c.tap_config { hw_mac = mac } }

abbrev pub set_ip : IpNet → AppConfig → AppConfig
set_ip net c = record c {
  tap_config = record c.tap_config { ip_addr = net.net_addr; ip_mask = net.net_bit_len };
}

-- An assignment changes the service's configuration and the program's.
abbrev both_configs : (AppConfig → AppConfig) → World → World
both_configs f w = record w {
  app_config = f w.app_config;
  runtime = record w.runtime { config = f w.runtime.config };
}

abbrev pub on_runtime : (Runtime → Runtime) → World → World
on_runtime f w = record w { runtime = f w.runtime }

abbrev refuse : Error → World → World × Reply
refuse e w = (on_runtime (set_peer_state auth_fail) w, failed e)

-- Whether an address can be used.
abbrev pub valid_net : Option IpNet → Bool
valid_net none = false
valid_net (some net) = if (net.net_addr == 0) || (net.net_bit_len == 0) then false else true

abbrev assign_net : Option IpNet → World → World
assign_net none w = w
assign_net (some net) w = both_configs (set_ip net) w

-- Where the network card cannot be started the state is StateInitError.
abbrev start_reply : TapReply → World → World
start_reply e w = if is_fine e then w else on_runtime (set_peer_state PeerState.init_error) w

abbrev try_start : Host → World → World
try_start host w =
    let (tap, reply) = start_tap host.os w.app_config w.tap in
    start_reply reply (record w { tap = tap })

abbrev start_unless_running : Host → World → World
start_unless_running host w = if is_running w.tap.state then w else try_start host w

abbrev save : Bool → World → World
save true w = on_runtime (emit (saved_config w.app_config)) w
save false w = w

abbrev pub announced : World → World
announced w =
    let w' = on_runtime (set_peer_state PeerState.ok) w in
    record w' { p2p = reset_p2p_socks w'.p2p }

abbrev pub ask_peers : World → World
ask_peers w = on_runtime (λ r. (send_group_peers_request r.config.peer_config.group_name r).0) w

-- The part of ProcessAuthResponse behind the assignments.
unfoldable pub registered : Host → Bool → World → World × Reply
registered host changed w =
    (ask_peers (start_unless_running host (announced (save changed w))), done)

abbrev assign_ip : Host → AuthAck → Bool → World → World × Reply
assign_ip host ack changed w =
    if ack.assign_ip
    then if valid_net ack.peer_addr
      then registered host true (assign_net ack.peer_addr w)
      else refuse bad_ip w
    else registered host changed w

abbrev accepted : Host → AuthAck → World → World × Reply
accepted host ack w =
    if ack.assign_mac
    then if ack.peer_mac == 0
      then refuse bad_mac w
      else assign_ip host ack true (both_configs (set_mac ack.peer_mac) w)
    else assign_ip host ack false w

abbrev pub extern_from : Option Sock → Runtime → Runtime
extern_from none r = r
extern_from (some sock) r = record r { extern_sock = some sock }

abbrev set_token : ℕ → Runtime → Runtime
set_token token r = record r { server_sock = record r.server_sock { token = token } }

abbrev by_result : Host → AuthAck → ℤ → World → World × Reply
by_result host ack (pos n) w = accepted host ack (on_runtime (set_token ack.token) w)
by_result host ack (negsuc n) w = refuse rejected w

-- ProcessAuthResponse
unfoldable pub process_auth_response : Host → Option AuthAck → World → World × Reply
process_auth_response host none w = (w, failed no_message)
process_auth_response host (some ack) w =
    by_result host ack ack.auth_res (on_runtime (extern_from ack.sock) w)

-- ProcessPong; the message holds the external address, where the server sent one.
unfoldable pub process_pong : Option (Option Sock) → Runtime → Runtime × Reply
process_pong none r = (r, failed no_message)
process_pong (some sock) r = (extern_from sock r, done)

abbrev pub add64 : ℕ → ℕ → ℕ
add64 a b = (a + b) % 2 ^ 64

-- SetStats
unfoldable pub set_stats : ℕ → Bool → Bool → Runtime → Runtime
set_stats size rx p2p r =
    let s = r.stats in
    if not_connected r
    then r
    else if rx
    then record r {
      stats =
          if p2p
          then record s { p2p_receive = add64 s.p2p_receive size }
          else record s { trans_receive = add64 s.trans_receive size };
    }
    else record r {
      stats =
          if p2p
          then record s { p2p_send = add64 s.p2p_send size }
          else record s { trans_send = add64 s.trans_send size };
    }
