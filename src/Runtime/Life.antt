-- ===== src/Runtime/Life.antt =====
-- The life of the service: its start and end, its own loop, and its connection to the server.
pub mod Connection
use vilan_peer.Base.{ℕ, ◌+◌, Bool, true, false, List, [], ◌∷◌, Option, none, some, String}
use vilan_peer.Base.{◌==◌, if◌then◌else◌, not}
use vilan_peer.Model.Config.{AppConfig, PeerState, un_conn, un_ack, init_ok, CryptType, crypt_none}
use vilan_peer.Model.Config.{crypt_aes, crypt_des, crypt_rsa, other, IpMode, static, number}
use vilan_peer.Model.Config.{copy_app_config_to}
use vilan_peer.P2p.State.{P2p}
use vilan_peer.P2p.State as P2pState
use vilan_peer.P2p.Check
use vilan_peer.Tap.{TapReply, fine, start_tap, stop_tap}
use vilan_peer.Runtime.State.{Runtime, ServerSock, Crypt, Host, World, Reply, done, failed, Error}
use vilan_peer.Runtime.State.{emit, set_peer_state, is_connected, stopped_server, closed_channel}
use vilan_peer.Runtime.State.{showed_stats, crypt_failed, no_ping, no_server, tap_failed, p2p_env}
use vilan_peer.Base.Text.{codes}
use vilan_peer.Crypto.{new_aes_crypt, new_des_crypt}
use vilan_peer.Runtime.State.{aes, des, rsa}
use vilan_peer.Runtime.Link.{update_local_ip, update_link_info, first_part}
use vilan_peer.Runtime.Send.{send_auth_request, send_un_auth}
use vilan_peer.Runtime.Auth.{on_runtime}
use vilan_peer.Runtime.Peers.{clean_routes}

-- Init, on the service that NewRuntimeService made.
pub init : Runtime → Runtime
init r = set_peer_state PeerState.init_ok (record r {
  stats = record { trans_send = 0; trans_receive = 0; p2p_send = 0; p2p_receive = 0 };
  local_ip_str = [];
  server_sock = record {
    bootstrap = false;
    handler = none;
    token = 0;
    last_receive = 0;
    heartbeat = r.config.heartbeat;
    offline = r.config.offline;
    connected = false;
  };
  group_peers = [];
  link_infos = [];
  link_info_req_cookie = [];
  config_send = [];
})

abbrev set_crypt : Crypt → Runtime → Runtime × Reply
set_crypt crypt r = (record r { crypt = some crypt }, done)

abbrev by_type : Host → CryptType → Runtime → Runtime × Reply
by_type host crypt_none r = (record r { crypt = none }, done)
by_type host crypt_aes r = set_crypt (aes (new_aes_crypt (codes r.config.peer_config.peer_pwd))) r
by_type host crypt_des r = set_crypt (des (new_des_crypt (codes r.config.peer_config.peer_pwd))) r
by_type host crypt_rsa r = set_crypt (rsa host.rsa_keys) r
by_type host (other n) r = (record r { crypt = none }, failed crypt_failed)

-- initCrypt. Its tests of `r.crypt == nil` compare an interface that holds a typed pointer: they do
-- not see that the pointer is nil.
unfoldable pub init_crypt : Host → Runtime → Runtime × Reply
init_crypt host r = by_type host r.config.peer_config.crypt_type r

-- Start, without the loop that it starts.
unfoldable pub start_runtime : Host → Runtime → Runtime × Reply
start_runtime host r =
    let started = init_crypt host (record r { running = true }) in
    if r.running then (r, done) else started

-- Stop
unfoldable pub stop_runtime : World → World
stop_runtime w =
    let w1 = on_runtime (λ r. (send_un_auth r).0) w in
    let w2 = clean_routes w1 in
    on_runtime (λ r. set_peer_state PeerState.un_conn (record r { running = false })) w2

abbrev close_channel : Option ℕ → Runtime → Runtime
close_channel none r = r
close_channel (some c) r = emit (closed_channel c) (record r { server_channel = none })

abbrev stop_bootstrap : Bool → Runtime → Runtime
stop_bootstrap true r = emit stopped_server r
stop_bootstrap false r = r

abbrev pub set_connected : Bool → Runtime → Runtime
set_connected b r = record r { server_sock = record r.server_sock { connected = b } }

-- stopAllSockets
unfoldable pub stop_all_sockets : Runtime → Runtime
stop_all_sockets r =
    let r1 = set_connected false (stop_bootstrap r.server_sock.bootstrap r) in
    let r2 = set_peer_state PeerState.un_conn r1 in close_channel r2.server_channel r2

abbrev connected_server : Host → Option (ℕ × List ℕ) → Runtime → Runtime × Reply
connected_server host none r =
    (record (set_peer_state PeerState.un_conn r) { server_channel = none }, failed no_server)
connected_server host (some (c, addr)) r =
    let r1 =
      set_connected true (set_peer_state PeerState.un_ack (record r { server_channel = some c })) in
    let ip = first_part b':' addr in (update_link_info host ip (update_local_ip host ip r1), done)

abbrev new_bootstrap : Runtime → Runtime
new_bootstrap r = record r { server_sock = record r.server_sock { bootstrap = true } }

-- initServerSocket
unfoldable pub init_server_socket : Host → Runtime → Runtime × Reply
init_server_socket host r =
    let r1 = close_channel r.server_channel r in
    let tried = connected_server host host.server_connect (new_bootstrap r1) in
    if host.ping_server then tried else (set_peer_state PeerState.un_conn r1, failed no_ping)

abbrev reconnect : Host → Runtime → Runtime
reconnect host r = (init_server_socket host (stop_all_sockets r)).0

-- stateCheck before its loop.
unfoldable pub state_check_begin : Host → Runtime → Runtime
state_check_begin host r = if is_connected host r.server_sock then r else reconnect host r

-- One round of the loop of stateCheck, every three seconds.
unfoldable pub state_check_round : Host → Runtime → Runtime
state_check_round host r =
    let r1 = emit showed_stats r in
    if is_connected host r1.server_sock
    then if number r1.peer_state == 7 then r1 else (send_auth_request host r1).0
    else reconnect host r1

-- stateCheck behind its loop, and its deferred function.
unfoldable pub state_check_end : Runtime → Runtime
state_check_end r = record (stop_all_sockets r) { running = false }

abbrev is_static : IpMode → Bool
is_static static = true
is_static _ = false

abbrev restart_tap : Host → World → World
restart_tap host w =
    let c = w.runtime.config.tap_config in
    let started = record w { tap = (start_tap host.os w.app_config w.tap).0 } in
    if is_static c.ip_mode then if c.hw_mac == 0 then w else started else w

abbrev restart_p2p : Host → Reply → World → World × Reply
restart_p2p host done w = (record w { p2p = Check.start (p2p_env host w) w.p2p }, done)
restart_p2p host e w = (w, e)

abbrev restarted : Host → World → World × Reply
restarted host w =
    let (r, reply) = start_runtime host w.runtime in
    restart_p2p host reply (record w { runtime = r })

abbrev restart_over : Host → TapReply → World → World × Reply
restart_over host fine w = restarted host (
    restart_tap host
      (on_runtime (λ r. record r { config = copy_app_config_to w.app_config r.config }) w))
restart_over host e w = (w, failed tap_failed)

-- Restart behind its call of the P2P service's Stop. It recovers from a panic there, and has no error
-- then.
abbrev restart_from : Host → P2pState.Reply → World → World × Reply
restart_from host P2pState.panicked w = (w, done)
restart_from host _ w =
    let w1 = stop_runtime w in
    let (tap, reply) = stop_tap host.os w1.tap in restart_over host reply (record w1 { tap = tap })

-- Restart
unfoldable pub restart : Host → World → World × Reply
restart host w = let (p, reply) = Check.stop w.p2p in restart_from host reply (record w { p2p = p })
