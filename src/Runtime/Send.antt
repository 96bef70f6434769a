-- ===== src/Runtime/Send.antt =====
-- What the service sends to the server, and the guards in front of it.
pub mod Guards
pub mod Post
use vilan_peer.Base.{
  ℕ, ◌+◌, ◌-◌, ◌/◌, ◌*◌, Bool, true, false, List, [], ◌∷◌, Option, none, some, String,
}
use vilan_peer.Base.{load, store, ◌==◌, if◌then◌else◌, ltb, ℤ, pos, negsuc, not}
use vilan_peer.Runtime.Link.{update_local_ip, update_link_info, first_part}
use vilan_peer.Model.Config.{PeerState, un_ack, IpMode, auto_assign, number}
use vilan_peer.Model.Wire.{Sock, IpNet, DataFrame, packet}
use vilan_peer.Model.Messages.{Auth, PeerFrame, PeerBody, Config, UnAuth, Ping, LinksRequest}
use vilan_peer.Model.Messages.{GroupPeersRequest}
use vilan_peer.P2p.State.{P2p}
use vilan_peer.P2p.Connect.{clear_map}
use vilan_peer.P2p.Punch.{try_forward_message}
use vilan_peer.Runtime.State.{Runtime, Host, World, Interface, Reply, done, failed, Error}
use vilan_peer.Runtime.State.{emit, set_peer_state, not_connected, p2p_env, sent, relayed}
use vilan_peer.Runtime.State.{unconnected, no_handler, no_sock}

-- forwardMessage of a frame for the server.
abbrev pub forward_message : Option ℕ → PeerFrame → Runtime → Runtime
forward_message none msg r = r
forward_message (some h) msg r = if r.running then emit (sent h msg) r else r

abbrev pub frame : PeerBody → Runtime → PeerFrame
frame body r = record {
  peer_mac = r.config.tap_config.hw_mac;
  token = r.server_sock.token;
  body = body;
}

abbrev pub on_channel : (ℕ → Runtime → Runtime) → Option ℕ → Runtime → Runtime × Reply
on_channel send none r = (r, failed no_handler)
on_channel send (some h) r = (send h r, done)

-- The guards of every request: a connection that is up, and a channel.
abbrev pub guarded : (ℕ → Runtime → Runtime) → Runtime → Runtime × Reply
guarded send r =
    if not_connected r then (r, failed unconnected) else on_channel send r.server_sock.handler r

-- sendConfig's frame, and the caller that waits for its answer.
abbrev pub wait_for : Config → ℕ → Runtime → Runtime
wait_for conf result r = record r { config_send = store conf.dst_mac result r.config_send }

abbrev local_ip_again : Host → Option IpNet → Runtime → Runtime
local_ip_again host none r =
    let ip = first_part b':' host.handler_addr in
    update_link_info host ip (update_local_ip host ip r)
local_ip_again host (some ip) r = r

abbrev or_plain : String → Option String → String
or_plain pwd none = pwd
or_plain pwd (some hidden) = hidden

abbrev pub is_empty : String → Bool
is_empty String.[] = true
is_empty (String.◌∷◌ c s) = false

abbrev group_password : Host → Runtime → String
group_password host r =
    let pwd = r.config.peer_config.group_pwd in
    if is_empty pwd then "" else or_plain pwd (host.encrypt_pwd pwd)

abbrev is_auto : IpMode → Bool
is_auto auto_assign = true
is_auto _ = false

abbrev own_net : Runtime → IpNet
own_net r = record {
  net_addr = r.config.tap_config.ip_addr;
  net_bit_len = r.config.tap_config.ip_mask;
}

abbrev pub auth_message : Host → Runtime → Auth
auth_message host r =
    let auto_ip = is_auto r.config.tap_config.ip_mode in
    record {
      peer_mac = r.config.tap_config.hw_mac;
      peer_name = r.config.peer_config.name;
      group = r.config.peer_config.group_name;
      password = group_password host r;
      peer_addr = if auto_ip then none else some (own_net r);
      inner_addr = r.local_ip;
      auto_mac = r.config.tap_config.hw_mac == 0;
      auto_ip = auto_ip;
      link_mode = r.link_mode;
      link_quality = r.link_quality;
    }

abbrev auth_frame : Host → Runtime → PeerFrame
auth_frame host r = record {
  peer_mac = r.config.tap_config.hw_mac;
  token = 0;
  body = PeerBody.auth (auth_message host r);
}

abbrev write_auth : Host → ℕ → Runtime → Runtime
write_auth host h r =
    let r' = local_ip_again host r.local_ip r in
    set_peer_state PeerState.un_ack (forward_message (some h) (auth_frame host r') r')

-- SendAuthRequest
unfoldable pub send_auth_request : Host → Runtime → Runtime × Reply
send_auth_request host r = guarded (write_auth host) r

abbrev write_body : PeerBody → ℕ → Runtime → Runtime
write_body body h r = forward_message (some h) (frame body r) r

-- SendUnAuth
unfoldable pub send_un_auth : Runtime → Runtime × Reply
send_un_auth r =
    guarded
      (write_body (
        PeerBody.un_auth record {
          peer_mac = r.config.tap_config.hw_mac;
          group = r.config.peer_config.group_name;
          token = r.server_sock.token;
        }))
      r

abbrev ping_message : Runtime → Ping
ping_message r = record {
  peer_name = r.config.peer_config.name;
  peer_addr = some (own_net r);
  inner_addr = r.local_ip;
  stats = r.stats;
  link_mode = r.link_mode;
  link_quality = r.link_quality;
}

abbrev write_ping : Host → ℕ → Runtime → Runtime
write_ping host h r =
    let r' = update_link_info host r.local_ip_str r in
    write_body (PeerBody.ping (ping_message r')) h r'

-- SendPing
unfoldable pub send_ping : Host → Runtime → Runtime × Reply
send_ping host r = guarded (write_ping host) r

abbrev pub write_group_request : String → ℕ → Runtime → Runtime
write_group_request group h r =
    let r' = record r { group_peers = clear_map r.group_peers } in
    write_body
      (PeerBody.group_peers_request
        (record { src_mac = r.config.tap_config.hw_mac; group_name = group }))
      h r'

-- SendGroupPeersRequest
unfoldable pub send_group_peers_request : String → Runtime → Runtime × Reply
send_group_peers_request group r = guarded (write_group_request group) r

-- SendPeerLinksRequest
unfoldable pub send_peer_links_request : ℕ → Runtime → Runtime × Reply
send_peer_links_request dst_mac r =
    guarded
      (write_body (
        PeerBody.links_request
          (record { src_mac = r.config.tap_config.hw_mac; dst_mac = dst_mac })))
      r

abbrev write_config : Config → ℕ → ℕ → Runtime → Runtime
write_config conf result h r = wait_for conf result (write_body (PeerBody.config conf) h r)

-- sendConfig, for the caller that waits under the number `result`.
unfoldable pub send_config : Config → ℕ → Runtime → Runtime × Reply
send_config conf result r = guarded (write_config conf result) r

-- The frame that PostTunTapData makes of the bytes.
abbrev pub data_frame : ℕ → List ℕ → Runtime → DataFrame
data_frame dst_mac bytes r = record {
  msg_type = packet;
  src_mac = r.config.tap_config.hw_mac;
  dst_mac = dst_mac;
  token = 0;
  payload = bytes;
}

abbrev relay : DataFrame → Option ℕ → Runtime → Runtime × Reply
relay msg none r = (r, failed no_sock)
relay msg (some h) r =
    (if r.running then emit (relayed h (record msg { token = r.server_sock.token })) r else r, done)

abbrev relay_over : DataFrame → World → World × Reply
relay_over msg w =
    let (r, reply) = relay msg w.runtime.server_sock.handler w.runtime in
    (record w { runtime = r }, reply)

-- PostTunTapData
unfoldable pub post_tun_tap_data : Host → ℕ → List ℕ → World → World × Reply
post_tun_tap_data host dst_mac bytes w =
    if not (number w.runtime.peer_state == 7)
    then (w, failed unconnected)
    else let msg = data_frame dst_mac bytes w.runtime in
      let (p, direct) = try_forward_message (p2p_env host w) dst_mac msg w.p2p in
      let w' = record w { p2p = p } in if direct then (w', done) else relay_over msg w'
