-- ===== src/Tests/Services.antt =====
-- service/runtime_service.go and service/tuntap_service.go on concrete states.
use vilan_peer.Base.{◌*◌, ◌<◌, ◌≡◌, inr, refl, arith, [], ◌∷◌, none, some}
use vilan_peer.Base.{true, false, if◌then◌else◌, pos, ◌==◌, length}
use vilan_peer.Base.Text.{codes, split, parse_int, digits_value}
use vilan_peer.Address.{ip_v4_to_uint32, prefix_mask}
use vilan_peer.Model.Config.{PeerState, TunTapState}
use vilan_peer.Model.Wire.{IpNet}
use vilan_peer.Model.Messages.{AuthAck, GroupPeersResponse, LinksRequest, PeerInfo, Config}
use vilan_peer.Tap.{Os, device}
use vilan_peer.Runtime.State.{Runtime, ServerSock, Host, World, find_peer}
use vilan_peer.Runtime.Send.{}
use vilan_peer.Runtime.Auth.{process_auth_response}
use vilan_peer.Runtime.Auth.Rejections.{process_auth_response_rejects, Rejected}
use vilan_peer.Runtime.Peers.{add_route_to, clean_routes, process_group_peers_response}
use vilan_peer.Model.Messages.{StateChange}
use vilan_peer.Runtime.Peers.Lookup.{find_peer-process_group_peers_response, last_for}
use vilan_peer.Runtime.Peers.Routes.{routes-IsRouted, IsRouted, routes_after}
use vilan_peer.Runtime.Pages.{local_links}
use vilan_peer.Tests.Peers.{config, direct}

abbrev os : Os
os = record {
  create = λ name. device 3;
  mac_of = λ d. some 0xa1;
  set_mac = λ d mac. true;
  set_ip = λ d ip mask. true;
  close = λ d. true;
  write = λ d bytes. some 0;
  add_route = λ dst mask gw. true;
}

-- 100 seconds after the epoch, with two devices in the segment of 192.168.1.7 and one outside it.
abbrev pub host : Host
host = record {
  now = 100 * 1_000_000_000;
  connect = λ r. none;
  little_endian = true;
  os = os;
  ping_server = true;
  ping_net = false;
  server_connect = some (9, codes "192.168.1.7:4000");
  handler_addr = codes "192.168.1.7:4000";
  local_net = λ ip. some (ip, 32);
  interfaces = none;
  arp_table = codes "192.168.1.20" ∷ codes "10.0.0.9" ∷ codes "192.168.1.21" ∷ [];
  random = 41;
  encrypt_pwd = λ pwd. none;
  rsa_keys = false;
}

abbrev pub net : IpNet
net = record { net_addr = 0xc0a80107; net_bit_len = 24 }

abbrev sock : ServerSock
sock = record {
  bootstrap = true;
  handler = some 9;
  token = 77;
  last_receive = 95;
  heartbeat = 30;
  offline = 90;
  connected = true;
}

-- A registered service on channel 9.
abbrev pub runtime : Runtime
runtime = record {
  running = true;
  config = config;
  crypt = none;
  peer_state = PeerState.ok;
  server_sock = sock;
  server_channel = some 9;
  link_mode = 0;
  link_quality = 101;
  extern_sock = none;
  local_ip = some net;
  local_ip_str = codes "192.168.1.7";
  stats = record { trans_send = 1; trans_receive = 2; p2p_send = 3; p2p_receive = 4 };
  last_route = none;
  group_peer_cookie = 5;
  group_peers = [];
  link_infos = [];
  link_info_req_cookie = [];
  config_send = [];
  log = [];
}

abbrev unregistered : Runtime
unregistered = record runtime { peer_state = PeerState.un_conn }

abbrev peer : PeerInfo
peer = record {
  peer_name = "b2";
  net_addr = 0x0a000002;
  inter_addr = 0xc0a80205;
  peer_mac = 0xb2;
  net_bit_len = 24;
  inter_net_bit_len = 24;
  online = true;
}

abbrev pub world : World
world = record {
  app_config = config;
  runtime = record runtime { group_peers = (0xb2, peer) ∷ [] };
  p2p = direct;
  tap = record { tapper = none; state = TunTapState.un_init; log = [] };
}

abbrev ack : AuthAck
ack = record {
  auth_res = pos 0;
  token = 88;
  assign_mac = true;
  peer_mac = 0xa1;
  assign_ip = true;
  peer_addr = some (record { net_addr = 0x0a000001; net_bit_len = 24 });
  sock = none;
}

pub host_links : 0 < length (local_links net host.arp_table)
unfolding local_links ip_v4_to_uint32 split parse_int digits_value prefix_mask
host_links = omega arith

abbrev request : LinksRequest
request = record { src_mac = 0xb2; dst_mac = 0xa1 }

abbrev new_config : Config
new_config = record { src_mac = 0xa1; dst_mac = 0xb2; new_name = "b"; inner_addr = none }

abbrev group : GroupPeersResponse
group = record { cookie = 6; peer_info = peer ∷ [] }

find_peer-process_group_peers_response_example :
    find_peer 0xb2 (process_group_peers_response (some group) runtime).0
    ≡ last_for 0xb2 (peer ∷ []) (if 5 == 6 then find_peer 0xb2 runtime else none)
find_peer-process_group_peers_response_example =
    find_peer-process_group_peers_response group 0xb2 runtime

routes-IsRouted_example : IsRouted (add_route_to host 0xb2 world).0 × IsRouted (clean_routes world)
unfolding routes_after
routes-IsRouted_example = routes-IsRouted host 0xb2 world refl

abbrev no_mac : AuthAck
no_mac = record ack { peer_mac = 0 }

process_auth_response_rejects_example :
    Rejected world (process_auth_response host (some no_mac) world)
process_auth_response_rejects_example = process_auth_response_rejects host no_mac world (inr refl)

abbrev offline : StateChange
offline = record { peer_mac = 0xb2; online = false; peer_info = none }
