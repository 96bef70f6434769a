-- ===== src/Runtime/Peers.antt =====
-- The peers of the group, their configuration, and the routes through them.
pub mod Lookup
pub mod Changes
pub mod Routes
use vilan_peer.Base.{ℕ, Bool, true, false, List, [], ◌∷◌, Option, none, some, String, load, store}
use vilan_peer.Base.{delete, ◌==◌, if◌then◌else◌, bit_and}
use vilan_peer.Address.{prefix_mask, uint32_to_ip_v4}
use vilan_peer.Model.Messages.{PeerInfo, StateChange, GroupPeersResponse, Config, ConfigAck}
use vilan_peer.Model.Messages.{PeerBody}
use vilan_peer.P2p.Connect.{clear_map, peer_state_changed}
use vilan_peer.Tap.{Tap, TapReply, fine, add_route, del_route, Os}
use vilan_peer.Runtime.State.{Runtime, Host, World, Reply, done, failed, Error, emit, find_peer}
use vilan_peer.Runtime.State.{RouteInfo, showed_peers, told_serial, answered_config, no_message}
use vilan_peer.Runtime.State.{not_allowed}
use vilan_peer.Runtime.Send.{forward_message, frame, is_empty, send_group_peers_request}
use vilan_peer.Runtime.Auth.{on_runtime}

-- The peer that the map holds is one object: `p.Online = false` is seen in the map.
abbrev mark_offline : ℕ → Option PeerInfo → Runtime → Runtime
mark_offline mac none r = r
mark_offline mac (some p) r = record r {
  group_peers = store mac (record p { online = false }) r.group_peers;
}

abbrev mark_online : ℕ → Option PeerInfo → Runtime → Runtime
mark_online mac none r = r
mark_online mac (some p) r = record r { group_peers = store mac p r.group_peers }

abbrev change_peer : StateChange → Runtime → Runtime
change_peer m r =
    if m.online
    then mark_online m.peer_mac m.peer_info r
    else mark_offline m.peer_mac (find_peer m.peer_mac r) r

-- ProcessPeerStateChanged
unfoldable pub process_peer_state_changed : Option StateChange → World → World × Reply
process_peer_state_changed none w = (w, failed no_message)
process_peer_state_changed (some m) w = (
  record w {
    runtime = emit (told_serial m.peer_mac m.online) (emit showed_peers (change_peer m w.runtime));
    p2p = peer_state_changed m.peer_mac w.p2p;
  },
  done,
)

unfoldable pub store_peers : List PeerInfo → Runtime → Runtime
store_peers [] r = r
store_peers (p ∷ ps) r =
    store_peers ps (record r { group_peers = store p.peer_mac p r.group_peers })

abbrev renew : ℕ → Runtime → Runtime
renew cookie r =
    if r.group_peer_cookie == cookie
    then r
    else record r { group_peers = clear_map r.group_peers; group_peer_cookie = cookie }

-- ProcessGroupPeersResponse
unfoldable pub process_group_peers_response : Option GroupPeersResponse → Runtime → Runtime × Reply
process_group_peers_response none r = (r, failed no_message)
process_group_peers_response (some m) r =
    (emit showed_peers (store_peers m.peer_info (renew m.cookie r)), done)

abbrev values {ℓ} : {V : Type ℓ} → List (ℕ × V) → List V
values [] = []
values ((k, v) ∷ m) = v ∷ values m

-- GetGroupPeers
unfoldable pub get_group_peers : String → Bool → Runtime → Runtime × List PeerInfo
get_group_peers group request r =
    if is_empty group
    then (r, [])
    else if request
    then ((send_group_peers_request group r).0, [])
    else (r, values r.group_peers)

-- ProcessConfig refuses every change.
unfoldable pub process_config : Option Config → Runtime → Runtime × Reply
process_config none r = (r, failed no_message)
process_config (some m) r = (
  forward_message r.server_sock.handler
      (frame
        (PeerBody.config_ack record {
          src_mac = r.config.tap_config.hw_mac;
          dst_mac = m.src_mac;
          is_ok = false;
          tip = "该终端参数不允许远程修改";
        })
        r)
      r,
  failed not_allowed,
)

abbrev answer_config : ConfigAck → Option ℕ → Runtime → Runtime
answer_config ack none r = r
answer_config ack (some waiter) r =
    emit (answered_config waiter (if ack.is_ok then none else some ack.tip)) r

-- ProcessConfigAck
unfoldable pub process_config_ack : Option ConfigAck → Runtime → Runtime × Reply
process_config_ack none r = (r, failed no_message)
process_config_ack (some ack) r = (answer_config ack (load ack.src_mac r.config_send) r, done)

-- What UpdateConfig gives its caller: whether the change was made, and a tip.
abbrev update_result : Option (Option String) → Bool × String
update_result none = (false, "设置超时,没有收到应答")
update_result (some none) = (true, "参数设置成功")
update_result (some (some tip)) = (false, tip)

-- The end of UpdateConfig, with the answer that came on its channel, or `none` where it has waited
-- for two seconds.
pub update_config_end : ℕ → Option (Option String) → Runtime → Runtime × (Bool × String)
update_config_end mac answer r =
    (record r { config_send = delete mac r.config_send }, update_result answer)

abbrev unroute : Option RouteInfo → Tap → Tap
unroute none t = t
unroute (some o) t =
    del_route (uint32_to_ip_v4 o.destination) (uint32_to_ip_v4 o.mask) (uint32_to_ip_v4 o.gateway) t

-- CleanRoutes
unfoldable pub clean_routes : World → World
clean_routes w = record w {
  tap = unroute w.runtime.last_route w.tap;
  runtime = record w.runtime { last_route = none };
}

-- The route that AddRoute makes for a peer.
abbrev pub route_of : PeerInfo → RouteInfo
route_of p =
    let mask = prefix_mask p.inter_net_bit_len in
    record { destination = bit_and p.inter_addr mask; mask = mask; gateway = p.net_addr }

abbrev routed : RouteInfo → TapReply → World → World × Bool
routed o fine w = (on_runtime (λ r. record r { last_route = some o }) w, true)
routed o e w = (w, false)

abbrev route_via : Host → RouteInfo → World → World × Bool
route_via host o w =
    let (tap, reply) =
      add_route host.os (uint32_to_ip_v4 o.destination) (uint32_to_ip_v4 o.mask)
        (uint32_to_ip_v4 o.gateway) w.tap in
    routed o reply (record w { tap = tap })

abbrev route_to : Host → Option PeerInfo → World → World × Bool
route_to host none w = (w, false)
route_to host (some p) w = route_via host (route_of p) (clean_routes w)

-- AddRoute
unfoldable pub add_route_to : Host → ℕ → World → World × Bool
add_route_to host mac w = route_to host (find_peer mac w.runtime) w
