-- ===== src/App/PeerList.antt =====
-- The list of peers that the window shows (wails-app.go, and ProtoToModel of model/peer_info.go): the
-- peers that are online first, each part by address.
use vilan_peer.Base.{
  ℕ, zero, suc, ◌-◌, Bool, true, false, List, [], ◌∷◌, ◌++◌, Option, none, some, String,
}
use vilan_peer.Base.{length, not, ◌&&◌, ◌||◌, ◌==◌, ltb, if◌then◌else◌}
use vilan_peer.Base.Text.{decimal, parse_uint_bits}
use vilan_peer.Address.{uint32_to_ip_v4}
use vilan_peer.Model.Messages
use vilan_peer.Runtime.State.{World}
use vilan_peer.Runtime.Peers.{get_group_peers}
use vilan_peer.Runtime.Send.{is_empty}
use vilan_peer.P2p.Connect.{is_p2p}

-- model.PeerInfo, without the link, the device and the traffic.
pub record PeerInfo : Type 0 where
  pub peer_name : String
  pub peer_mac : List ℕ
  pub net_addr : List ℕ
  pub inter_addr : List ℕ
  pub online : Bool
  pub connect_type : ℕ

abbrev with_length : ℕ → ℕ → List ℕ
with_length ip bits = uint32_to_ip_v4 ip ++ (b'/' ∷ decimal bits)

-- ProtoToModel
unfoldable pub proto_to_model : Messages.PeerInfo → PeerInfo
proto_to_model info = record {
  peer_name = info.peer_name;
  peer_mac = decimal info.peer_mac;
  net_addr = with_length info.net_addr info.net_bit_len;
  inter_addr = with_length info.inter_addr info.inter_net_bit_len;
  online = info.online;
  connect_type = 0;
}

-- strings.ReplaceAll(s, c, "")
abbrev remove_all : ℕ → List ℕ → List ℕ
remove_all c [] = []
remove_all c (x ∷ xs) = let rest = remove_all c xs in if x == c then rest else x ∷ rest

-- The number that compareIP makes of an address: its digits without the separators.
unfoldable pub ip_number : List ℕ → Option ℕ
ip_number ip = parse_uint_bits 64 (remove_all b'.' (remove_all b'/' ip))

abbrev pub above : Option ℕ → Option ℕ → Bool
above none n = false
above (some m) none = false
above (some m) (some n) = ltb n m

-- compareIP
abbrev pub compare_ip : List ℕ → List ℕ → Bool
compare_ip ip0 ip1 = above (ip_number ip0) (ip_number ip1)

-- The loop over j: the first `n` neighbours are put in order, from the left.
unfoldable pub sweep : ℕ → List PeerInfo → List PeerInfo
sweep zero ps = ps
sweep (suc n) [] = []
sweep (suc n) (p ∷ []) = p ∷ []
sweep (suc n) (p ∷ q ∷ ps) =
    let kept = p ∷ sweep n (q ∷ ps) in
    let swapped = q ∷ sweep n (p ∷ ps) in if compare_ip p.net_addr q.net_addr then swapped else kept

-- The loop over i: each sweep is one shorter than the last one.
unfoldable pub bubble_sort : ℕ → List PeerInfo → List PeerInfo
bubble_sort zero ps = ps
bubble_sort (suc n) ps = bubble_sort n (sweep (suc n) ps)

-- The peers that are online, or those that are not, in their order.
abbrev pub with_online : Bool → List PeerInfo → List PeerInfo
with_online on [] = []
with_online on (p ∷ ps) =
    let rest = with_online on ps in
    if on && p.online || not on && not p.online then p ∷ rest else rest

-- sortPeers
unfoldable pub sort_peers : List PeerInfo → List PeerInfo
sort_peers ps =
    let on = with_online true ps in
    let off = with_online false ps in
    bubble_sort (length on - 1) on ++ bubble_sort (length off - 1) off

abbrev marked : World → Messages.PeerInfo → PeerInfo
marked w info =
    let p = proto_to_model info in
    if is_p2p info.peer_mac w.p2p then record p { connect_type = 1 } else p

abbrev each_marked : World → List Messages.PeerInfo → List PeerInfo
each_marked w [] = []
each_marked w (info ∷ infos) = marked w info ∷ each_marked w infos

-- The list that the window is told, or `none` where there is none.
abbrev listed : World → List Messages.PeerInfo → Option (List PeerInfo)
listed w infos =
    if is_empty w.app_config.peer_config.group_name
    then none
    else some (sort_peers (each_marked w infos))

-- RequestGroupPeers: the services after it, and the answer.
pub request_group_peers : World → World × Option (List PeerInfo)
request_group_peers w =
    let (r, infos) = get_group_peers w.app_config.peer_config.group_name true w.runtime in
    let w' = record w { runtime = r } in (w', listed w' infos)

-- UpdatePeers
unfoldable pub update_peers : World → Option (List PeerInfo)
update_peers w = listed w (get_group_peers w.app_config.peer_config.group_name false w.runtime).1
