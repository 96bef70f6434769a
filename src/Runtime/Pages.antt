-- ===== src/Runtime/Pages.antt =====
-- The devices behind a peer: asked for with one request, answered in pages of fifty under one
-- cookie, and put together again by the peer that asked.
pub mod Reassembly
pub mod FirstPage
pub mod Waiting
pub mod Answer
use vilan_peer.Base.{ℕ, zero, suc, ◌+◌, ◌-◌, ◌*◌, ◌/◌, ◌%◌, ◌^◌, Bool, true, false, List, [], ◌∷◌}
use vilan_peer.Base.{
  ◌++◌, Option, none, some, load, store, delete, ◌==◌, if◌then◌else◌, ltb, bit_and,
}
use vilan_peer.Base.{length, take, drop}
use vilan_peer.Address.{prefix_mask, ip_v4_to_uint32}
use vilan_peer.Model.Wire.{IpNet}
use vilan_peer.Model.Messages.{LinkInfo, LinksRequest, LinksResponse, PeerBody}
use vilan_peer.Runtime.State.{Runtime, Host, Reply, done, failed, panicked, Error, no_message}
use vilan_peer.Runtime.State.{no_handler, no_local_ip, no_links}
use vilan_peer.Runtime.Send.{forward_message, frame, send_peer_links_request}

abbrev in_segment : IpNet → Option ℕ → List LinkInfo → List LinkInfo
in_segment net none rest = rest
in_segment net (some ip) rest =
    let mask = prefix_mask net.net_bit_len in
    if bit_and net.net_addr mask == bit_and ip mask
    then record { addr = ip; rx = 0; tx = 0 } ∷ rest
    else rest

-- The entries of the ARP table that are in the segment of the local address.
unfoldable pub local_links : IpNet → List (List ℕ) → List LinkInfo
local_links net [] = []
local_links net (ip ∷ ips) = in_segment net (ip_v4_to_uint32 ip) (local_links net ips)

-- The number of pages.
abbrev pub page_count : ℕ → ℕ
page_count n = if ltb 0 (n % 50) then n / 50 + 1 else n / 50

-- Page `i` of `count`.
abbrev pub page : List LinkInfo → ℕ → ℕ → List LinkInfo
page links count i = if i == count - 1 then drop (i * 50) links else take 50 (drop (i * 50) links)

-- The responses for pages `i`, `i + 1`, and so on: `left` of them.
unfoldable pub responses : ℕ → ℕ → ℕ → List LinkInfo → ℕ → ℕ → ℕ → List LinksResponse
responses src dst cookie links count i zero = []
responses src dst cookie links count i (suc left) =
    record { src_mac = src; dst_mac = dst; cookie = cookie; link_info = page links count i }
    ∷ responses src dst cookie links count (i + 1) left

unfoldable pub send_responses : List LinksResponse → Runtime → Runtime
send_responses [] r = r
send_responses (m ∷ ms) r =
    send_responses ms
      (forward_message r.server_sock.handler (frame (PeerBody.links_response m) r) r)

-- rand.Uint32() + 1
abbrev pub new_cookie : Host → ℕ
new_cookie host = (host.random + 1) % 2 ^ 32

-- What ProcessPeerLinksRequest answers to the peer `dst`.
unfoldable pub answers : Host → IpNet → ℕ → ℕ → List LinksResponse
answers host net own dst =
    let links = local_links net host.arp_table in
    let count = page_count (length links) in responses own dst (new_cookie host) links count 0 count

-- A missing request is followed where there is a page to answer.
abbrev answer_request : Host → IpNet → Option LinksRequest → Runtime → Runtime × Reply
answer_request host net (some m) r =
    (send_responses (answers host net r.config.tap_config.hw_mac m.src_mac) r, done)
answer_request host net none r =
    (r, if length (local_links net host.arp_table) == 0 then done else panicked)

abbrev with_local_ip : Host → Option IpNet → Option LinksRequest → Runtime → Runtime × Reply
with_local_ip host none m r = (r, failed no_local_ip)
with_local_ip host (some net) m r = answer_request host net m r

abbrev with_channel : Host → Option ℕ → Option LinksRequest → Runtime → Runtime × Reply
with_channel host none m r = (r, failed no_handler)
with_channel host (some h) m r = with_local_ip host r.local_ip m r

-- ProcessPeerLinksRequest
unfoldable pub process_peer_links_request : Host → Option LinksRequest → Runtime → Runtime × Reply
process_peer_links_request host m r = with_channel host r.server_sock.handler m r

-- `append(links, response.LinkInfo...)` where there are links, else the links of the response.
abbrev more_links : Option (List LinkInfo) → List LinkInfo → List LinkInfo
more_links none new = new
more_links (some old) new = old ++ new

abbrev same_cookie : Option ℕ → ℕ → Bool
same_cookie none cookie = false
same_cookie (some c) cookie = c == cookie

abbrev take_page : LinksResponse → Runtime → Runtime
take_page m r =
    if same_cookie (load m.src_mac r.link_info_req_cookie) m.cookie
    then record r {
      link_infos =
          store m.src_mac (more_links (load m.src_mac r.link_infos) m.link_info) r.link_infos;
    }
    else record r {
      link_info_req_cookie = store m.src_mac m.cookie r.link_info_req_cookie;
      link_infos = store m.src_mac m.link_info r.link_infos;
    }

abbrev nonempty_page : LinksResponse → List LinkInfo → Runtime → Runtime × Reply
nonempty_page m [] r = (r, failed no_links)
nonempty_page m (l ∷ ls) r = (take_page m r, done)

-- ProcessPeerLinksResponse
unfoldable pub process_peer_links_response : Option LinksResponse → Runtime → Runtime × Reply
process_peer_links_response none r = (r, failed no_message)
process_peer_links_response (some m) r = nonempty_page m m.link_info r

-- GetLinkInfos up to its waiting: the known links are forgotten, and a request is sent.
unfoldable pub request_link_infos : ℕ → Runtime → Runtime × Reply
request_link_infos mac r =
    send_peer_links_request mac (record r { link_infos = delete mac r.link_infos })
