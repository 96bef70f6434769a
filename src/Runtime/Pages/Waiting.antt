-- ===== src/Runtime/Pages/Waiting.antt =====
-- The waiting of GetLinkInfos: fifteen looks at the links, one every 100 milliseconds. What arrives
-- before each look is a list of pages; behind the end of the lists nothing arrives.
use vilan_peer.Base.{
  ℕ, zero, suc, ◌<◌, ◌≡◌, refl, ap, ◌∙◌, arith, false, ◌&&◌, List, [], ◌∷◌, Option, none, some,
  load, delete, take, length, ltb, ◌==◌, ==-refl, lt→ltb, if◌then◌else◌,
}
use vilan_peer.Model.Wire.{IpNet}
use vilan_peer.Runtime.Send.{frame}
use vilan_peer.Runtime.Send.Guards.{Connected, send_peer_links_request-emit}
use vilan_peer.Model.Messages.{LinkInfo, LinksResponse, PeerBody}
use vilan_peer.Runtime.State.{Runtime, Host, Reply, done, emit, sent}
use vilan_peer.Runtime.Pages.{local_links, answers, new_cookie, same_cookie, request_link_infos}
use vilan_peer.Runtime.Pages.Reassembly.{receive_all, receive_all-answers, length-take_positive}
use vilan_peer.Runtime.Pages.FirstPage.{receive_all-first_page}

abbrev pub links_of : Option (List LinkInfo) → List LinkInfo
links_of none = []
links_of (some links) = links

abbrev pub first_batch : List (List LinksResponse) → List LinksResponse
first_batch [] = []
first_batch (b ∷ bs) = b

abbrev pub later : List (List LinksResponse) → List (List LinksResponse)
later [] = []
later (b ∷ bs) = bs

abbrev pub last_length : ℕ → ℕ → ℕ
last_length last cur = if ltb 0 cur then cur else last

-- The loop of GetLinkInfos, for the rounds that are left and the last length.
unfoldable pub wait_links :
    ℕ → ℕ → ℕ → List (List LinksResponse) → Runtime → Runtime × Option (List LinkInfo)
wait_links zero mac last batches r = (r, none)
wait_links (suc rounds) mac last batches r =
    let r' = receive_all (first_batch batches) r in
    let links = links_of (load mac r'.link_infos) in
    let rest = wait_links rounds mac (last_length last (length links)) (later batches) r' in
    if ltb 0 (length links) && last == length links then (r', some links) else rest

abbrev waited : ℕ → List (List LinksResponse) → Runtime × Reply → Runtime × Option (List LinkInfo)
waited mac batches (r, done) = wait_links 15 mac 0 batches r
waited mac batches (r, _) = (r, none)

-- GetLinkInfos
unfoldable pub get_link_infos :
    ℕ → List (List LinksResponse) → Runtime → Runtime × Option (List LinkInfo)
unfolding wait_links
get_link_infos mac batches r = waited mac batches (request_link_infos mac r)

-- A look that finds more links, or fewer, than the last one waits on.
wait_links-changed :
    (rounds mac last : ℕ) (batches : List (List LinksResponse)) (r : Runtime)
    (links : List LinkInfo)
    → load mac (receive_all (first_batch batches) r).link_infos ≡ some links
    → 0 < length links
    → (last == length links) ≡ false
    → wait_links (suc rounds) mac last batches r
      ≡ wait_links rounds mac (length links) (later batches) (receive_all (first_batch batches) r)
unfolding wait_links
wait_links-changed rounds mac last batches r links e more other =
    rw (e, lt→ltb 0 (length links) more, other) refl

-- A look that finds as many as the last one ends the waiting.
wait_links-same :
    (rounds mac : ℕ) (batches : List (List LinksResponse)) (r : Runtime) (links : List LinkInfo)
    → load mac (receive_all (first_batch batches) r).link_infos ≡ some links
    → 0 < length links
    → wait_links (suc rounds) mac (length links) batches r
      ≡ (receive_all (first_batch batches) r, some links)
unfolding wait_links
wait_links-same rounds mac batches r links e more =
    rw (e, lt→ltb 0 (length links) more, ==-refl (length links)) refl

-- Two looks with nothing between them end the waiting, whatever arrives after them.
wait_links_twice :
    (rounds mac : ℕ) (batch : List LinksResponse) (batches : List (List LinksResponse))
    (r : Runtime) (links : List LinkInfo)
    → load mac (receive_all batch r).link_infos ≡ some links
    → 0 < length links
    → (wait_links (suc (suc rounds)) mac 0 (batch ∷ [] ∷ batches) r).1 ≡ some links
unfolding receive_all
wait_links_twice rounds mac batch batches r links e more =
    ap (λ p. p.1)
      (wait_links-changed (suc rounds) mac 0 (batch ∷ [] ∷ batches) r links e more (ground arith)
        ∙ wait_links-same rounds mac ([] ∷ batches) (receive_all batch r) links e more)

-- The service that has sent the request.
abbrev asked : ℕ → ℕ → Runtime → Runtime
asked mac h r =
    let r' = record r { link_infos = delete mac r.link_infos } in
    emit
      (sent h (
        frame
          (PeerBody.links_request record { src_mac = r.config.tap_config.hw_mac; dst_mac = mac })
          r'))
      r'

get_link_infos_asks :
    (mac h : ℕ) (batches : List (List LinksResponse)) (r : Runtime)
    → Connected h r
    → get_link_infos mac batches r ≡ wait_links 15 mac 0 batches (asked mac h r)
unfolding get_link_infos request_link_infos
get_link_infos_asks mac h batches r up =
    ap (waited mac batches)
      (send_peer_links_request-emit mac (record r { link_infos = delete mac r.link_infos }) h up)

-- GetLinkInfos on a connected service, where the pages that the peer `own` answers arrive in order
-- before the first look, nothing arrives before the second, and the cookie is not the one that is
-- known for the peer: the result is the links that the peer found in its segment, at least one.
pub get_link_infos-answers :
    (host : Host) (net : IpNet) (own h : ℕ) (later_batches : List (List LinksResponse))
    (r : Runtime)
    → Connected h r
    → 0 < length (local_links net host.arp_table)
    → same_cookie (load own r.link_info_req_cookie) (new_cookie host) ≡ false
    → (get_link_infos own
        (answers host net own r.config.tap_config.hw_mac ∷ [] ∷ later_batches)
        r).1
      ≡ some (local_links net host.arp_table)
get_link_infos-answers host net own h later_batches r up more fresh =
    ap (λ p. p.1) (get_link_infos_asks own h _ r up)
    ∙ wait_links_twice 13 own (answers host net own r.config.tap_config.hw_mac) later_batches
        (asked own h r) (local_links net host.arp_table)
        (receive_all-answers host net own r.config.tap_config.hw_mac (asked own h r) more fresh)
        more

-- GetLinkInfos on a connected service, where only the first page of an answer with more than fifty
-- links has arrived by the first look and nothing arrives before the second: the result is the
-- first fifty links, and no error tells it from the whole answer.
pub get_link_infos_pause :
    (host : Host) (net : IpNet) (own h : ℕ) (later_batches : List (List LinksResponse))
    (r : Runtime)
    → Connected h r
    → 50 < length (local_links net host.arp_table)
    → same_cookie (load own r.link_info_req_cookie) (new_cookie host) ≡ false
    → (get_link_infos own
        (take 1 (answers host net own r.config.tap_config.hw_mac) ∷ [] ∷ later_batches)
        r).1
      ≡ some (take 50 (local_links net host.arp_table))
get_link_infos_pause host net own h later_batches r up many fresh =
    ap (λ p. p.1) (get_link_infos_asks own h _ r up)
    ∙ wait_links_twice 13 own (take 1 (answers host net own r.config.tap_config.hw_mac))
        later_batches (asked own h r) (take 50 (local_links net host.arp_table))
        (receive_all-first_page host net own r.config.tap_config.hw_mac (asked own h r) many fresh)
        (length-take_positive 49 (local_links net host.arp_table) (omega arith))
