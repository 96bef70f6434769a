-- ===== src/Runtime/Pages/FirstPage.antt =====
-- An answer of which only the first page has arrived.
use vilan_peer.Base.{◌-◌}
use vilan_peer.Base.{
  ℕ, zero, suc, ◌<◌, ◌≡◌, refl, arith, List, some, load, false, take, length, ap, ◌∙◌, sym, subst,
  ◌==◌, if◌then◌else◌,
}
use vilan_peer.Model.Wire.{IpNet}
use vilan_peer.Model.Messages.{LinkInfo}
use vilan_peer.Runtime.State.{Runtime, Host}
use vilan_peer.Runtime.Pages.{
  page, page_count, responses, answers, local_links, new_cookie, same_cookie,
}
use vilan_peer.Runtime.Pages.Reassembly.{
  receive_all, receive_unknown, length-take_positive, pages_fit, nth,
}

page-first : (links : List LinkInfo) (left : ℕ) → page links (suc (suc left)) 0 ≡ take 50 links
page-first links left = ap (λ b. if b then links else take 50 links) inner
  where
    inner : (0 == suc (suc left) - 1) ≡ false
    inner = ground arith

-- What is held after the first page of an answer with more than one page.
pub receive_all-first_page :
    (host : Host) (net : IpNet) (own dst : ℕ) (r : Runtime)
    → 50 < length (local_links net host.arp_table)
    → same_cookie (load own r.link_info_req_cookie) (new_cookie host) ≡ false
    → load own (receive_all (take 1 (answers host net own dst)) r).link_infos
      ≡ some (take 50 (local_links net host.arp_table))
unfolding answers responses receive_all
receive_all-first_page host net own dst r many fresh = by_count (page_count (length links)) refl
  where
    links : List LinkInfo
    links = local_links net host.arp_table

    by_count :
        (count : ℕ)
        → count ≡ page_count (length links)
        → load own
            (receive_all
              (take 1 (responses own dst (new_cookie host) links count 0 count))
              r).link_infos
          ≡ some (take 50 links)
    by_count zero at = absurd (ground (arith, at, pages_fit (length links)))
    by_count (suc zero) at = absurd (omega (arith, at, pages_fit (length links)))
    by_count (suc (suc left)) at =
        (receive_unknown (nth links own dst (new_cookie host) (suc (suc left)) 0) r positive
          fresh).1
        ∙ ap some (page-first links left)
      where
        positive : 0 < length (page links (suc (suc left)) 0)
        positive =
            subst (λ l. 0 < length l) (sym (page-first links left))
              (length-take_positive 49 links (omega arith))
