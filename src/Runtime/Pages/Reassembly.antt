-- ===== src/Runtime/Pages/Reassembly.antt =====
-- The pages of an answer, put together again by the peer that asked.
use vilan_peer.Base.{
  take-drop, ℕ, zero, suc, ◌+◌, ◌-◌, ◌*◌, ◌≡◌, ◌<◌, ◌≤◌, refl, subst, ap, ◌∙◌, sym, arith,
}
use vilan_peer.Base.{true, false, List, [], ◌∷◌, ◌++◌, append_assoc, append-nil, some}
use vilan_peer.Base.{
  load, store, load-store, Bool-cases, inl, inr, ◌==◌, ==-refl, if◌then◌else◌, length, take, drop,
  length-drop,
}
use vilan_peer.Model.Wire.{IpNet}
use vilan_peer.Model.Messages.{LinkInfo, LinksResponse}
use vilan_peer.Runtime.State.{Runtime, Host}
use vilan_peer.Runtime.Pages.{
  page, page_count, responses, answers, local_links, new_cookie, take_page, same_cookie,
  nonempty_page, more_links, process_peer_links_response,
}

-- What the service holds after a sequence of responses.
unfoldable pub receive_all : List LinksResponse → Runtime → Runtime
receive_all [] r = r
receive_all (m ∷ ms) r = receive_all ms (process_peer_links_response (some m) r).0

drop_nil : {A : Type 0} (n : ℕ) → drop {A = A} n [] ≡ []
drop_nil zero = refl
drop_nil (suc n) = refl

drop-drop : {A : Type 0} (n m : ℕ) (xs : List A) → drop n (drop m xs) ≡ drop (m + n) xs
drop-drop n zero xs = ap (λ k. drop k xs) (omega arith)
drop-drop n (suc m) [] = drop_nil n ∙ sym (drop_nil (suc m + n))
drop-drop n (suc m) (x ∷ xs) = drop-drop n m xs ∙ ap (λ k. drop k (x ∷ xs)) unary
  where
    unary : suc (m + n) ≡ suc m + n
    unary = omega arith

no_length : {A : Type 0} (xs : List A) → length xs ≡ 0 → xs ≡ []
no_length [] e = refl
no_length (x ∷ xs) e = absurd (omega arith)

all_dropped : {A : Type 0} (n : ℕ) (xs : List A) → length xs ≤ n → drop n xs ≡ []
all_dropped n xs h = no_length (drop n xs) (omega (arith, length-drop n xs))

page-drop :
    (links : List LinkInfo) (count i : ℕ)
    → i < count
    → length links ≤ count * 50
    → page links count i ++ drop ((i + 1) * 50) links ≡ drop (i * 50) links
page-drop links count i lt fits = elim (Bool-cases (i == count - 1)) [
  | inl last ↦
      rw (last, all_dropped ((i + 1) * 50) links (grind arith), append-nil (drop (i * 50) links))
        refl
  | inr inner ↦ rw (inner, next) (take-drop 50 (drop (i * 50) links))
]
  where
    next : drop ((i + 1) * 50) links ≡ drop 50 (drop (i * 50) links)
    next = ap (λ k. drop k links) (omega arith) ∙ sym (drop-drop 50 (i * 50) links)

pub length-take_positive :
    {A : Type 0} (n : ℕ) (xs : List A) → 0 < length xs → 0 < length (take (suc n) xs)
length-take_positive n [] h = h
length-take_positive n (x ∷ xs) h = omega arith

page-nonempty :
    (links : List LinkInfo) (count i : ℕ)
    → (count - 1) * 50 < length links
    → i < count
    → 0 < length (page links count i)
page-nonempty links count i more lt = elim (Bool-cases (i == count - 1)) [
  | inl last ↦ rw last left
  | inr inner ↦ rw inner (length-take_positive 49 (drop (i * 50) links) left)
]
  where
    left : 0 < length (drop (i * 50) links)
    left = grind (arith, length-drop (i * 50) links)

take_page-same :
    (m : LinksResponse) (r : Runtime)
    → 0 < length m.link_info
    → (process_peer_links_response (some m) r).0 ≡ take_page m r
unfolding process_peer_links_response
take_page-same m r h = over m.link_info h
  where
    over : (ls : List LinkInfo) → 0 < length ls → (nonempty_page m ls r).0 ≡ take_page m r
    over [] h = absurd (omega arith)
    over (l ∷ ls) h = refl

load-store_same : {V : Type 0} (k : ℕ) (v : V) (m : List (ℕ × V)) → load k (store k v m) ≡ some v
load-store_same k v m = load-store k k v m ∙ ap (λ b. if b then some v else load k m) (==-refl k)

-- One page under the cookie that is known adds its links.
page_known :
    (m : LinksResponse) (r : Runtime) (old : List LinkInfo)
    → load m.src_mac r.link_info_req_cookie ≡ some m.cookie
    → load m.src_mac r.link_infos ≡ some old
    → (load m.src_mac (take_page m r).link_info_req_cookie ≡ some m.cookie)
      × (load m.src_mac (take_page m r).link_infos ≡ some (old ++ m.link_info))
page_known m r old c e = rw same (c, stored)
  where
    same : same_cookie (load m.src_mac r.link_info_req_cookie) m.cookie ≡ true
    same = ap (λ o. same_cookie o m.cookie) c ∙ ==-refl m.cookie

    stored :
        load m.src_mac
          (store m.src_mac (more_links (load m.src_mac r.link_infos) m.link_info) r.link_infos)
        ≡ some (old ++ m.link_info)
    stored = load-store_same m.src_mac _ _ ∙ ap (λ o. some (more_links o m.link_info)) e

-- A page under another cookie replaces what was known.
page_unknown :
    (m : LinksResponse) (r : Runtime)
    → same_cookie (load m.src_mac r.link_info_req_cookie) m.cookie ≡ false
    → (load m.src_mac (take_page m r).link_info_req_cookie ≡ some m.cookie)
      × (load m.src_mac (take_page m r).link_infos ≡ some m.link_info)
page_unknown m r c =
    rw c (load-store_same m.src_mac _ _, load-store_same m.src_mac m.link_info r.link_infos)

-- What the next page of an answer finds: the cookie and the links of the pages before it.
abbrev Holds : ℕ → ℕ → List LinkInfo → Runtime → Type 0
Holds src cookie links r =
    (load src r.link_info_req_cookie ≡ some cookie) × (load src r.link_infos ≡ some links)

receive_known :
    (m : LinksResponse) (r : Runtime) (old : List LinkInfo)
    → 0 < length m.link_info
    → Holds m.src_mac m.cookie old r
    → Holds m.src_mac m.cookie (old ++ m.link_info) (process_peer_links_response (some m) r).0
receive_known m r old h (c, e) =
    subst (Holds m.src_mac m.cookie (old ++ m.link_info)) (sym (take_page-same m r h))
      (page_known m r old c e)

pub receive_unknown :
    (m : LinksResponse) (r : Runtime)
    → 0 < length m.link_info
    → same_cookie (load m.src_mac r.link_info_req_cookie) m.cookie ≡ false
    → Holds m.src_mac m.cookie m.link_info (process_peer_links_response (some m) r).0
receive_unknown m r h c =
    subst (Holds m.src_mac m.cookie m.link_info) (sym (take_page-same m r h)) (page_unknown m r c)

module _ (links : List LinkInfo) (src dst cookie count : ℕ) where
  abbrev pub nth : ℕ → LinksResponse
  nth i = record { src_mac = src; dst_mac = dst; cookie = cookie; link_info = page links count i }

  receive_rest :
      (i left : ℕ) (r : Runtime) (old : List LinkInfo)
      → i + left ≡ count
      → length links ≤ count * 50
      → (count - 1) * 50 < length links
      → Holds src cookie old r
      → load src (receive_all (responses src dst cookie links count i left) r).link_infos
        ≡ some (old ++ drop (i * 50) links)
  unfolding receive_all responses
  receive_rest i zero r old at fits more (c, e) =
      e
      ∙ ap some (sym (append-nil old))
      ∙ ap (λ t. some (old ++ t)) (sym (all_dropped (i * 50) links (omega arith)))
  receive_rest i (suc left) r old at fits more held =
      receive_rest (i + 1) left (process_peer_links_response (some (nth i)) r).0
        (old ++ page links count i) (omega arith) fits more
        (receive_known (nth i) r old (page-nonempty links count i more (omega arith)) held)
      ∙ ap some (
          append_assoc old (page links count i) (drop ((i + 1) * 50) links)
          ∙ ap (λ t. old ++ t) (page-drop links count i (omega arith) fits))

  receive_answer :
      (left : ℕ) (r : Runtime)
      → suc left ≡ count
      → length links ≤ count * 50
      → (count - 1) * 50 < length links
      → same_cookie (load src r.link_info_req_cookie) cookie ≡ false
      → load src (receive_all (responses src dst cookie links count 0 (suc left)) r).link_infos
        ≡ some links
  unfolding receive_all responses
  receive_answer left r at fits more c =
      receive_rest 1 left (process_peer_links_response (some (nth 0)) r).0 (page links count 0)
        (omega arith) fits more
        (receive_unknown (nth 0) r (page-nonempty links count 0 more (omega arith)) c)
      ∙ ap some (page-drop links count 0 (omega arith) fits)

pub pages_fit : (n : ℕ) → n ≤ page_count n * 50
pages_fit n = ground arith

pages_needed : (n : ℕ) → 0 < n → (page_count n - 1) * 50 < n
pages_needed n h = ground arith

-- A peer that receives the pages of an answer, in order, under a cookie that it does not hold for
-- their sender, has then exactly the links that the answering peer found in its segment, in their
-- order. The answering peer found at least one.
pub receive_all-answers :
    (host : Host) (net : IpNet) (own dst : ℕ) (r : Runtime)
    → 0 < length (local_links net host.arp_table)
    → same_cookie (load own r.link_info_req_cookie) (new_cookie host) ≡ false
    → load own (receive_all (answers host net own dst) r).link_infos
      ≡ some (local_links net host.arp_table)
unfolding answers
receive_all-answers host net own dst r some_links fresh = by_count (page_count (length links)) refl
  where
    links : List LinkInfo
    links = local_links net host.arp_table

    by_count :
        (count : ℕ)
        → count ≡ page_count (length links)
        → load own
            (receive_all (responses own dst (new_cookie host) links count 0 count) r).link_infos
          ≡ some links
    by_count zero at = absurd (ground (arith, pages_fit (length links)))
    by_count (suc left) at =
        receive_answer links own dst (new_cookie host) (suc left) left r refl
          (omega (arith, at, pages_fit (length links)))
          (omega (arith, at, pages_needed (length links) some_links)) fresh
