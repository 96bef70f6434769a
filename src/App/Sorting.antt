-- ===== src/App/Sorting.antt =====
-- The two loops of sortPeers are a bubble sort.
use vilan_peer.Base.{ℕ, zero, suc, ◌-◌, ◌≤◌, ◌≡◌, refl, sym, ap, subst, arith, inl, inr}
use vilan_peer.Base.{
  Bool, true, false, List, [], ◌∷◌, ◌++◌, append-nil, append_assoc, Option, none, some,
}
use vilan_peer.Base.{length, All, Bool-cases, ltb}
use mathlib.Core.List.{Permᴰ, Perm}
use mathlib.Core.List.Permᴰ
use vilan_peer.App.PeerList.{
  PeerInfo, ip_number, above, compare_ip, sweep, bubble_sort, with_online, sort_peers,
}

abbrev number_or_zero : Option ℕ → ℕ
number_or_zero none = 0
number_or_zero (some n) = n

abbrev is_number : Option ℕ → Bool
is_number none = false
is_number (some n) = true

-- The number that an address is sorted by.
abbrev pub key : PeerInfo → ℕ
key p = number_or_zero (ip_number p.net_addr)

-- Whether compareIP can read an address.
abbrev pub IsReadable : PeerInfo → Type 0
IsReadable p = is_number (ip_number p.net_addr) ≡ true

abbrev pub IsSorted : List PeerInfo → Type 0
IsSorted [] = Unit
IsSorted (p ∷ ps) = All (λ q. key p ≤ key q) ps × IsSorted ps

above_numbers :
    (o o' : Option ℕ)
    → is_number o ≡ true
    → is_number o' ≡ true
    → above o o' ≡ ltb (number_or_zero o') (number_or_zero o)
above_numbers none o' h h' = cc
above_numbers (some m) none h h' = cc
above_numbers (some m) (some n) h h' = refl

compare_ip-key :
    (p q : PeerInfo)
    → IsReadable p
    → IsReadable q
    → compare_ip p.net_addr q.net_addr ≡ ltb (key q) (key p)
compare_ip-key p q hp hq = above_numbers (ip_number p.net_addr) (ip_number q.net_addr) hp hq

module _ (P : PeerInfo → Type 0) where
  All-append : (xs ys : List PeerInfo) → All P xs → All P ys → All P (xs ++ ys)
  All-append [] ys hx hy = hy
  All-append (x ∷ xs) ys (h, hx) hy = (h, All-append xs ys hx hy)

  All-front : (xs ys : List PeerInfo) → All P (xs ++ ys) → All P xs
  All-front [] ys h = tt
  All-front (x ∷ xs) ys (h, hs) = (h, All-front xs ys hs)

  All-back : (xs ys : List PeerInfo) → All P (xs ++ ys) → All P ys
  All-back [] ys h = h
  All-back (x ∷ xs) ys (h, hs) = All-back xs ys hs

  All-Perm : {xs ys : List PeerInfo} → Permᴰ xs ys → All P xs → All P ys
  All-Perm Permᴰ.nil h = tt
  All-Perm (Permᴰ.cons e d) (h, hs) = (subst P e h, All-Perm d hs)
  All-Perm (Permᴰ.swap e e') (h, (h', hs)) = (subst P e' h', (subst P e h, hs))
  All-Perm (Permᴰ.trans d d') h = All-Perm d' (All-Perm d h)

  All-map :
      {Q : PeerInfo → Type 0}
      → ((p : PeerInfo) → P p → Q p)
      → (xs : List PeerInfo) → All P xs
      → All Q xs
  All-map f [] h = tt
  All-map f (x ∷ xs) (h, hs) = (f x h, All-map f xs hs)

-- What a sweep over `front` comes to, before `back`: a largest element is the last one.
record Swept (n : ℕ) (front back : List PeerInfo) : Type 0 where
  init : List PeerInfo
  last : PeerInfo
  swept : sweep n (front ++ back) ≡ init ++ (last ∷ back)
  same : Permᴰ front (init ++ (last ∷ []))
  below : All (λ q. key q ≤ key last) (init ++ (last ∷ []))
  size : length init ≡ n

kept_first :
    (n : ℕ) (p q : PeerInfo) (r back : List PeerInfo)
    → key p ≤ key q
    → compare_ip p.net_addr q.net_addr ≡ false
    → Swept n (q ∷ r) back
    → Swept (suc n) (p ∷ q ∷ r) back
unfolding sweep
kept_first n p q r back h e s =
    let (lower, rest) = All-Perm (λ t. key t ≤ key s.last) (Permᴰ.symm s.same) s.below in
    record {
      init = p ∷ s.init;
      last = s.last;
      swept = rw e (ap (◌∷◌ p) s.swept);
      same = Permᴰ.cons refl s.same;
      below = (omega (arith, h, lower), s.below);
      size = ap suc s.size;
    }

swapped_first :
    (n : ℕ) (p q : PeerInfo) (r back : List PeerInfo)
    → key q ≤ key p
    → compare_ip p.net_addr q.net_addr ≡ true
    → Swept n (p ∷ r) back
    → Swept (suc n) (p ∷ q ∷ r) back
unfolding sweep
swapped_first n p q r back h e s =
    let (lower, rest) = All-Perm (λ t. key t ≤ key s.last) (Permᴰ.symm s.same) s.below in
    record {
      init = q ∷ s.init;
      last = s.last;
      swept = rw e (ap (◌∷◌ q) s.swept);
      same = Permᴰ.trans (Permᴰ.swap refl refl) (Permᴰ.cons refl s.same);
      below = (omega (arith, h, lower), s.below);
      size = ap suc s.size;
    }

sweep-Swept :
    (n : ℕ) (front back : List PeerInfo)
    → length front ≡ suc n
    → All IsReadable front
    → Swept n front back
unfolding sweep
sweep-Swept n [] back e h = absurd (omega (arith, e))
sweep-Swept zero (p ∷ []) back e h = record {
  init = [];
  last = p;
  swept = refl;
  same = Permᴰ.refl (p ∷ []);
  below = (omega arith, tt);
  size = refl;
}
sweep-Swept (suc n) (p ∷ []) back e h = absurd (omega (arith, e))
sweep-Swept zero (p ∷ q ∷ r) back e h = absurd (omega (arith, e))
sweep-Swept (suc n) (p ∷ q ∷ r) back e (hp, (hq, hr)) =
    let by_key = compare_ip-key p q hp hq in
    elim (Bool-cases (compare_ip p.net_addr q.net_addr)) [
      | inl yes' ↦
          swapped_first n p q r back (ground (arith, by_key, yes')) yes'
            (sweep-Swept n (p ∷ r) back (omega (arith, e)) (hp, hr))
      | inr no' ↦
          kept_first n p q r back (ground (arith, by_key, no')) no'
            (sweep-Swept n (q ∷ r) back (omega (arith, e)) (hq, hr))
    ]

abbrev AllBelow : List PeerInfo → List PeerInfo → Type 0
AllBelow front back = All (λ p. All (λ q. key p ≤ key q) back) front

-- The loops over `front`, before elements that are sorted and not below it.
bubble_sort-front :
    (n : ℕ) (front back : List PeerInfo)
    → length front ≡ suc n
    → All IsReadable front
    → AllBelow front back
    → IsSorted back
    → IsSorted (bubble_sort n (front ++ back))
      × Permᴰ (bubble_sort n (front ++ back)) (front ++ back)
unfolding bubble_sort
bubble_sort-front n [] back e h b s = absurd (omega (arith, e))
bubble_sort-front zero (p ∷ []) back e h (b, tt) s = ((b, s), Permᴰ.refl (p ∷ back))
bubble_sort-front zero (p ∷ q ∷ r) back e h b s = absurd (omega (arith, e))
bubble_sort-front (suc n) (p ∷ r) back e h b s =
    let t = sweep-Swept (suc n) (p ∷ r) back e h in
    let b' = All-Perm (λ x. All (λ q. key x ≤ key q) back) t.same b in
    let (sorted, perm) =
      bubble_sort-front n t.init (t.last ∷ back) t.size
        (All-front IsReadable t.init (t.last ∷ []) (All-Perm IsReadable t.same h))
        (All_zip t.init t.last back (All-front _ t.init (t.last ∷ []) t.below)
          (All-front _ t.init (t.last ∷ []) b'))
        ((All-back (λ x. All (λ q. key x ≤ key q) back) t.init (t.last ∷ []) b').0, s) in
    (
      subst (λ ps. IsSorted (bubble_sort n ps)) (sym t.swept) sorted,
      subst (λ ps. Permᴰ (bubble_sort n ps) (p ∷ (r ++ back))) (sym t.swept)
          (Permᴰ.trans perm (
            subst (λ ps. Permᴰ ps (p ∷ (r ++ back))) (append_assoc t.init (t.last ∷ []) back)
              (Permᴰ.append_right back (Permᴰ.symm t.same)))),
    )
  where
    All_zip :
        (xs : List PeerInfo) (m : PeerInfo) (ys : List PeerInfo)
        → All (λ q. key q ≤ key m) xs
        → AllBelow xs ys
        → AllBelow xs (m ∷ ys)
    All_zip [] m ys hx hy = tt
    All_zip (x ∷ xs) m ys (hx, hxs) (hy, hys) = ((hx, hy), All_zip xs m ys hxs hys)

All-tt : (xs : List PeerInfo) → All (λ x. Unit {0}) xs
All-tt [] = tt
All-tt (x ∷ xs) = (tt, All-tt xs)

bubble_sort_whole :
    (ps : List PeerInfo)
    → All IsReadable ps
    → IsSorted (bubble_sort (length ps - 1) ps) × Permᴰ (bubble_sort (length ps - 1) ps) ps
unfolding bubble_sort
bubble_sort_whole [] h = (tt, Permᴰ.nil)
bubble_sort_whole (p ∷ ps) h =
    subst (λ n. IsSorted (bubble_sort n (p ∷ ps)) × Permᴰ (bubble_sort n (p ∷ ps)) (p ∷ ps)) size
      (subst (λ qs. IsSorted (bubble_sort (length ps) qs) × Permᴰ (bubble_sort (length ps) qs) qs)
        (append-nil (p ∷ ps))
        (bubble_sort-front (length ps) (p ∷ ps) [] refl h
          (All-map (λ x. Unit) (λ x u. tt) (p ∷ ps) (All-tt (p ∷ ps))) tt))
  where
    size : length ps ≡ length (p ∷ ps) - 1
    size = omega arith

with_online-All :
    (P : PeerInfo → Type 0) (on : Bool) (ps : List PeerInfo) → All P ps → All P (with_online on ps)
with_online-All P on [] h = tt
with_online-All P on (p ∷ ps) (h, hs) = ground (arith, with_online-All P on ps hs)

with_online-online : (on : Bool) (ps : List PeerInfo) → All (λ p. p.online ≡ on) (with_online on ps)
with_online-online on [] = tt
with_online-online true (p ∷ ps) = elim (Bool-cases p.online) [
  | inl yes' ↦ simp yes' (refl, with_online-online true ps)
  | inr no' ↦ simp no' (with_online-online true ps)
]
with_online-online false (p ∷ ps) = elim (Bool-cases p.online) [
  | inl yes' ↦ simp yes' (with_online-online false ps)
  | inr no' ↦ simp no' (refl, with_online-online false ps)
]

with_online-Perm : (ps : List PeerInfo) → Permᴰ (with_online true ps ++ with_online false ps) ps
with_online-Perm [] = Permᴰ.nil
with_online-Perm (p ∷ ps) = elim (Bool-cases p.online) [
  | inl yes' ↦ simp yes' (Permᴰ.cons refl (with_online-Perm ps))
  | inr no' ↦ simp no' (
      Permᴰ.trans (Permᴰ.middle p (with_online true ps) (with_online false ps))
        (Permᴰ.cons refl (with_online-Perm ps)))
]

-- sortPeers, of peers whose addresses compareIP can read, gives the same peers: first those that are
-- online, then the others, and each of these parts in the order of the numbers that compareIP makes of
-- their addresses.
pub sort_peers_lem :
    (ps : List PeerInfo)
    → All IsReadable ps
    → (on : List PeerInfo) × (off : List PeerInfo) × (sort_peers ps ≡ on ++ off)
      × All (λ p. p.online ≡ true) on
      × All (λ p. p.online ≡ false) off
      × IsSorted on
      × IsSorted off
      × Perm (on ++ off) ps
unfolding sort_peers
sort_peers_lem ps h =
    let on : List PeerInfo = with_online true ps in
    let off : List PeerInfo = with_online false ps in
    let (sorted_on, perm_on) = bubble_sort_whole on (with_online-All IsReadable true ps h) in
    let (sorted_off, perm_off) = bubble_sort_whole off (with_online-All IsReadable false ps h) in
    (
      bubble_sort (length on - 1) on,
      bubble_sort (length off - 1) off,
      refl,
      All-Perm _ (Permᴰ.symm perm_on) (with_online-online true ps),
      All-Perm _ (Permᴰ.symm perm_off) (with_online-online false ps),
      sorted_on,
      sorted_off,
      ∣ Permᴰ.trans
          (Permᴰ.trans (Permᴰ.append_right (bubble_sort (length off - 1) off) perm_on)
            (Permᴰ.append_left on perm_off))
          (with_online-Perm ps) ∣₁,
    )
