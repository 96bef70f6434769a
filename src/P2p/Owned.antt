-- ===== src/P2p/Owned.antt =====
-- The maps of P2pService: each key is the MAC of the context that it leads to, and stands once.
use vilan_peer.Base.{
  ℕ, ◌≤◌, ◌<◌, ◌≡◌, refl, sym, ap, ◌∙◌, arith, false, List, [], ◌∷◌, Option, none, some, Map, load,
  store, delete, load-store, load-delete, ◌==◌, Bool-cases, inl, inr, ==→eq,
}
use vilan_peer.P2p.Connect.{clear_map, delete_all, keys}

-- The contexts have numbers below a bound.
abbrev pub IsOwned : (ℕ → ℕ) → ℕ → Map ℕ → Type 0
IsOwned mac n [] = Unit {0}
IsOwned mac n ((k, r) ∷ m) = (mac r ≡ k) × (r < n) × (load k m ≡ none) × IsOwned mac n m

load-store_other :
    (k j r : ℕ) (m : Map ℕ) → (k == j) ≡ false → load j m ≡ none → load j (store k r m) ≡ none
load-store_other k j r m apart e = rw (load-store k j r m, apart) e

pub IsOwned-store :
    (mac : ℕ → ℕ) (n k r : ℕ) (m : Map ℕ)
    → mac r ≡ k
    → r < n
    → IsOwned mac n m
    → IsOwned mac n (store k r m)
unfolding load store
IsOwned-store mac n k r [] own low h = (own, low, refl, tt)
IsOwned-store mac n k r ((j, q) ∷ m) own low (own', low', single, h) = elim (Bool-cases (j == k)) [
  | inl same ↦ rw same (own, low, ap (λ t. load t m) (sym (==→eq j k same)) ∙ single, h)
  | inr apart ↦ rw apart (
    own',
    low',
    load-store_other k j r m (ground arith) single,
    IsOwned-store mac n k r m own low h,
  )
]

load-delete_absent : (k j : ℕ) (m : Map ℕ) → load j m ≡ none → load j (delete k m) ≡ none
load-delete_absent k j m e = elim (Bool-cases (k == j)) [
  | inl same ↦ rw (load-delete k j m, same) refl
  | inr apart ↦ rw (load-delete k j m, apart) e
]

pub IsOwned-delete :
    (mac : ℕ → ℕ) (n k : ℕ) (m : Map ℕ) → IsOwned mac n m → IsOwned mac n (delete k m)
unfolding delete
IsOwned-delete mac n k [] h = tt
IsOwned-delete mac n k ((j, r) ∷ m) (own, low, single, h) = elim (Bool-cases (j == k)) [
  | inl same ↦ rw same (IsOwned-delete mac n k m h)
  | inr apart ↦ rw apart (own, low, load-delete_absent k j m single, IsOwned-delete mac n k m h)
]

IsOwned-delete_all :
    (mac : ℕ → ℕ) (n : ℕ) (ks : List ℕ) (m : Map ℕ)
    → IsOwned mac n m
    → IsOwned mac n (delete_all ks m)
unfolding delete_all
IsOwned-delete_all mac n [] m h = h
IsOwned-delete_all mac n (k ∷ ks) m h =
    IsOwned-delete_all mac n ks (delete k m) (IsOwned-delete mac n k m h)

pub IsOwned-clear_map :
    (mac : ℕ → ℕ) (n : ℕ) (m : Map ℕ) → IsOwned mac n m → IsOwned mac n (clear_map m)
unfolding clear_map
IsOwned-clear_map mac n m h = IsOwned-delete_all mac n (keys m) m h

-- Contexts that keep their MACs, and new ones.
pub IsOwned-frame :
    (f g : ℕ → ℕ) (n n' : ℕ) (m : Map ℕ)
    → ((r : ℕ) → r < n → g r ≡ f r)
    → n ≤ n'
    → IsOwned f n m
    → IsOwned g n' m
IsOwned-frame f g n n' [] same more h = tt
IsOwned-frame f g n n' ((k, r) ∷ m) same more (own, low, single, h) =
    (same r low ∙ own, omega arith, single, IsOwned-frame f g n n' m same more h)

-- What a map leads to for a key.
abbrev pub OwnedAt : (ℕ → ℕ) → ℕ → ℕ → Option ℕ → Type 0
OwnedAt mac n k none = Unit {0}
OwnedAt mac n k (some r) = (mac r ≡ k) × (r < n)

pub OwnedAt-load :
    (mac : ℕ → ℕ) (n k : ℕ) (m : Map ℕ) → IsOwned mac n m → OwnedAt mac n k (load k m)
unfolding load
OwnedAt-load mac n k [] h = tt
OwnedAt-load mac n k ((j, r) ∷ m) (own, low, single, h) = elim (Bool-cases (j == k)) [
  | inl same ↦ rw same (own ∙ ==→eq j k same, low)
  | inr apart ↦ rw apart (OwnedAt-load mac n k m h)
]
