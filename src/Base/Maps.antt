-- ===== src/Base/Maps.antt =====
-- `sync.Map` and Go maps with number keys, as association lists in the order that `Range` visits.
use Prim.Native.Nat.{ℕ}
use mathlib.Core.Path.{◌≡◌, refl}
use mathlib.Core.Option.{Option, none, some}
use mathlib.Core.List.{List, [], ◌∷◌}
use native.Mathlib.Omega.{arith}
use vilan_peer.Base.Tests.{◌==◌, if◌then◌else◌}

abbrev pub Map {ℓ} : Type ℓ → Type ℓ
Map V = List (ℕ × V)

module _ {ℓ} {V : Type ℓ} where
  -- m.Load(k)
  unfoldable pub load : ℕ → Map V → Option V
  load k [] = none
  load k ((j, v) ∷ m) = if j == k then some v else load k m

  -- m.Store(k, v)
  unfoldable pub store : ℕ → V → Map V → Map V
  store k v [] = (k, v) ∷ []
  store k v ((j, w) ∷ m) = if j == k then (k, v) ∷ m else (j, w) ∷ store k v m

  -- m.Delete(k)
  unfoldable pub delete : ℕ → Map V → Map V
  delete k [] = []
  delete k ((j, w) ∷ m) = let rest = delete k m in if j == k then rest else (j, w) ∷ rest

  pub load-store :
      (k j : ℕ) (v : V) (m : Map V) → load j (store k v m) ≡ (if k == j then some v else load j m)
  unfolding load store
  load-store k j v [] = refl
  load-store k j v ((i, w) ∷ m) = ground (arith, load-store k j v m)

  pub load-delete :
      (k j : ℕ) (m : Map V) → load j (delete k m) ≡ (if k == j then none else load j m)
  unfolding load delete
  load-delete k j [] = ground arith
  load-delete k j ((i, w) ∷ m) = ground (arith, load-delete k j m)

pub ruleset map_laws = (load-store, load-delete)
