-- ===== src/Serial/Expiry.antt =====
-- The round of stateCheck that gives up the peers that are silent.
use vilan_peer.Base.{
  ℕ, ◌+◌, ◌≡◌, refl, sym, ap, ◌∙◌, arith, false, List, [], ◌∷◌, Option, none, some,
}
use vilan_peer.Base.{Map, load, delete, ◌==◌, if◌then◌else◌, Bool-cases, inl, inr, ==-refl, ==→eq}
use vilan_peer.Serial.{
  Env, ServerContext, PortService, stop_context, is_silent, stop_silent, silent_keys, delete_each,
  state_check, stop_each,
}
use vilan_peer.Serial.Contexts.{IsUnique, EachUnique, held, delete-absent}
use vilan_peer.Serial.Balance.{opens, closes, opens-append, closes-append, stop_context-count}

-- The contexts of the peers that are not silent.
abbrev pub talking : Env → Map ServerContext → Map ServerContext
talking env [] = []
talking env ((id, ctx) ∷ m) =
    let rest = talking env m in if is_silent env ctx then rest else (id, ctx) ∷ rest

abbrev Lacks : ℕ → List ℕ → Type 0
Lacks k [] = Unit
Lacks k (j ∷ js) = ((k == j) ≡ false) × Lacks k js

silent_keys-Lacks :
    (env : Env) (k : ℕ) (m : Map ServerContext) → load k m ≡ none → Lacks k (silent_keys env m)
unfolding load
silent_keys-Lacks env k [] e = tt
silent_keys-Lacks env k ((j, ctx) ∷ m) e = elim (Bool-cases (is_silent env ctx)) [
  | inl yes' ↦ rw yes' (ground (arith, e), silent_keys-Lacks env k m (ground (arith, e)))
  | inr no' ↦ rw no' (silent_keys-Lacks env k m (ground (arith, e)))
]

delete_each-Lacks :
    (k : ℕ) (ctx : ServerContext) (ks : List ℕ) (m : Map ServerContext)
    → Lacks k ks
    → delete_each ks ((k, ctx) ∷ m) ≡ (k, ctx) ∷ delete_each ks m
unfolding delete
delete_each-Lacks k ctx [] m h = refl
delete_each-Lacks k ctx (j ∷ js) m (a, h) = rw a (delete_each-Lacks k ctx js (delete j m) h)

delete_first :
    (k : ℕ) (ctx : ServerContext) (m : Map ServerContext) → delete k ((k, ctx) ∷ m) ≡ delete k m
unfolding delete
delete_first k ctx m = rw (==-refl k) refl

-- Deleting the collected keys leaves the others.
pub delete_each-silent_keys :
    (env : Env) (m : Map ServerContext)
    → IsUnique m
    → delete_each (silent_keys env m) m ≡ talking env m
unfolding delete
delete_each-silent_keys env [] u = refl
delete_each-silent_keys env ((j, ctx) ∷ m) (a, u) = elim (Bool-cases (is_silent env ctx)) [
  | inl yes' ↦ rw yes' (
      ap (delete_each (silent_keys env m)) (delete_first j ctx m ∙ delete-absent j m a)
      ∙ delete_each-silent_keys env m u)
  | inr no' ↦ rw no' (
      delete_each-Lacks j ctx (silent_keys env m) m (silent_keys-Lacks env j m a)
      ∙ ap (λ t. (j, ctx) ∷ t) (delete_each-silent_keys env m u))
]

-- Stopping the silent ones closes what the others do not hold.
pub stop_silent-count :
    (env : Env) (m : Map ServerContext)
    → (opens (stop_silent env m) ≡ 0) × (closes (stop_silent env m) + held (talking env m) ≡ held m)
stop_silent-count env [] = (refl, refl)
stop_silent-count env ((j, ctx) ∷ m) =
    let (a, b) = stop_silent-count env m in
    let (c, d) = stop_context-count ctx in
    elim (Bool-cases (is_silent env ctx)) [
      | inl yes' ↦ rw yes' (
        omega (arith, a, c, opens-append (stop_context ctx) (stop_silent env m)),
        omega (arith, b, d, closes-append (stop_context ctx) (stop_silent env m)),
      )
      | inr no' ↦ rw no' (a, omega (arith, b))
    ]

pub stop_each-count :
    (m : Map ServerContext) → (opens (stop_each m) ≡ 0) × (closes (stop_each m) ≡ held m)
stop_each-count [] = (refl, refl)
stop_each-count ((j, ctx) ∷ m) =
    let (a, b) = stop_each-count m in
    let (c, d) = stop_context-count ctx in
    (
      omega (arith, a, c, opens-append (stop_context ctx) (stop_each m)),
      omega (arith, b, d, closes-append (stop_context ctx) (stop_each m)),
    )

load-talking_absent :
    (env : Env) (k : ℕ) (m : Map ServerContext) → load k m ≡ none → load k (talking env m) ≡ none
unfolding load
load-talking_absent env k [] e = refl
load-talking_absent env k ((j, ctx) ∷ m) e = ground (arith, e, load-talking_absent env k m)

pub talking-IsUnique : (env : Env) (m : Map ServerContext) → IsUnique m → IsUnique (talking env m)
talking-IsUnique env [] u = tt
talking-IsUnique env ((j, ctx) ∷ m) (a, u) = elim (Bool-cases (is_silent env ctx)) [
  | inl yes' ↦ rw yes' (talking-IsUnique env m u)
  | inr no' ↦ rw no' (load-talking_absent env j m a, talking-IsUnique env m u)
]

pub talking-EachUnique :
    (env : Env) (m : Map ServerContext) → EachUnique m → EachUnique (talking env m)
talking-EachUnique env [] u = tt
talking-EachUnique env ((j, ctx) ∷ m) (a, u) = elim (Bool-cases (is_silent env ctx)) [
  | inl yes' ↦ rw yes' (talking-EachUnique env m u)
  | inr no' ↦ rw no' (a, talking-EachUnique env m u)
]

-- A context after the round, given the one before it.
abbrev pub unless_silent : Env → Option ServerContext → Option ServerContext
unless_silent env none = none
unless_silent env (some ctx) = if is_silent env ctx then none else some ctx

load-talking :
    (env : Env) (k : ℕ) (m : Map ServerContext)
    → IsUnique m
    → load k (talking env m) ≡ unless_silent env (load k m)
unfolding load
load-talking env k [] u = refl
load-talking env k ((j, ctx) ∷ m) (a, u) = elim (Bool-cases (is_silent env ctx)) [
  | inl yes' ↦ elim (Bool-cases (j == k)) [
    | inl same ↦
        rw (yes', same, yes')
          (load-talking_absent env k m (ap (λ t. load t m) (sym (==→eq j k same)) ∙ a))
    | inr apart ↦ rw (yes', apart) (load-talking env k m u)
  ]
  | inr no' ↦ elim (Bool-cases (j == k)) [
    | inl same ↦ rw (no', same, no') refl
    | inr apart ↦ rw (no', apart) (load-talking env k m u)
  ]
]

-- One round of stateCheck, on contexts with different keys: the context of a peer that was not heard of
-- for more than 65 seconds is gone, and every other one is as it was.
pub load-state_check :
    (env : Env) (s : PortService) (id : ℕ)
    → IsUnique s.server_ctx
    → load id (state_check env s).server_ctx ≡ unless_silent env (load id s.server_ctx)
unfolding state_check
load-state_check env s id u =
    ap (load id) (delete_each-silent_keys env s.server_ctx u) ∙ load-talking env id s.server_ctx u
