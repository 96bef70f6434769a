-- ===== src/Serial/Contexts.antt =====
-- Maps with one entry for each key, and what they hold.
use vilan_peer.Base.{ℕ, ◌+◌, ◌≡◌, refl, sym, ap, ◌∙◌, arith, [], ◌∷◌, Option, none, some}
use vilan_peer.Base.{
  Map, load, store, delete, load-store, load-delete, length, ◌==◌, Bool-cases, inl, inr, ==→eq,
}
use vilan_peer.Serial.{ServerContext}

module _ {V : Type 0} where
  abbrev pub IsUnique : Map V → Type 0
  IsUnique [] = Unit
  IsUnique ((k, v) ∷ m) = (load k m ≡ none) × IsUnique m

  abbrev pub found : Option V → ℕ
  found none = 0
  found (some v) = 1

  pub length-store :
      (k : ℕ) (v : V) (m : Map V) → length (store k v m) + found (load k m) ≡ length m + 1
  unfolding store load
  length-store k v [] = refl
  length-store k v ((j, w) ∷ m) = ground (arith, length-store k v m)

  pub delete-absent : (k : ℕ) (m : Map V) → load k m ≡ none → delete k m ≡ m
  unfolding delete load
  delete-absent k [] e = refl
  delete-absent k ((j, w) ∷ m) e = ground (arith, e, delete-absent k m)

  pub length-delete :
      (k : ℕ) (m : Map V) → IsUnique m → length (delete k m) + found (load k m) ≡ length m
  unfolding delete load
  length-delete k [] u = refl
  length-delete k ((j, w) ∷ m) (a, u) = elim (Bool-cases (j == k)) [
    | inl same ↦
        let gone : delete k m ≡ m =
          delete-absent k m (ap (λ t. load t m) (sym (==→eq j k same)) ∙ a) in
        rw (same, gone) (omega arith)
    | inr apart ↦ rw apart (omega (arith, length-delete k m u))
  ]

  pub IsUnique-delete : (k : ℕ) (m : Map V) → IsUnique m → IsUnique (delete k m)
  unfolding delete
  IsUnique-delete k [] u = tt
  IsUnique-delete k ((j, w) ∷ m) (a, u) = elim (Bool-cases (j == k)) [
    | inl same ↦ rw same (IsUnique-delete k m u)
    | inr apart ↦ rw apart (ground (arith, a, load-delete k j m), IsUnique-delete k m u)
  ]

  load-nil : (k : ℕ) → load {V = V} k [] ≡ none
  unfolding load
  load-nil k = refl

  pub IsUnique-store : (k : ℕ) (v : V) (m : Map V) → IsUnique m → IsUnique (store k v m)
  unfolding store
  IsUnique-store k v [] u = (load-nil k, tt)
  IsUnique-store k v ((j, w) ∷ m) (a, u) = elim (Bool-cases (j == k)) [
    | inl same ↦ rw same (ap (λ t. load t m) (sym (==→eq j k same)) ∙ a, u)
    | inr apart ↦ rw apart (ground (arith, a, apart, load-store k j v m), IsUnique-store k v m u)
  ]

-- The ports that a context has open, and those of all contexts.
abbrev pub ports_of : Option ServerContext → ℕ
ports_of none = 0
ports_of (some ctx) = length ctx.port_ctx

abbrev pub held : Map ServerContext → ℕ
held [] = 0
held ((k, ctx) ∷ m) = length ctx.port_ctx + held m

abbrev pub EachUnique : Map ServerContext → Type 0
EachUnique [] = Unit
EachUnique ((k, ctx) ∷ m) = IsUnique ctx.port_ctx × EachUnique m

pub held-store :
    (k : ℕ) (ctx : ServerContext) (m : Map ServerContext)
    → held (store k ctx m) + ports_of (load k m) ≡ held m + length ctx.port_ctx
unfolding store load
held-store k ctx [] = omega arith
held-store k ctx ((j, w) ∷ m) = elim (Bool-cases (j == k)) [
  | inl same ↦ rw same (omega arith)
  | inr apart ↦ rw apart (omega (arith, held-store k ctx m))
]

pub held-delete :
    (k : ℕ) (m : Map ServerContext) → IsUnique m → held (delete k m) + ports_of (load k m) ≡ held m
unfolding delete load
held-delete k [] u = refl
held-delete k ((j, w) ∷ m) (a, u) = elim (Bool-cases (j == k)) [
  | inl same ↦
      let gone : delete k m ≡ m =
        delete-absent k m (ap (λ t. load t m) (sym (==→eq j k same)) ∙ a) in
      rw (same, gone) (omega arith)
  | inr apart ↦ rw apart (omega (arith, held-delete k m u))
]

pub EachUnique-store :
    (k : ℕ) (ctx : ServerContext) (m : Map ServerContext)
    → IsUnique ctx.port_ctx
    → EachUnique m
    → EachUnique (store k ctx m)
unfolding store
EachUnique-store k ctx [] h u = (h, tt)
EachUnique-store k ctx ((j, w) ∷ m) h (a, u) = elim (Bool-cases (j == k)) [
  | inl same ↦ rw same (h, u)
  | inr apart ↦ rw apart (a, EachUnique-store k ctx m h u)
]

pub EachUnique-delete : (k : ℕ) (m : Map ServerContext) → EachUnique m → EachUnique (delete k m)
unfolding delete
EachUnique-delete k [] u = tt
EachUnique-delete k ((j, w) ∷ m) (a, u) = elim (Bool-cases (j == k)) [
  | inl same ↦ rw same (EachUnique-delete k m u)
  | inr apart ↦ rw apart (a, EachUnique-delete k m u)
]

abbrev pub PortsUnique : Option ServerContext → Type 0
PortsUnique none = Unit
PortsUnique (some ctx) = IsUnique ctx.port_ctx

pub EachUnique-load : (k : ℕ) (m : Map ServerContext) → EachUnique m → PortsUnique (load k m)
unfolding load
EachUnique-load k [] u = tt
EachUnique-load k ((j, w) ∷ m) (a, u) = elim (Bool-cases (j == k)) [
  | inl same ↦ rw same a
  | inr apart ↦ rw apart (EachUnique-load k m u)
]
