-- ===== src/App/History.antt =====
-- The history of the log that the window keeps (onLog and ClearHisLog of wails-app.go).
use vilan_peer.Base.{ℕ, zero, suc, ◌≤◌, ◌≡◌, refl, ap, ◌∙◌, arith, ◌⊎◌, inl, inr}
use vilan_peer.Base.{List, [], ◌∷◌, length, take, ltb, if◌then◌else◌, length-take, Bool-cases}

module _ {E : Type 0} where
  -- onLog, newest entry first.
  unfoldable pub on_log : E → List E → List E
  on_log evt events = evt ∷ (if ltb 100 (length events) then take 90 events else events)

  -- The history after a run of the program, whose newest entry is the first one.
  abbrev pub history : List E → List E
  history [] = []
  history (evt ∷ older) = on_log evt (history older)

  take-take : (m n : ℕ) (xs : List E) → m ≤ n → take m (take n xs) ≡ take m xs
  take-take zero n xs h = refl
  take-take (suc m) zero xs h = absurd (omega arith)
  take-take (suc m) (suc n) [] h = refl
  take-take (suc m) (suc n) (x ∷ xs) h = ap (◌∷◌ x) (take-take m n xs (omega arith))

  -- The history holds the newest entries: all of them, or from 91 up to 101.
  pub history_newest :
      (events : List E)
      → (n : ℕ) × (history events ≡ take n events)
        × (length (history events) ≡ n)
        × (n ≤ 101)
        × ((n ≡ length events) ⊎ (91 ≤ n))
  unfolding on_log
  history_newest [] = (0, refl, refl, omega arith, inl refl)
  history_newest (evt ∷ older) =
      let (n, e, size, top, kept) = history_newest older in
      elim (Bool-cases (ltb 100 (length (history older)))) [
        | inl cut ↦ (
          91,
          rw cut (ap (◌∷◌ evt) (ap (take 90) e ∙ take-take 90 n older (ground (arith, cut, size)))),
          rw cut (ap suc (length-take 90 (history older) (ground (arith, cut)))),
          omega arith,
          inr (omega arith),
        )
        | inr whole ↦ (
          suc n,
          rw whole (ap (◌∷◌ evt) e),
          rw whole (ap suc size),
          ground (arith, whole, size),
          elim kept [ inl all ↦ inl (ap suc all) | inr most ↦ inr (omega (arith, most)) ],
        )
      ]
