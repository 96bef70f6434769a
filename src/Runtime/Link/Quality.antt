-- ===== src/Runtime/Link/Quality.antt =====
-- The quality of a Wi-Fi connection.
use vilan_peer.Base.{
  ℕ, ◌≡◌, ◌≤◌, ◌<◌, refl, ap, arith, pos, negsuc, true, ◌==◌, if◌then◌else◌, ltb, ==→eq,
}
use vilan_peer.Base.{le→ltb, lt→ltb, ◌∙◌}
use vilan_peer.Base.Bits.{holds_below, holds_below_at}
use vilan_peer.Runtime.Link.{signal_quality}

below_table :
    holds_below (λ n. signal_quality (negsuc n) == (if ltb n 30 then 100 else 0)) 120 ≡ true
unfolding holds_below signal_quality
below_table = refl

below : (n : ℕ) → n < 120 → signal_quality (negsuc n) ≡ (if ltb n 30 then 100 else 0)
below n lt = ==→eq _ _ (
    holds_below_at (λ n. signal_quality (negsuc n) == (if ltb n 30 then 100 else 0)) n 120 lt
      below_table)

above_table : holds_below (λ n. signal_quality (pos n) == 100) 60 ≡ true
unfolding holds_below signal_quality
above_table = refl

-- The division of getWiFiQuality is on integers: every signal from -120 dBm to -31 dBm has the
-- quality 0, and a signal from -30 dBm to 59 dBm has the quality 100. A `negsuc n` is -(n + 1).
pub signal_quality_steps :
    (n : ℕ)
    → (30 ≤ n → n < 120 → signal_quality (negsuc n) ≡ 0)
      × (n < 30 → signal_quality (negsuc n) ≡ 100)
      × (n < 60 → signal_quality (pos n) ≡ 100)
signal_quality_steps n = (
  (λ lo hi. below n hi ∙ ap (λ b. if b then 100 else 0) (le→ltb n 30 lo)),
  (λ lo. below n (omega arith) ∙ ap (λ b. if b then 100 else 0) (lt→ltb n 30 lo)),
  (λ hi. ==→eq _ _ (holds_below_at (λ n. signal_quality (pos n) == 100) n 60 hi above_table)),
)
