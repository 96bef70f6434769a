-- ===== src/Address/Mask.antt =====
-- Prefix lengths and masks.
use vilan_peer.Base.{ℕ, ◌≤◌, ◌≡◌, refl, arith, ◌==◌, ==→eq, true}
use vilan_peer.Base.Bits.{holds_below, holds_below_at}
use vilan_peer.Address.{mask_bit_len, prefix_mask}

lengths_table : holds_below (λ n. mask_bit_len (prefix_mask n) == n) 33 ≡ true
unfolding holds_below mask_bit_len prefix_mask
lengths_table = refl

-- For every prefix length up to 32, the mask that the services compute from it has that length.
pub mask_bit_len-prefix_mask : (n : ℕ) → n ≤ 32 → mask_bit_len (prefix_mask n) ≡ n
mask_bit_len-prefix_mask n h =
    ==→eq _ _
      (holds_below_at (λ k. mask_bit_len (prefix_mask k) == k) n 33 (omega arith) lengths_table)
