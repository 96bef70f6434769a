-- ===== src/Runtime/Auth/Counters.antt =====
-- The traffic counters.
use vilan_peer.Base.{ℕ, ◌+◌, ◌%◌, ◌^◌, ◌≡◌, arith, Bool, if◌then◌else◌}
use vilan_peer.Model.Messages.{Statistics}
use vilan_peer.Runtime.State.{Runtime, not_connected}
use vilan_peer.Runtime.Auth.{set_stats}

abbrev pub total : Statistics → ℕ
total s = (s.trans_send + s.trans_receive + s.p2p_send + s.p2p_receive) % 2 ^ 64

abbrev pub received : Statistics → ℕ
received s = (s.trans_receive + s.p2p_receive) % 2 ^ 64

-- With a connection, counting a packet adds its size to all the traffic and, where the packet was
-- received, to the received traffic, modulo 2^64; without one nothing is counted.
pub set_stats-total :
    (size : ℕ) (rx p2p : Bool) (r : Runtime)
    → (total (set_stats size rx p2p r).stats
        ≡ (if not_connected r then total r.stats else (total r.stats + size) % 2 ^ 64))
      × (received (set_stats size rx p2p r).stats ≡ (
          if not_connected r
          then received r.stats
          else if rx
          then (received r.stats + size) % 2 ^ 64
          else received r.stats))
unfolding set_stats
set_stats-total size rx p2p r = (ground arith, ground arith)
