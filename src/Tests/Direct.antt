-- ===== src/Tests/Direct.antt =====
-- A run of service/p2p_service.go from its start to a direct connection.
use vilan_peer.Base.{ℕ, ◌≡◌, ◌<◌, refl, arith, true, [], ◌∷◌, some, load, store}
use vilan_peer.Model.Wire.{DataFrame, P2pTrigger, P2pAck, p2p_try}
use vilan_peer.Address.{extract_addr_from_str, ip_v4_to_uint32}
use vilan_peer.Base.Text.{split, parse_int}
use vilan_peer.P2p.State.{P2p, emit, wrote_data}
use vilan_peer.P2p.Punch.{
  process_p2p_trigger, start_punch, new_punch_sock, punch_active, send_p2p_trigger,
  try_forward_message,
}
use vilan_peer.P2p.Connect.{process_p2p_ack, new_try_sock, p2p_success}
use vilan_peer.P2p.Check.{start}
use vilan_peer.P2p.Handler.{handle_active, handle_read, process_msg}
use vilan_peer.P2p.Sound.{IsSound}
use vilan_peer.P2p.Reachable.{
  fresh, IsReachable, here, next, starts, triggered, acknowledged, active, reads,
  IsReachable-IsSound, forward_each, emit_each, punch_opens, try_forward_message-IsReachable,
  try_forward_message-handle_read,
}
use vilan_peer.Tests.Peers.{at, direct, frame}

abbrev trigger : P2pTrigger
trigger = record { src_mac = 0xb2; dst_mac = 0xa1 }

abbrev ack : P2pAck
ack = record {
  peer_mac = 0xb2;
  valid = true;
  other_extern_sock = some (record { addr = 1; port = 2 });
}

abbrev try_from : ℕ → DataFrame
try_from mac = record { msg_type = p2p_try; src_mac = mac; dst_mac = 0xa1; token = 0; payload = [] }

-- The punch socket is context 0, on channel 6, and the try socket context 1, on channel 7.
abbrev asked : P2p
asked = (process_p2p_trigger (at 100) (some trigger) (start (at 100) fresh)).0

abbrev punched : P2p
punched = punch_active (at 100) 0 6 asked

abbrev tried : P2p
tried = handle_active (at 102) 1 7 (process_p2p_ack (at 101) (some ack) punched).0

abbrev connected : P2p
connected = (handle_read (at 103) 1 7 (some (try_from 0xb2)) tried).0

tried_mac : ((tried.peers 1).peer_mac ≡ 0xb2) × (1 < tried.next_ref)
unfolding start process_p2p_trigger process_p2p_ack handle_active start_punch new_punch_sock
    new_try_sock punch_active send_p2p_trigger load extract_addr_from_str ip_v4_to_uint32 split
    parse_int store
tried_mac = (refl, omega arith)

connected-IsReachable : IsReachable connected
connected-IsReachable =
    next
      (next
        (next
          (next (next (next here (starts (at 100))) (triggered (at 100) (some trigger)))
            (punch_opens (at 100) 0 6))
          (acknowledged (at 101) (some ack)))
        (active (at 102) 1 7))
      (reads (at 103) 1 7 (try_from 0xb2) tried_mac.0 tried_mac.1)

IsReachable-IsSound_example : IsSound connected
IsReachable-IsSound_example = IsReachable-IsSound connected-IsReachable

sends : (try_forward_message (at 104) 0xb2 frame connected).1 ≡ true
unfolding start process_p2p_trigger process_p2p_ack handle_active start_punch new_punch_sock
    new_try_sock punch_active send_p2p_trigger load extract_addr_from_str ip_v4_to_uint32 split
    parse_int try_forward_message handle_read process_msg p2p_success store
sends = refl

try_forward_message-IsReachable_example :
    (r : ℕ) × (channel : ℕ) × ((connected.peers r).peer_mac ≡ 0xb2)
    × ((connected.peers r).handler ≡ some channel)
    × ((try_forward_message (at 104) 0xb2 frame connected).0
        ≡ emit (wrote_data channel frame) connected)
try_forward_message-IsReachable_example =
    try_forward_message-IsReachable (at 104) 0xb2 frame connected connected-IsReachable sends

-- Peer 0xb2 is connected on channel 7, and sends a try under the MAC 0xc4.
try_forward_message-handle_read_example :
    let t = (handle_read (at 100) 0 7 (some (try_from 0xc4)) direct).0 in
    forward_each (at 101) 0xc4 (frame ∷ frame ∷ []) t ≡ emit_each 7 (frame ∷ frame ∷ []) t
unfolding load
try_forward_message-handle_read_example =
    try_forward_message-handle_read (at 100) (at 101) 0 7 (try_from 0xc4) (frame ∷ frame ∷ [])
      direct refl refl refl refl
