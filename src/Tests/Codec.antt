-- ===== src/Tests/Codec.antt =====
-- Headers, frames and addresses: netty/utils/binary.go, serial/protocol/protobuf.go and
-- common/utils.go on concrete inputs.
use vilan_peer.Base.{ℕ, ◌≡◌, refl, arith, List, [], ◌∷◌, ◌++◌}
use vilan_peer.Base.{Option, some, pos, All}
use vilan_peer.Base.Text.{codes, decimal}
use vilan_peer.Varint.{put_uvarint32, uvarint32, uvarint32_loop}
use vilan_peer.Varint.RoundTrip.{uvarint32-put_uvarint32}
use vilan_peer.Address.{ip_v4_to_uint32, uint32_to_ip_v4}
use vilan_peer.Address.RoundTrip.{ip_v4_to_uint32-uint32_to_ip_v4}
use vilan_peer.Deframer.{Pending, no_pending, dealt}
use vilan_peer.Deframer.Headers.{sent}
use vilan_peer.Deframer.Stream.{flatten, feed}
use vilan_peer.Deframer.Total.{feed_oversized}
use vilan_peer.Framing.{Message, read_tcp, hand_over}
use vilan_peer.Framing.Stream.{feed-sent, all_messages, IsFrame}
use vilan_peer.Framing.Total.{read_tcp_total}

put_300 : put_uvarint32 5 300 ≡ some (0xac ∷ 0x02 ∷ [])
unfolding put_uvarint32
put_300 = refl

put_max : put_uvarint32 5 0xffff_ffff ≡ some (0xff ∷ 0xff ∷ 0xff ∷ 0xff ∷ 0x0f ∷ [])
unfolding put_uvarint32
put_max = refl

read_300 : uvarint32 (0xac ∷ 0x02 ∷ []) ≡ (300, pos 2)
unfolding uvarint32 uvarint32_loop
read_300 = refl

uvarint32-put_uvarint32_example : uvarint32 ((0xac ∷ 0x02 ∷ []) ++ (7 ∷ [])) ≡ (300, pos 2)
uvarint32-put_uvarint32_example =
    uvarint32-put_uvarint32 300 (0xac ∷ 0x02 ∷ []) (7 ∷ []) (omega arith) put_300

ip_v4_to_uint32-uint32_to_ip_v4_example :
    ip_v4_to_uint32 (uint32_to_ip_v4 0xc0a80164) ≡ some 0xc0a80164
ip_v4_to_uint32-uint32_to_ip_v4_example = ip_v4_to_uint32-uint32_to_ip_v4 0xc0a80164 (omega arith)

printed : uint32_to_ip_v4 0xc0a80164 ≡ codes "192.168.1.100"
unfolding uint32_to_ip_v4 decimal
printed = refl

-- Frames are handed over undecoded.
abbrev raw : List ℕ → Option (List ℕ)
raw d = some d

abbrev two_frames : List (List ℕ)
two_frames = (1 ∷ 2 ∷ 3 ∷ []) ∷ (7 ∷ []) ∷ []

-- The five bytes of the two frames, cut inside the first one and inside the second header.
abbrev three_reads : List (List ℕ)
three_reads = (3 ∷ 1 ∷ []) ∷ (2 ∷ 3 ∷ 1 ∷ []) ∷ (7 ∷ []) ∷ []

two_frames-sent : flatten three_reads ≡ sent two_frames
unfolding put_uvarint32
two_frames-sent = refl

two_frames-IsFrame : All IsFrame two_frames
two_frames-IsFrame =
    (((omega arith, omega arith), λ e. cc), (((omega arith, omega arith), λ e. grind arith), tt))

feed-sent_example :
    feed (hand_over raw raw) three_reads no_pending []
    ≡ dealt no_pending (all_messages raw raw two_frames)
feed-sent_example = feed-sent raw raw two_frames three_reads two_frames-IsFrame two_frames-sent

read_tcp_total_example :
    (p : Pending) × (ms : List (Message (List ℕ) (List ℕ))) × (read_tcp raw raw no_pending
        (0 ∷ 9 ∷ [])
        []
      ≡ dealt p ms)
read_tcp_total_example = read_tcp_total raw raw no_pending (0 ∷ 9 ∷ []) []

-- 0x80 0x80 0x80 0x02 is the length 4194304.
four_megabytes : uvarint32 (0x80 ∷ 0x80 ∷ 0x80 ∷ 0x02 ∷ []) ≡ (4194304, pos 4)
unfolding uvarint32 uvarint32_loop
four_megabytes = refl

feed_oversized_example :
    feed
      (hand_over raw raw)
      two_frames
      (record { buffer = 0x80 ∷ 0x80 ∷ 0x80 ∷ 0x02 ∷ []; frame_length = 0 })
      []
    ≡ dealt
        (record { buffer = 0x80 ∷ 0x80 ∷ 0x80 ∷ 0x02 ∷ 1 ∷ 2 ∷ 3 ∷ 7 ∷ []; frame_length = 0 })
        []
feed_oversized_example =
    feed_oversized (hand_over raw raw) two_frames (0x80 ∷ 0x80 ∷ 0x80 ∷ 0x02 ∷ []) 4194304 3 []
      four_megabytes (omega arith)
