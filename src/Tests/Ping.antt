-- ===== src/Tests/Ping.antt =====
-- common/ping.go on concrete messages.
use vilan_peer.Base.{ℕ, ◌%◌, ◌≡◌, refl, arith, true, List, [], ◌∷◌, ◌++◌, none, some, replicate}
use vilan_peer.Ping.{
  IcmpEcho, IcmpMessage, marshal, marshal_echo, sum_words, folded, parse_icmp_message, parsed, ping,
  icmpv4_echo_request,
}
use vilan_peer.Ping.Checksum.{words, marshal-checksum}
use vilan_peer.Ping.RoundTrip.{parse_icmp_message-marshal}
use vilan_peer.Ping.Exchange.{ping_other}

abbrev hello : IcmpEcho
hello = record { id = 0x1234; seq = 7; payload = 104 ∷ 105 ∷ 33 ∷ [] }

abbrev message : IcmpMessage
message = record { kind = icmpv4_echo_request; code = 0; checksum = 0; body = some hello }

message_bytes : marshal message ≡ 8 ∷ 0 ∷ 0x5c ∷ 0x5b ∷ 0x12 ∷ 0x34 ∷ 0 ∷ 7 ∷ 104 ∷ 105 ∷ 33 ∷ []
unfolding marshal marshal_echo sum_words folded
message_bytes = refl

marshal-checksum_example : words (marshal message) % 65535 ≡ 0
marshal-checksum_example = marshal-checksum message refl (omega arith) (omega arith)

parse_icmp_message-marshal_example :
    (sum : ℕ) × (parse_icmp_message (marshal message) ≡ parsed (record message { checksum = sum }))
parse_icmp_message-marshal_example =
    parse_icmp_message-marshal message hello refl refl (omega arith) (omega arith) (omega arith)

abbrev ip_header : List ℕ
ip_header = 0x45 ∷ replicate 19 0

-- The host says that the destination cannot be reached.
ping_other_example :
    ping true true (some (ip_header ++ 3 ∷ 1 ∷ 0xfc ∷ 0xfe ∷ replicate 4 0) ∷ none ∷ []) ≡ some true
ping_other_example =
    ping_other 3 1 0xfc 0xfe ip_header (replicate 4 0) (none ∷ []) refl refl (omega arith) refl
