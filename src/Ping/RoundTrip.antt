-- ===== src/Ping/RoundTrip.antt =====
-- Marshal and parseICMPMessage on echo messages.
use vilan_peer.Base.{
  ℕ, length, ◌==◌, ◌+◌, ◌*◌, ◌/◌, ◌%◌, ◌<◌, ◌≡◌, refl, arith, Bool-cases, inl, inr, true, false,
  ◌∷◌, some,
}
use vilan_peer.Ping.{
  IcmpEcho, IcmpMessage, marshal, marshal_echo, is_icmpv6, is_echo, parse_icmp_message,
  parse_icmp_echo, parsed,
}

two_bytes : (n : ℕ) → n < 65536 → n / 256 % 256 * 256 + n % 256 ≡ n
two_bytes n h = omega arith

parse_icmp_echo-marshal_echo :
    (p : IcmpEcho) → p.id < 65536 → p.seq < 65536 → parse_icmp_echo (marshal_echo p) ≡ parsed p
unfolding parse_icmp_echo marshal_echo
parse_icmp_echo-marshal_echo p i s = rw (two_bytes p.id i, two_bytes p.seq s) refl

parse_whole :
    (kind code high low : ℕ) (p : IcmpEcho)
    → is_echo kind ≡ true
    → p.id < 65536
    → p.seq < 65536
    → parse_icmp_message (kind ∷ code ∷ high ∷ low ∷ marshal_echo p)
      ≡ parsed (record { kind = kind; code = code; checksum = high * 256 + low; body = some p })
unfolding parse_icmp_message
parse_whole kind code high low p echo i s =
    rw (filled p, echo, parse_icmp_echo-marshal_echo p i s) refl
  where
    filled : (p : IcmpEcho) → (length (marshal_echo p) == 0) ≡ false
    filled p = unfold marshal_echo in ground arith

echo_byte : (kind : ℕ) → is_echo kind ≡ true → kind % 256 ≡ kind
echo_byte kind echo = ground arith

parse_back :
    (kind code high low : ℕ) (p : IcmpEcho)
    → is_echo kind ≡ true
    → p.id < 65536
    → p.seq < 65536
    → (sum : ℕ) × (parse_icmp_message (kind ∷ code ∷ high ∷ low ∷ marshal_echo p)
        ≡ parsed (record { kind = kind; code = code; checksum = sum; body = some p }))
parse_back kind code high low p echo i s =
    (high * 256 + low, parse_whole kind code high low p echo i s)

-- parseICMPMessage gives back the type, the code and the body of an echo message that Marshal wrote, for a
-- code of one byte and an identifier and a sequence number of two.
pub parse_icmp_message-marshal :
    (m : IcmpMessage) (p : IcmpEcho)
    → m.body ≡ some p
    → is_echo m.kind ≡ true
    → m.code < 256
    → p.id < 65536
    → p.seq < 65536
    → (sum : ℕ) × (parse_icmp_message (marshal m) ≡ parsed (record m { checksum = sum }))
unfolding marshal
parse_icmp_message-marshal m p e echo c i s =
    let code : m.code % 256 ≡ m.code = omega arith in
    elim (Bool-cases (is_icmpv6 m.kind)) [
      | inl six ↦ rw (six, e, echo_byte m.kind echo, code) (parse_back m.kind m.code 0 0 p echo i s)
      | inr four ↦
          rw (four, e, echo_byte m.kind echo, code) (parse_back m.kind m.code _ _ p echo i s)
    ]
