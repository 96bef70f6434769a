-- ===== src/Ping/Exchange.antt =====
-- What Pinger takes for an answer.
use vilan_peer.Base.{
  ℕ, ◌==◌, append_assoc, replicate, length-replicate, ltb, ap, sym, ◌∙◌, ◌%◌, ◌*◌, take_more,
  drop-append_length, length-append, ◌+◌, ◌≤◌, ◌≡◌, refl, arith, true, false, List, [], ◌∷◌, ◌++◌,
  Option, none, some, length, drop,
}
use vilan_peer.Ping.{
  parsed, ipv4_payload, parse_icmp_message, received, read_answer, answered, is_request, is_echo,
  ping,
}

-- What the first byte of an IPv4 header says of its length.
abbrev pub header_length : List ℕ → ℕ
header_length [] = 0
header_length (b ∷ _) = b % 16 * 4

ipv4_payload-append :
    (head body : List ℕ)
    → length head ≡ 20
    → header_length head ≡ 20
    → ipv4_payload (head ++ body) ≡ some body
unfolding ipv4_payload
ipv4_payload-append [] body n h = absurd (omega arith)
ipv4_payload-append (b ∷ head) body n h =
    let long : ltb (length (b ∷ head ++ body)) 20 ≡ false =
      ground (arith, length-append head body) in
    let whole : ltb (length (b ∷ head ++ body)) 20 ≡ false = long in
    rw (h, long)
      (ap some (ap (λ k. drop k (b ∷ head ++ body)) (sym n) ∙ drop-append_length (b ∷ head) body))

received_whole :
    (packet rb : List ℕ)
    → length packet ≤ length rb
    → received packet rb ≡ packet ++ drop (length packet) rb
received_whole packet rb h = rw (take_more (length rb) packet h) refl

parse_other :
    (kind code high low : ℕ) (rest : List ℕ)
    → is_echo kind ≡ false
    → parse_icmp_message (kind ∷ code ∷ high ∷ low ∷ rest)
      ≡ parsed (record { kind = kind; code = code; checksum = high * 256 + low; body = none })
unfolding parse_icmp_message
parse_other kind code high low [] e = refl
parse_other kind code high low (x ∷ rest) e =
    let more : (length (x ∷ rest) == 0) ≡ false = ground arith in rw (more, e) refl

other_request : (kind : ℕ) → is_echo kind ≡ false → is_request kind ≡ false
other_request kind e = ground arith

payload_received :
    (head body rb : List ℕ)
    → length head ≡ 20
    → header_length head ≡ 20
    → length body + 20 ≤ length rb
    → ipv4_payload (received (head ++ body) rb) ≡ some (body ++ drop (length (head ++ body)) rb)
payload_received head body rb n h room =
    ap ipv4_payload (
      received_whole (head ++ body) rb (omega (arith, length-append head body))
      ∙ append_assoc head body (drop (length (head ++ body)) rb))
    ∙ ipv4_payload-append head (body ++ drop (length (head ++ body)) rb) n h

read_answer_other :
    (kind code high low : ℕ) (head rest rb : List ℕ) (reads : List (Option (List ℕ)))
    → length head ≡ 20
    → header_length head ≡ 20
    → length rest + 24 ≤ length rb
    → is_echo kind ≡ false
    → read_answer (some (head ++ kind ∷ code ∷ high ∷ low ∷ rest) ∷ reads) rb ≡ answered
unfolding read_answer
read_answer_other kind code high low head rest rb reads n h room e = rw (
  payload_received head (kind ∷ code ∷ high ∷ low ∷ rest) rb n h (omega arith),
  parse_other kind code high low
      (rest ++ drop (length (head ++ kind ∷ code ∷ high ∷ low ∷ rest)) rb) e,
  other_request kind e,
  read_answer,
)

-- Ping is content with any ICMP message of the host that is neither a request nor an echo answer, such as
-- one that says that the destination cannot be reached: it returns true on the first one that it reads.
-- The packet has an IPv4 header of 20 bytes and at most 68 bytes behind it.
pub ping_other :
    (kind code high low : ℕ) (head rest : List ℕ) (reads : List (Option (List ℕ)))
    → length head ≡ 20
    → header_length head ≡ 20
    → length rest ≤ 64
    → is_echo kind ≡ false
    → ping true true (some (head ++ kind ∷ code ∷ high ∷ low ∷ rest) ∷ reads) ≡ some true
unfolding ping
ping_other kind code high low head rest reads n h room e = rw (
  read_answer_other kind code high low head rest (replicate 88 0) reads n h
      (omega (arith, length-replicate {A = ℕ} 88 0)) e,
  ping,
)
