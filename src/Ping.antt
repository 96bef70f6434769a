-- ===== src/Ping.antt =====
-- common/ping.go: ICMP echo messages, and the exchange of one with a host. The integers of a message
-- are not negative; the socket is a list of what its reads come to.
pub mod Checksum
pub mod RoundTrip
pub mod Exchange
use Prim.Native.Nat.{bit_xor}
use vilan_peer.Base.{
  ℕ, ◌+◌, ◌-◌, ◌*◌, ◌/◌, ◌%◌, ◌^◌, Bool, ◌||◌, List, [], ◌∷◌, ◌++◌, Option, none, some, length,
  take, drop, replicate, ltb, ◌==◌, if◌then◌else◌,
}

-- icmpEcho
pub record IcmpEcho : Type 0 where
  pub id : ℕ
  pub seq : ℕ
  pub payload : List ℕ

-- icmpMessage, with a body that is an echo or nil
pub record IcmpMessage : Type 0 where
  pub kind : ℕ
  pub code : ℕ
  pub checksum : ℕ
  pub body : Option IcmpEcho

abbrev pub icmpv4_echo_request : ℕ
icmpv4_echo_request = 8

abbrev pub icmpv4_echo_reply : ℕ
icmpv4_echo_reply = 0

abbrev pub icmpv6_echo_request : ℕ
icmpv6_echo_request = 128

abbrev pub icmpv6_echo_reply : ℕ
icmpv6_echo_reply = 129

-- icmpEcho.Marshal
unfoldable pub marshal_echo : IcmpEcho → List ℕ
marshal_echo p = (p.id / 256 % 256) ∷ (p.id % 256) ∷ (p.seq / 256 % 256) ∷ (p.seq % 256) ∷ p.payload

abbrev pub marshal_body : Option IcmpEcho → List ℕ
marshal_body none = []
marshal_body (some p) = marshal_echo p

-- The loop of Marshal over the 16-bit words, and the odd byte behind it.
unfoldable pub sum_words : List ℕ → ℕ → ℕ
sum_words [] s = s
sum_words (a ∷ []) s = (s + a) % 2 ^ 32
sum_words (a ∷ b ∷ rest) s = sum_words rest ((s + (b * 256 + a)) % 2 ^ 32)

-- The two carries.
unfoldable pub folded : ℕ → ℕ
folded s = let s1 = (s / 2 ^ 16 + s % 2 ^ 16) % 2 ^ 32 in (s1 + s1 / 2 ^ 16) % 2 ^ 32

-- ^s
abbrev pub flipped : ℕ → ℕ
flipped s = 2 ^ 32 - 1 - s

abbrev pub with_checksum : ℕ → ℕ → List ℕ → ℕ → List ℕ
with_checksum kind code body s =
    kind ∷ code ∷ bit_xor 0 (flipped s % 256) ∷ bit_xor 0 (flipped s / 256 % 256) ∷ body

abbrev pub is_icmpv6 : ℕ → Bool
is_icmpv6 kind = kind == icmpv6_echo_request || kind == icmpv6_echo_reply

-- icmpMessage.Marshal; the Marshal of an echo has no error.
unfoldable pub marshal : IcmpMessage → List ℕ
marshal m =
    let kind = m.kind % 256 in
    let code = m.code % 256 in
    let body = marshal_body m.body in
    if is_icmpv6 m.kind
    then kind ∷ code ∷ 0 ∷ 0 ∷ body
    else with_checksum kind code body (folded (sum_words (kind ∷ code ∷ 0 ∷ 0 ∷ body) 0))

-- What the parsers come to.
pub data Parsed {ℓ} (A : Type ℓ) : Type ℓ where
  parsed : A → Parsed A
  too_short : Parsed A
  panicked : Parsed A

-- parseICMPEcho: it reads four bytes, whether they are there or not.
unfoldable pub parse_icmp_echo : List ℕ → Parsed IcmpEcho
parse_icmp_echo (a ∷ b ∷ c ∷ d ∷ payload) =
    parsed (record { id = a * 256 + b; seq = c * 256 + d; payload = payload })
parse_icmp_echo _ = panicked

abbrev pub is_request : ℕ → Bool
is_request kind = kind == icmpv4_echo_request || kind == icmpv6_echo_request

abbrev pub is_echo : ℕ → Bool
is_echo kind = is_request kind || (kind == icmpv4_echo_reply || kind == icmpv6_echo_reply)

abbrev pub with_body : IcmpMessage → Parsed IcmpEcho → Parsed IcmpMessage
with_body m (parsed p) = parsed (record m { body = some p })
with_body m too_short = too_short
with_body m panicked = panicked

-- parseICMPMessage
unfoldable pub parse_icmp_message : List ℕ → Parsed IcmpMessage
unfolding parse_icmp_echo
parse_icmp_message (kind ∷ code ∷ high ∷ low ∷ rest) =
    let m : IcmpMessage = record {
      kind = kind;
      code = code;
      checksum = high * 256 + low;
      body = none;
    } in
    if length rest == 0
    then parsed m
    else if is_echo kind
    then with_body m (parse_icmp_echo rest)
    else parsed m
parse_icmp_message _ = too_short

-- ipv4Payload; `none` is the panic of a header that is longer than the buffer.
unfoldable pub ipv4_payload : List ℕ → Option (List ℕ)
ipv4_payload [] = some []
ipv4_payload (b ∷ rest) =
    let bytes = b ∷ rest in
    let hdrlen = b % 16 * 4 in
    if ltb (length bytes) 20
    then some bytes
    else if ltb (length bytes) hdrlen
    then none
    else some (drop hdrlen bytes)

-- rb after Read has copied a packet into it.
abbrev pub received : List ℕ → List ℕ → List ℕ
received packet rb = let front = take (length rb) packet in front ++ drop (length front) rb

pub data Pinged : Type 0 where
  answered failed crashed : Pinged

abbrev pub after_parse : Parsed IcmpMessage → Pinged → Pinged
after_parse (parsed m) again = if is_request m.kind then again else answered
after_parse too_short again = failed
after_parse panicked again = crashed

-- The loop of Pinger over the reads, `none` for one that fails, as all do from the deadline on. The
-- buffer of a round is what the round before has left of it.
unfoldable pub read_answer : List (Option (List ℕ)) → List ℕ → Pinged
read_answer [] rb = failed
read_answer (none ∷ reads) rb = failed
read_answer (some packet ∷ reads) rb = elim (ipv4_payload (received packet rb)) [
  | none ↦ crashed
  | some rb' ↦ after_parse (parse_icmp_message rb') (read_answer reads rb')
]

-- "Go Go Gadget Ping!!!"
abbrev pub gadget : List ℕ
gadget =
    71 ∷ 111 ∷ 32 ∷ 71 ∷ 111 ∷ 32 ∷ 71 ∷ 97 ∷ 100 ∷ 103 ∷ 101 ∷ 116 ∷ 32 ∷ 80 ∷ 105 ∷ 110 ∷ 103 ∷ 33
    ∷ 33 ∷ 33 ∷ []

-- The request that Pinger writes.
abbrev pub request : IcmpMessage
request = record {
  kind = icmpv4_echo_request;
  code = 0;
  checksum = 0;
  body = some (record { id = 1; seq = 1; payload = gadget ++ (gadget ++ gadget) });
}

-- Pinger: whether it can dial and write, and its reads.
unfoldable pub pinger : Bool → Bool → List (Option (List ℕ)) → Pinged
unfolding marshal sum_words folded marshal_echo
pinger dials writes reads =
    if dials
    then if writes then read_answer reads (replicate (20 + length (marshal request)) 0) else failed
    else failed

-- Ping; a panic does not come back.
unfoldable pub ping : Bool → Bool → List (Option (List ℕ)) → Option Bool
unfolding pinger
ping dials writes reads = elim (pinger dials writes reads) [
  | crashed ↦ none
  | answered ↦ some Bool.true
  | failed ↦ some Bool.false
]
