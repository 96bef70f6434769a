-- ===== src/Codec/Stream/Delivery.antt =====
-- Packets over a stream, from one peer to another.
use vilan_peer.Base.{
  ℕ, ◌+◌, ◌≤◌, ◌<◌, ◌≡◌, refl, ap, ◌∙◌, arith, Bool, true, false, List, [], ◌∷◌, ◌++◌, append_assoc,
  append-nil, length, take, drop, take-drop, All, some, ◌==◌,
}
use mathlib.Core.List.{map}
use vilan_peer.Model.Wire.{DataFrame}
use vilan_peer.Crypto.{Ciphers}
use vilan_peer.Crypto.RoundTrip.{IsCipher}
use vilan_peer.Runtime.State.{Runtime, Crypt, not_connected}
use vilan_peer.Runtime.Auth.{set_stats}
use vilan_peer.Deframer.{no_pending, went, dealt}
use vilan_peer.Deframer.Headers.{sent, Fits, head_of}
use vilan_peer.Deframer.Stream.{flatten, run, run_on, feed, feed-run}
use vilan_peer.Codec.{
  pack_length, Proto, Inbound, data_frame, data_out, handle_write, passed, read_body,
}
use vilan_peer.Codec.EndToEnd.{
  IsPacket, IsProto, framed_packet, set_stats-crypt, set_stats-not_connected,
}
use vilan_peer.Codec.Delivery.{IsUsable, usable_CryptsBack}
use vilan_peer.Codec.Stream.{hand_on, pass_on, write_each}

-- The bytes of a stream as reads of the given lengths, and one of what is left.
abbrev pub pieces : List ℕ → List ℕ → List (List ℕ)
pieces [] bytes = bytes ∷ []
pieces (n ∷ ns) bytes = take n bytes ∷ pieces ns (drop n bytes)

flatten-pieces : (ns bytes : List ℕ) → flatten (pieces ns bytes) ≡ bytes
flatten-pieces [] bytes = rw append-nil
flatten-pieces (n ∷ ns) bytes =
    ap (λ t. take n bytes ++ t) (flatten-pieces ns (drop n bytes)) ∙ take-drop n bytes

-- A packet whose payload is neither empty nor longer than 1979 bytes.
abbrev pub IsSendable : DataFrame → Type 0
IsSendable m = IsPacket m × (0 < length m.payload) × (length m.payload + 69 ≤ pack_length)

-- A peer that is connected and uses a cipher.
abbrev pub IsReady : Crypt → Runtime → Type 0
IsReady crypt r = (not_connected r ≡ false) × (r.crypt ≡ some crypt)

set_stats-IsReady :
    (crypt : Crypt) (n : ℕ) (rx p2p : Bool) (r : Runtime)
    → IsReady crypt r
    → IsReady crypt (set_stats n rx p2p r)
set_stats-IsReady crypt n rx p2p r (on, same) =
    (set_stats-not_connected n rx p2p r ∙ on, set_stats-crypt n rx p2p r ∙ same)

module _ (c : Ciphers) (proto : Proto) (crypt : Crypt) (pwd : List ℕ) (laws : IsCipher c)
    (proto_laws : IsProto proto) (usable : IsUsable crypt pwd) where
  hand_on-body :
      (rest : List ℕ) (receiver receiver' : Runtime) (out : List Inbound) (m : DataFrame)
      → read_body c proto (144 ∷ 3 ∷ rest) receiver ≡ (receiver', passed (data_frame m))
      → hand_on c proto (144 ∷ 3 ∷ rest) (receiver, out)
        ≡ went (receiver', out ++ (data_frame m ∷ []))
  unfolding hand_on
  hand_on-body rest receiver receiver' out m e = ap (pass_on out) e

  write_each-first :
      (m : DataFrame) (ms : List DataFrame) (sender sender' : Runtime) (bytes more : List ℕ)
      → handle_write c proto (data_out m) sender ≡ (sender', some bytes)
      → (write_each c proto ms sender').1 ≡ some more
      → (write_each c proto (m ∷ ms) sender).1 ≡ some (bytes ++ more)
  unfolding write_each
  write_each-first m ms sender sender' bytes more e k = rw e (rw k refl)

  -- The frames on the wire, and what the receiver makes of them.
  delivered_each :
      (ms : List DataFrame) (sender receiver : Runtime) (out : List Inbound)
      → All IsSendable ms
      → IsReady crypt sender
      → IsReady crypt receiver
      → (ds : List (List ℕ)) × (receiver' : Runtime) × ((write_each c proto ms sender).1
          ≡ some (sent ds))
        × All Fits ds
        × (run (hand_on c proto) ds (receiver, out) ≡ some (receiver', out ++ map data_frame ms))
  unfolding write_each
  delivered_each [] sender receiver out fine s r = ([], receiver, refl, tt, rw append-nil)
  delivered_each (m ∷ ms) sender receiver out ((packet, some_text, room), fine) s r =
      let back = usable_CryptsBack c laws m.payload pwd (omega arith) crypt usable in
      let (rest, n, written, read, short) =
        framed_packet c proto proto_laws crypt m 16 packet some_text (omega arith) back sender
          receiver s.0 r.0 s.1 r.1 in
      let body : List ℕ = 144 ∷ 3 ∷ rest in
      let sender' : Runtime = set_stats n false (m.token == 0) sender in
      let receiver1 : Runtime = set_stats n true (m.token == 0) receiver in
      let (ds, receiver', wrote, fit, ran) =
        delivered_each ms sender' receiver1 (out ++ (data_frame m ∷ [])) fine
          (set_stats-IsReady crypt n false (m.token == 0) sender s)
          (set_stats-IsReady crypt n true (m.token == 0) receiver r) in
      (
        body ∷ ds,
        receiver',
        write_each-first m ms sender sender' (head_of body ++ body) (sent ds) written wrote
            ∙ ap some (append_assoc (head_of body) body (sent ds)),
        ((omega arith, omega arith), fit),
        ap (run_on (hand_on c proto) (run (hand_on c proto) ds))
              (hand_on-body rest receiver receiver1 out m read)
            ∙ ran
            ∙ ap (λ t. some (receiver', t))
                (append_assoc out (data_frame m ∷ []) (map data_frame ms)),
      )

-- Two connected peers that use the same cipher and a password that it can use exchange packets over a
-- stream: all packets that one of them writes are written, and however their bytes are cut into reads, the
-- other one passes on the same packets, in the same order, and ends with an empty buffer. The payloads
-- have 1 to 1979 bytes; protobuf and the block ciphers invert themselves.
pub feed-write_each :
    (c : Ciphers) (proto : Proto) (crypt : Crypt) (pwd : List ℕ) (ms : List DataFrame)
    (cuts : List ℕ) (sender receiver : Runtime)
    → IsCipher c
    → IsProto proto
    → IsUsable crypt pwd
    → All IsSendable ms
    → IsReady crypt sender
    → IsReady crypt receiver
    → (bytes : List ℕ) × (receiver' : Runtime) × ((write_each c proto ms sender).1 ≡ some bytes)
      × (feed (hand_on c proto) (pieces cuts bytes) no_pending (receiver, [])
          ≡ dealt no_pending (receiver', map data_frame ms))
feed-write_each c proto crypt pwd ms cuts sender receiver laws proto_laws usable fine s r =
    let (ds, receiver', wrote, fit, ran) =
      delivered_each c proto crypt pwd laws proto_laws usable ms sender receiver [] fine s r in
    (
      sent ds,
      receiver',
      wrote,
      feed-run (hand_on c proto) ds (pieces cuts (sent ds)) (receiver, [])
          (receiver', map data_frame ms) fit (flatten-pieces cuts (sent ds)) ran,
    )
