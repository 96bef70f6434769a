-- ===== src/Deframer/Total.antt =====
-- The stream reader on any input: it comes back, and what an oversized header does to it.
use vilan_peer.Base.{
  ℕ, zero, suc, ◌≤◌, ◌<◌, ◌≡◌, refl, arith, ℤ, pos, negsuc, List, [], ◌∷◌, ◌++◌, append_assoc,
  append-nil, length, take, drop, ltb, ◌==◌, if◌then◌else◌, length-drop, Bool, true, false, ltb→lt,
}
use vilan_peer.Varint.{uvarint32}
use vilan_peer.Varint.Decode.{uvarint32-append}
use vilan_peer.Deframer.{
  max_stream_frame, Header, incomplete, overflow, header, read_header, header_of, Pending,
  no_pending, Handed, went, panicked, Dealt, dealt, deal, read_and_deal, read_stream,
}
use vilan_peer.Deframer.Stream.{flatten, feed}

header_of_shrinks :
    (buffer : List ℕ) (n : ℕ) (num : ℤ) (m : ℕ) (rest : List ℕ)
    → header_of buffer n num ≡ header m rest
    → length rest ≤ length buffer
header_of_shrinks buffer n (pos num) m rest e = ground (arith, length-drop num buffer)
header_of_shrinks buffer n (negsuc num) m rest e = ground arith

read_header_shrinks :
    (buffer : List ℕ) (m : ℕ) (rest : List ℕ)
    → read_header buffer ≡ header m rest
    → length rest ≤ length buffer
unfolding read_header
read_header_shrinks buffer m rest e =
    header_of_shrinks buffer (uvarint32 buffer).0 (uvarint32 buffer).1 m rest e

wedged :
    (buffer : List ℕ) (n num : ℕ)
    → uvarint32 buffer ≡ (n, pos (suc num))
    → max_stream_frame < n
    → read_header buffer ≡ incomplete
unfolding read_header
wedged buffer n num e h = rw e (ground arith)

-- A frame without bytes panics, since the first two bytes are looked at.
abbrev pub PanicsOnNil : {S : Type 0} → (List ℕ → S → Handed S) → Type 0
PanicsOnNil {S} hand = (s : S) → (s' : S) × (hand [] s ≡ panicked s')

module _ {S : Type 0} (hand : List ℕ → S → Handed S) where
  abbrev pub Returns : Dealt S → Type 0
  Returns r = (p : Pending) × (s : S) × (r ≡ dealt p s)

  done : (p : Pending) (s : S) → Returns (dealt p s)
  done p s = (p, s, refl)

  -- A rule for each way in which the reader branches.
  Returns-if :
      (b : Bool) (r r' : Dealt S)
      → (b ≡ true → Returns r)
      → (b ≡ false → Returns r')
      → Returns (if b then r else r')
  Returns-if true r r' h h' = h refl
  Returns-if false r r' h h' = h' refl

  Returns-last :
      (h : Handed S)
      → Returns (elim h [ went s ↦ dealt no_pending s | panicked s ↦ dealt no_pending s ])
  Returns-last (went s) = done no_pending s
  Returns-last (panicked s) = done no_pending s

  Returns-handed :
      (h : Handed S) (f : S → Dealt S)
      → ((s : S) → h ≡ went s → Returns (f s))
      → Returns (elim h [ panicked s ↦ dealt no_pending s | went s ↦ f s ])
  Returns-handed (went s) f k = k s refl
  Returns-handed (panicked s) f k = done no_pending s

  Returns-header :
      (hd : Header) (p : Pending) (s : S) (f : ℕ → List ℕ → Dealt S)
      → ((n : ℕ) (rest : List ℕ) → hd ≡ header n rest → Returns (f n rest))
      → Returns (elim hd [
        | incomplete ↦ dealt p s
        | overflow ↦ dealt no_pending s
        | header n rest ↦ f n rest
      ])
  Returns-header incomplete p s f h = done p s
  Returns-header overflow p s f h = done no_pending s
  Returns-header (header n rest) p s f h = h n rest refl

  module _ (nil : PanicsOnNil hand) where
    some_frame : (n : ℕ) (buffer : List ℕ) (s s' : S) → hand (take n buffer) s ≡ went s' → 1 ≤ n
    some_frame zero buffer s s' e = let (t, k) = nil s in cc
    some_frame (suc n) buffer s s' e = omega arith

    deal_total :
        (fuel n : ℕ) (buffer : List ℕ) (s : S)
        → length buffer < fuel
        → Returns (deal hand fuel n buffer s)
    unfolding deal
    deal_total zero n buffer s h = absurd (omega arith)
    deal_total (suc fuel) n buffer s h =
        Returns-if (length buffer == n) _ _ (λ _. Returns-last (hand buffer s))
          (λ _.
            Returns-if (ltb n (length buffer)) _ _
              (λ more. Returns-handed (hand (take n buffer) s) _ (λ s' e.
                Returns-header (read_header (drop n buffer)) _ s' _ (λ m rest k.
                  deal_total fuel m rest s' (
                    omega (
                      arith,
                      some_frame n buffer s s' e,
                      ltb→lt n (length buffer) more,
                      length-drop n buffer,
                      read_header_shrinks (drop n buffer) m rest k,
                    )))))
              (λ _. done (record { buffer = buffer; frame_length = n }) s))

    -- On any bytes the stream reader comes back, where a frame without bytes panics: its loop ends, and no
    -- panic leaves it.
    pub read_stream_total :
        (p : Pending) (chunk : List ℕ) (s : S) → Returns (read_stream hand p chunk s)
    unfolding read_stream read_and_deal
    read_stream_total p chunk s =
        Returns-if (p.frame_length == 0) _ _
          (λ _.
            Returns-header (read_header (p.buffer ++ chunk)) _ s _
              (λ n rest _. deal_total (suc (length rest)) n rest s (omega arith)))
          (λ _.
            deal_total (suc (length (p.buffer ++ chunk))) p.frame_length (p.buffer ++ chunk) s
              (omega arith))

  stays :
      (buffer chunk : List ℕ) (n num : ℕ) (s : S)
      → uvarint32 (buffer ++ chunk) ≡ (n, pos (suc num))
      → max_stream_frame < n
      → read_stream hand (record { buffer = buffer; frame_length = 0 }) chunk s
        ≡ dealt (record { buffer = buffer ++ chunk; frame_length = 0 }) s
  unfolding read_stream read_and_deal
  stays buffer chunk n num s e h = rw (wedged (buffer ++ chunk) n num e h)

  -- A header with a length over two megabytes wedges the stream reader: whatever comes in later is
  -- only added to the buffer, and no frame is dealt with any more.
  pub feed_oversized :
      (chunks : List (List ℕ)) (buffer : List ℕ) (n num : ℕ) (s : S)
      → uvarint32 buffer ≡ (n, pos (suc num))
      → max_stream_frame < n
      → feed hand chunks (record { buffer = buffer; frame_length = 0 }) s
        ≡ dealt (record { buffer = buffer ++ flatten chunks; frame_length = 0 }) s
  unfolding feed
  feed_oversized [] buffer n num s e h = rw append-nil
  feed_oversized (chunk ∷ chunks) buffer n num s e h =
      let (e', _) = uvarint32-append buffer chunk n num e in
      rw (stays buffer chunk n num s e' h, feed_oversized chunks (buffer ++ chunk) n num s e' h)
        (rw (append_assoc buffer chunk (flatten chunks)))
