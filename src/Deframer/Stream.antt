-- ===== src/Deframer/Stream.antt =====
-- The stream reader against its contract: whatever the pieces in which the bytes of a sequence of
-- frames come in, those frames are dealt with, in order, and nothing else.
use vilan_peer.Base.{
  ℕ, zero, suc, ◌≤◌, ◌<◌, ◌≡◌, refl, ap, subst, ◌∙◌, arith, List, [], ◌∷◌, ◌++◌, append_assoc,
  append-nil, length, All, Option, none, some, inl, inr, ltb, ◌==◌, length-append,
  take-append_length, drop-append_length, ==-refl, true, false,
}
use vilan_peer.Deframer.{
  incomplete, header, read_header, Pending, no_pending, Handed, went, panicked, Dealt, dealt, stuck,
  deal, read_and_deal, read_stream,
}
use vilan_peer.Deframer.Headers.{
  append_split, sent, Fits, IsPartial, head_of, head_of-ne-nil, header_cases,
}

abbrev pub flatten {ℓ} : {A : Type ℓ} → List (List A) → List A
flatten [] = []
flatten (xs ∷ xss) = xs ++ flatten xss

IsPartial-nil : (ds : List (List ℕ)) → All Fits ds → IsPartial [] ds
IsPartial-nil [] h = refl
IsPartial-nil (d ∷ ds) (h, hs) = head_cons (head_of d) (head_of-ne-nil d h)
  where
    head_cons : (xs : List ℕ) → 1 ≤ length xs → (y : ℕ) × (back : List ℕ) × (xs ≡ y ∷ back)
    head_cons [] k = absurd (omega arith)
    head_cons (x ∷ xs) k = (x, xs, refl)

-- `ds` are the frames that are not yet dealt with, and `todo` their bytes that have not come in.
data Owes (p : Pending) (todo : List ℕ) (ds : List (List ℕ)) : Type 0 where
  between : p.frame_length ≡ 0 → p.buffer ++ todo ≡ sent ds → IsPartial p.buffer ds → Owes p todo ds
  within :
      (d : List ℕ) (rest : List (List ℕ))
      → ds ≡ d ∷ rest
      → p.frame_length ≡ length d
      → p.buffer ++ todo ≡ d ++ sent rest
      → length p.buffer < length d
      → Owes p todo ds

module _ {S : Type 0} (hand : List ℕ → S → Handed S) where
  abbrev pub run_on : (S → Option S) → Handed S → Option S
  run_on rest (went s) = rest s
  run_on rest (panicked s) = none

  -- The frames, one after the other; `none` where one panics.
  abbrev pub run : List (List ℕ) → S → Option S
  run [] s = some s
  run (d ∷ ds) s = run_on (run ds) (hand d s)

  first_went :
      (h : Handed S) (rest : S → Option S) (end : S)
      → run_on rest h ≡ some end
      → (s' : S) × (h ≡ went s') × (rest s' ≡ some end)
  first_went (went s) rest end e = (s, refl, e)
  first_went (panicked s) rest end e = cc

  -- The four ways of one round of `deal`.
  module _ (fuel : ℕ) (s : S) where
    deal_short :
        (n : ℕ) (buffer : List ℕ)
        → length buffer < n
        → deal hand (suc fuel) n buffer s ≡ dealt (record { buffer = buffer; frame_length = n }) s
    unfolding deal
    deal_short n buffer h = ground arith

    deal_whole :
        (d : List ℕ) (s' : S)
        → hand d s ≡ went s'
        → deal hand (suc fuel) (length d) d s ≡ dealt no_pending s'
    unfolding deal
    deal_whole d s' e = rw (==-refl (length d), e)

    module _ (d ws : List ℕ) (s' : S) (e : hand d s ≡ went s') (more : 0 < length ws) where
      longer : ((length (d ++ ws) == length d) ≡ false) × (ltb (length d) (length (d ++ ws)) ≡ true)
      longer = ground (arith, length-append d ws)

      deal_incomplete :
          read_header ws ≡ incomplete
          → deal hand (suc fuel) (length d) (d ++ ws) s
            ≡ dealt (record { buffer = ws; frame_length = 0 }) s'
      unfolding deal
      deal_incomplete k =
          rw (longer.0, longer.1, take-append_length d ws, e)
            (rw (drop-append_length d ws, k) (rw (drop-append_length d ws)))

      deal_next :
          (n : ℕ) (rest : List ℕ)
          → read_header ws ≡ header n rest
          → deal hand (suc fuel) (length d) (d ++ ws) s ≡ deal hand fuel n rest s'
      unfolding deal
      deal_next n rest k =
          rw (longer.0, longer.1, take-append_length d ws, e) (rw (drop-append_length d ws, k))

  -- A run of the reader that owes the rest, and has dealt with what it does not owe.
  abbrev Settles : List ℕ → S → Dealt S → Type 0
  Settles todo end r =
      (p : Pending) × (s' : S) × (rest : List (List ℕ)) × (r ≡ dealt p s')
      × Owes p todo rest
      × All Fits rest
      × (run rest s' ≡ some end)

  abbrev DealSettles : ℕ → S → Type 0
  DealSettles fuel end =
      (d buffer todo : List ℕ) (ds : List (List ℕ)) (s : S)
      → length buffer < fuel
      → All Fits (d ∷ ds)
      → buffer ++ todo ≡ d ++ sent ds
      → run (d ∷ ds) s ≡ some end
      → Settles todo end (deal hand fuel (length d) buffer s)

  deal_behind-Settles :
      (fuel : ℕ) (d ws todo : List ℕ) (ds : List (List ℕ)) (s end : S)
      → DealSettles fuel end
      → length ws < fuel
      → All Fits (d ∷ ds)
      → ws ++ todo ≡ sent ds
      → run (d ∷ ds) s ≡ some end
      → Settles todo end (deal hand (suc fuel) (length d) (d ++ ws) s)
  deal_behind-Settles fuel d [] todo ds s end ih f (h, hs) q ends =
      let (s', e, ends') = first_went (hand d s) (run ds) end ends in
      (
        no_pending,
        s',
        ds,
        rw (append-nil d) (deal_whole fuel s d s' e),
        between refl q (IsPartial-nil ds hs),
        hs,
        ends',
      )
  deal_behind-Settles fuel d (w ∷ ws) todo ds s end ih f (h, hs) q ends =
      let (s', e, ends') = first_went (hand d s) (run ds) end ends in
      elim (header_cases (w ∷ ws) todo ds q hs) [
        | inl (k, part) ↦ (
          record { buffer = w ∷ ws; frame_length = 0 },
          s',
          ds,
          deal_incomplete fuel s d (w ∷ ws) s' e (omega arith) k,
          between refl q part,
          hs,
          ends',
        )
        | inr (d', ds', vs, k, head, q', shorter) ↦
            let (p, s'', rest, r, owes, hs', ends'') =
              ih d' vs todo ds' s' (omega arith) (subst (All Fits) k hs) q'
                (subst (λ xs. run xs s' ≡ some end) k ends') in
            (
              p,
              s'',
              rest,
              deal_next fuel s d (w ∷ ws) s' e (omega arith) (length d') vs head ∙ r,
              owes,
              hs',
              ends'',
            )
      ]

  deal-Settles : (fuel : ℕ) (end : S) → DealSettles fuel end
  deal-Settles zero end d buffer todo ds s f hs e ends = absurd (omega arith)
  deal-Settles (suc fuel) end d buffer todo ds s f hs e ends =
      elim (append_split buffer todo d (sent ds) e) [
        | inl (y, back, p, q) ↦
            let short : length buffer < length d =
              omega (arith, ap length p, length-append buffer (y ∷ back)) in
            (
              record { buffer = buffer; frame_length = length d },
              s,
              d ∷ ds,
              deal_short fuel s (length d) buffer short,
              within d ds refl refl e short,
              hs,
              ends,
            )
        | inr (ws, p, q) ↦ rw p (
            deal_behind-Settles fuel d ws todo ds s end (deal-Settles fuel end)
              (omega (arith, ap length p, length-append d ws, hs.0.0)) hs q ends)
      ]

  -- Reading more bytes of what the reader owes.
  read_stream-Settles :
      (p : Pending) (chunk todo : List ℕ) (ds : List (List ℕ)) (s end : S)
      → All Fits ds
      → Owes p (chunk ++ todo) ds
      → run ds s ≡ some end
      → Settles todo end (read_stream hand p chunk s)
  unfolding read_stream read_and_deal
  read_stream-Settles p chunk todo ds s end hs (between z e part) ends =
      elim (header_cases (p.buffer ++ chunk) todo ds (append_assoc p.buffer chunk todo ∙ e) hs) [
        | inl (inc, part') ↦ (
          record { buffer = p.buffer ++ chunk; frame_length = 0 },
          s,
          ds,
          rw (z, inc),
          between refl (append_assoc p.buffer chunk todo ∙ e) part',
          hs,
          ends,
        )
        | inr (d, rest, ws, e', head, q, shorter) ↦
            rw (z, head)
              (deal-Settles (suc (length ws)) end d ws todo rest s (omega arith)
                (subst (All Fits) e' hs) q (subst (λ xs. run xs s ≡ some end) e' ends))
      ]
  read_stream-Settles p chunk todo ds s end hs (within d rest eq n e short) ends =
      let hs' = subst (All Fits) eq hs in
      let skip : (p.frame_length == 0) ≡ false = ground (arith, hs'.0.0) in
      rw (skip, n)
        (deal-Settles (suc (length (p.buffer ++ chunk))) end d (p.buffer ++ chunk) todo rest s
          (omega arith) hs' (append_assoc p.buffer chunk todo ∙ e)
          (subst (λ xs. run xs s ≡ some end) eq ends))

  abbrev pub feed_on : (Pending → S → Dealt S) → Dealt S → Dealt S
  feed_on rest (dealt p s) = rest p s
  feed_on rest stuck = stuck

  -- The reader fed piece by piece.
  unfoldable pub feed : List (List ℕ) → Pending → S → Dealt S
  feed [] p s = dealt p s
  feed (chunk ∷ chunks) p s = feed_on (feed chunks) (read_stream hand p chunk s)

  settled : (p : Pending) (ds : List (List ℕ)) → Owes p [] ds → (p ≡ no_pending) × (ds ≡ [])
  settled p [] (between z e part) = (ground arith, refl)
  settled p (d ∷ ds) (between z e (y, back, k)) = absurd (
      omega (
        arith,
        ap length e,
        ap length k,
        length-append p.buffer [],
        length-append (head_of d) (d ++ sent ds),
        length-append p.buffer (y ∷ back),
      ))
  settled p ds (within d rest eq n e short) =
      absurd (omega (arith, ap length e, length-append p.buffer [], length-append d (sent rest)))

  feed-Owes :
      (chunks : List (List ℕ)) (p : Pending) (ds : List (List ℕ)) (s end : S)
      → All Fits ds
      → Owes p (flatten chunks) ds
      → run ds s ≡ some end
      → feed chunks p s ≡ dealt no_pending end
  unfolding feed
  feed-Owes [] p ds s end hs owes ends =
      let (e, none_left) = settled p ds owes in
      let last : run [] s ≡ some end = subst (λ xs. run xs s ≡ some end) none_left ends in rw e (cc)
  feed-Owes (chunk ∷ chunks) p ds s end hs owes ends =
      let (p', s', rest, r, owes', hs', ends') =
        read_stream-Settles p chunk (flatten chunks) ds s end hs owes ends in
      rw r (feed-Owes chunks p' rest s' end hs' owes' ends')

  -- However the bytes of a sequence of frames of one byte up to two megabytes are cut into reads: where
  -- dealing with those frames one after the other leads to a state without a panic, the stream reader comes
  -- to that state, and ends with an empty buffer.
  pub feed-run :
      (ds chunks : List (List ℕ)) (s end : S)
      → All Fits ds
      → flatten chunks ≡ sent ds
      → run ds s ≡ some end
      → feed chunks no_pending s ≡ dealt no_pending end
  feed-run ds chunks s end hs e ends =
      feed-Owes chunks no_pending ds s end hs (between refl e (IsPartial-nil ds hs)) ends
