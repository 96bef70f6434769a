-- ===== src/Deframer/Headers.antt =====
-- Which headers the stream reader sees in front of a sequence of frames that was cut anywhere.
use vilan_peer.Base.{ℕ, ◌≤◌, ◌<◌, ◌≡◌, refl, ap, ◌∙◌, arith}
use vilan_peer.Base.{List, [], ◌∷◌, ◌++◌, length, Option, none, some}
use vilan_peer.Base.{◌⊎◌, inl, inr, All, drop-append_length, length-append}
use vilan_peer.Varint.{put_uvarint32, uvarint32}
use vilan_peer.Varint.Encode.{put_uvarint32_total}
use vilan_peer.Varint.RoundTrip.{uvarint32-put_uvarint32, uvarint32_truncated}
use vilan_peer.Varint.{uvarint32_loop}
use vilan_peer.Deframer.{max_stream_frame, incomplete, header, read_header}

-- A cut of `us ++ vs` falls into `us`, or behind it.
pub append_split {ℓ} :
    {A : Type ℓ} (xs ys us vs : List A)
    → xs ++ ys ≡ us ++ vs
    → ((y : A) × (back : List A) × (us ≡ xs ++ (y ∷ back)) × (ys ≡ (y ∷ back) ++ vs))
      ⊎ ((ws : List A) × (xs ≡ us ++ ws) × (ws ++ ys ≡ vs))
append_split [] ys [] vs e = inr ([], refl, e)
append_split [] ys (u ∷ us) vs e = inl (u, us, refl, e)
append_split (x ∷ xs) ys [] vs e = inr (x ∷ xs, refl, e)
append_split (x ∷ xs) ys (u ∷ us) vs e = elim (append_split xs ys us vs (cc)) [
  | inl (y, back, p, q) ↦ inl (y, back, cc, q)
  | inr (ws, p, q) ↦ inr (ws, cc, q)
]

abbrev pub head_bytes : Option (List ℕ) → List ℕ
head_bytes none = []
head_bytes (some bs) = bs

-- The header that PutUvarint32 writes for a payload.
abbrev pub head_of : List ℕ → List ℕ
head_of d = head_bytes (put_uvarint32 5 (length d))

-- The bytes of a sequence of frames on the wire.
abbrev pub sent : List (List ℕ) → List ℕ
sent [] = []
sent (d ∷ ds) = head_of d ++ (d ++ sent ds)

abbrev pub Fits : List ℕ → Type 0
Fits d = (1 ≤ length d) × (length d ≤ max_stream_frame)

pub head_of-put : (d : List ℕ) → Fits d → put_uvarint32 5 (length d) ≡ some (head_of d)
head_of-put d h = let (bs, e, _, _, _) = put_uvarint32_total (length d) (omega arith) in rw e refl

pub head_of-ne-nil : (d : List ℕ) → Fits d → 1 ≤ length (head_of d)
head_of-ne-nil d h = let (bs, e, _, lo, _) = put_uvarint32_total (length d) (omega arith) in rw e lo

-- Where the buffer ends between two frames: in front of a header or inside one.
abbrev pub IsPartial : List ℕ → List (List ℕ) → Type 0
IsPartial buffer [] = buffer ≡ []
IsPartial buffer (d ∷ ds) = (y : ℕ) × (back : List ℕ) × (head_of d ≡ buffer ++ (y ∷ back))

read_header_partial :
    (d buffer : List ℕ) (y : ℕ) (back : List ℕ)
    → Fits d
    → head_of d ≡ buffer ++ (y ∷ back)
    → read_header buffer ≡ incomplete
unfolding read_header
read_header_partial d buffer y back h e =
    let (small, short) =
      uvarint32_truncated (length d) buffer y back (omega arith) (head_of-put d h ∙ ap some e) in
    rw small (ground arith)

read_header_whole : (d ws : List ℕ) → Fits d → read_header (head_of d ++ ws) ≡ header (length d) ws
unfolding read_header
read_header_whole d ws h =
    rw (uvarint32-put_uvarint32 (length d) (head_of d) ws (omega arith) (head_of-put d h))
      (ground (arith, head_of-ne-nil d h, drop-append_length (head_of d) ws))

nil_of_append {ℓ} : {A : Type ℓ} (xs ys : List A) → xs ++ ys ≡ [] → xs ≡ []
nil_of_append [] ys e = refl
nil_of_append (x ∷ xs) ys e = cc

read_header-nil : read_header [] ≡ incomplete
unfolding read_header uvarint32 uvarint32_loop
read_header-nil = refl

-- What the reader sees behind a frame: a part of the next header, or that header and more.
pub header_cases :
    (buffer todo : List ℕ) (ds : List (List ℕ))
    → buffer ++ todo ≡ sent ds
    → All Fits ds
    → ((read_header buffer ≡ incomplete) × IsPartial buffer ds)
      ⊎ ((d : List ℕ) × (rest : List (List ℕ)) × (ws : List ℕ) × (ds ≡ d ∷ rest)
          × (read_header buffer ≡ header (length d) ws)
          × (ws ++ todo ≡ d ++ sent rest)
          × (length ws < length buffer))
header_cases buffer todo [] e fits =
    let empty = nil_of_append buffer todo e in inl (rw empty read_header-nil, empty)
header_cases buffer todo (d ∷ ds) e (h, hs) =
    elim (append_split buffer todo (head_of d) (d ++ sent ds) e) [
      | inl (y, back, p, q) ↦ inl (read_header_partial d buffer y back h p, (y, back, p))
      | inr (ws, p, q) ↦ inr (
        d,
        ds,
        ws,
        refl,
        rw p (read_header_whole d ws h),
        q,
        omega (arith, ap length p, length-append (head_of d) ws, head_of-ne-nil d h),
      )
    ]
