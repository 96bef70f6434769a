-- ===== src/Serial/Pairs/RoundTrip.antt =====
-- LoadComPairs on a listing of pairs.
use vilan_peer.Base.{
  ℕ, ◌<◌, ◌≤◌, ◌^◌, ◌≡◌, refl, ap, ◌∙◌, subst, arith, true, false, List, [], ◌∷◌, ◌++◌, Option,
  some, All, length, ◌==◌,
}
use vilan_peer.Base.Text.{
  codes, split, decimal, decimal-IsDigit, decimal-ne-nil, IsDigit, parse_uint_bits-decimal_16,
}
use vilan_peer.Serial.Pairs.{
  CommPair, ok, has_crlf, split_crlf, lines, trim_left, trim_right, trim, is_digit, leading_digits,
  first_digits, first_port, second_port, read_pairs, load_com_pairs,
}

-- A name of visible characters other than `=`.
abbrev pub IsNameChar : ℕ → Type 0
IsNameChar c = (32 < c) × ((c == 61) ≡ false)

-- A pair that the command can list: its number has 16 bits.
abbrev pub IsListable : CommPair → Type 0
IsListable p = (p.index < 2 ^ 16) × All IsNameChar p.com_a × All IsNameChar p.com_b

abbrev pub left_of : ℕ → ℕ → List ℕ
left_of tag i = codes "CNC" ++ (tag ∷ (decimal i ++ codes " PortName"))

abbrev pub line_of : ℕ → ℕ → List ℕ → List ℕ
line_of tag i name = codes "       " ++ (left_of tag i ++ (61 ∷ name))

abbrev pub with_crlf : List ℕ → List ℕ → List ℕ
with_crlf line rest = line ++ (13 ∷ 10 ∷ rest)

-- The listing: two lines for each pair, "       CNCA0 PortName=COM4" and "       CNCB0 PortName=COM5".
abbrev pub listing : List CommPair → List ℕ
listing [] = []
listing (p ∷ ps) =
    with_crlf (line_of b'A' p.index p.com_a) (with_crlf (line_of b'B' p.index p.com_b) (listing ps))

All-append {ℓ κ} :
    {A : Type ℓ} (P : A → Type κ) (xs ys : List A) → All P xs → All P ys → All P (xs ++ ys)
All-append P [] ys h k = k
All-append P (x ∷ xs) ys (a, h) k = (a, All-append P xs ys h k)

All-weaken {ℓ κ μ} :
    {A : Type ℓ} (P : A → Type κ) (Q : A → Type μ) (xs : List A)
    → ((x : A) → P x → Q x)
    → All P xs
    → All Q xs
All-weaken P Q [] f h = tt
All-weaken P Q (x ∷ xs) f (a, h) = (f x a, All-weaken P Q xs f h)

abbrev Apart : ℕ → ℕ → Type 0
Apart sep c = (c == sep) ≡ false

split-append :
    (sep : ℕ) (l r : List ℕ) → All (Apart sep) l → split sep (l ++ sep ∷ r) ≡ l ∷ split sep r
unfolding split
split-append sep [] r h = ground arith
split-append sep (c ∷ l) r (a, h) = rw (a, split-append sep l r h) refl

split-whole : (sep : ℕ) (l : List ℕ) → All (Apart sep) l → split sep l ≡ l ∷ []
unfolding split
split-whole sep [] h = refl
split-whole sep (c ∷ l) (a, h) = rw (a, split-whole sep l h) refl

split_crlf-with_crlf :
    (l rest : List ℕ) → All (Apart 13) l → split_crlf (with_crlf l rest) ≡ l ∷ split_crlf rest
unfolding split_crlf
split_crlf-with_crlf [] rest h = refl
split_crlf-with_crlf (c ∷ []) rest (a, h) = rw a refl
split_crlf-with_crlf (c ∷ d ∷ l) rest (a, h) = rw (a, split_crlf-with_crlf (d ∷ l) rest h) refl

has_crlf-with_crlf : (l rest : List ℕ) → has_crlf (with_crlf l rest) ≡ true
unfolding has_crlf
has_crlf-with_crlf [] rest = refl
has_crlf-with_crlf (c ∷ []) rest = ground arith
has_crlf-with_crlf (c ∷ d ∷ l) rest = ground (arith, has_crlf-with_crlf (d ∷ l) rest)

trim_right-name : (name : List ℕ) → All IsNameChar name → trim_right name ≡ name
unfolding trim_right
trim_right-name [] h = refl
trim_right-name (c ∷ name) ((a, b), h) =
    let apart : (c == 32) ≡ false = ground arith in rw (apart, trim_right-name name h) refl

trim_right-append :
    (xs ys : List ℕ) → trim_right ys ≡ ys → 0 < length ys → trim_right (xs ++ ys) ≡ xs ++ ys
unfolding trim_right
trim_right-append [] ys e h = e
trim_right-append (x ∷ xs) (y ∷ ys) e h =
    rw (trim_right-append xs (y ∷ ys) e h) (ground (arith, some_left xs y ys))
  where
    some_left : (xs : List ℕ) (y : ℕ) (ys : List ℕ) → (length (xs ++ y ∷ ys) == 0) ≡ false
    some_left [] y ys = ground arith
    some_left (x ∷ xs) y ys = ground arith
trim_right-append (x ∷ xs) [] e h = absurd (omega arith)

trim_left-name : (name : List ℕ) → All IsNameChar name → trim_left name ≡ name
unfolding trim_left
trim_left-name [] h = refl
trim_left-name (c ∷ name) ((a, b), h) =
    let apart : (c == 32) ≡ false = ground arith in rw apart refl

leading_digits-append : (ds rest : List ℕ) → All IsDigit ds → leading_digits (ds ++ 32 ∷ rest) ≡ ds
unfolding leading_digits
leading_digits-append [] rest h = refl
leading_digits-append (c ∷ ds) rest ((a, b), h) =
    let digit : is_digit c ≡ true = ground arith in rw (digit, leading_digits-append ds rest h) refl

first_digits-append :
    (c : ℕ) (cs rest : List ℕ) → All IsDigit (c ∷ cs) → first_digits (c ∷ cs ++ 32 ∷ rest) ≡ c ∷ cs
unfolding first_digits leading_digits
first_digits-append c cs rest ((a, b), h) =
    let digit : is_digit c ≡ true = ground arith in rw (digit, leading_digits-append cs rest h) refl

-- The parts of a line, for the letter that tells a pair's ports apart.
module _ (tag i : ℕ) (fits : i < 2 ^ 16) (letter : (b'A' ≤ tag) × (tag ≤ b'B')) where
  left-Apart :
      (sep : ℕ)
      → All (Apart sep) (codes "CNC")
      → All (Apart sep) (codes " PortName")
      → (tag == sep) ≡ false
      → ((c : ℕ) → IsDigit c → Apart sep c)
      → All (Apart sep) (left_of tag i)
  left-Apart sep (x, (y, (z, _))) h t digits = (
    x,
    (
      y,
      (
        z,
        (
          t,
          All-append (Apart sep) (decimal i) (codes " PortName")
              (All-weaken IsDigit (Apart sep) (decimal i) digits (decimal-IsDigit i (omega arith)))
              h,
        ),
      ),
    ),
  )

  left-ne-eq : All (Apart 61) (left_of tag i)
  left-ne-eq =
      left-Apart 61 (refl, (refl, (refl, tt)))
        (refl, (refl, (refl, (refl, (refl, (refl, (refl, (refl, (refl, tt))))))))) (ground arith)
        (λ c d. digit_apart_eq c d)
    where
      digit_apart_eq : (c : ℕ) → IsDigit c → (c == 61) ≡ false
      digit_apart_eq c (a, b) = ground arith

  line-ne-cr : (name : List ℕ) → All IsNameChar name → All (Apart 13) (line_of tag i name)
  line-ne-cr name h = (
    refl,
    (
      refl,
      (
        refl,
        (
          refl,
          (
            refl,
            (
              refl,
              (
                refl,
                All-append (Apart 13) (left_of tag i) (61 ∷ name)
                    (left-Apart 13 (refl, (refl, (refl, tt)))
                      (refl, (refl, (refl, (refl, (refl, (refl, (refl, (refl, (refl, tt)))))))))
                      (ground arith) (λ c d. digit_apart_cr c d))
                    (refl, All-weaken IsNameChar (Apart 13) name (λ c d. name_apart_cr c d) h),
              ),
            ),
          ),
        ),
      ),
    ),
  )
    where
      digit_apart_cr : (c : ℕ) → IsDigit c → (c == 13) ≡ false
      digit_apart_cr c (a, b) = ground arith

      name_apart_cr : (c : ℕ) → IsNameChar c → (c == 13) ≡ false
      name_apart_cr c (a, b) = ground arith

  trim_line :
      (name : List ℕ)
      → All IsNameChar name
      → trim (line_of tag i name) ≡ left_of tag i ++ (61 ∷ name)
  unfolding trim_left
  trim_line name h =
      trim_right-append (left_of tag i) (61 ∷ name) (trim_right_eq name h) (omega arith)
    where
      trim_right_eq : (name : List ℕ) → All IsNameChar name → trim_right (61 ∷ name) ≡ 61 ∷ name
      trim_right_eq name h = unfold trim_right in rw (trim_right-name name h) refl

  split_line :
      (name : List ℕ)
      → All IsNameChar name
      → split 61 (left_of tag i ++ (61 ∷ name)) ≡ left_of tag i ∷ name ∷ []
  split_line name h =
      split-append 61 (left_of tag i) name left-ne-eq
      ∙ ap (λ t. left_of tag i ∷ t)
          (split-whole 61 name (All-weaken IsNameChar (Apart 61) name (λ c d. d.1) h))

  first_digits_left : first_digits (left_of tag i) ≡ decimal i
  unfolding first_digits
  first_digits_left =
      let (c, cs, e) = decimal-ne-nil i in
      let no_digit : is_digit tag ≡ false = ground arith in
      rw (no_digit, e)
        (first_digits-append c cs (codes "PortName")
          (subst (All IsDigit) e (decimal-IsDigit i (omega arith))))

  trim_name : (name : List ℕ) → All IsNameChar name → trim name ≡ name
  trim_name name h = ap trim_right (trim_left-name name h) ∙ trim_right-name name h

  first_port-line :
      (name : List ℕ) → All IsNameChar name → first_port (line_of tag i name) ≡ some (i, name)
  unfolding first_port
  first_port-line name h =
      rw
        (
          trim_line name h,
          split_line name h,
          first_digits_left,
          parse_uint_bits-decimal_16 i fits,
          trim_name name h,
        )
        refl

  second_port-line :
      (name : List ℕ) → All IsNameChar name → second_port (line_of tag i name) ≡ some name
  unfolding second_port
  second_port-line name h = rw (trim_line name h, split_line name h, trim_name name h) refl

split_crlf-listing :
    (p : CommPair) (ps : List CommPair)
    → IsListable p
    → split_crlf (listing (p ∷ ps))
      ≡ line_of b'A' p.index p.com_a ∷ line_of b'B' p.index p.com_b ∷ split_crlf (listing ps)
split_crlf-listing p ps (fits, a, b) =
    split_crlf-with_crlf (line_of b'A' p.index p.com_a)
      (with_crlf (line_of b'B' p.index p.com_b) (listing ps))
      (line-ne-cr b'A' p.index fits (omega arith) p.com_a a)
    ∙ ap (λ t. line_of b'A' p.index p.com_a ∷ t)
        (split_crlf-with_crlf (line_of b'B' p.index p.com_b) (listing ps)
          (line-ne-cr b'B' p.index fits (omega arith) p.com_b b))

read_two :
    (p : CommPair) (rest : List (List ℕ))
    → IsListable p
    → read_pairs (line_of b'A' p.index p.com_a ∷ line_of b'B' p.index p.com_b ∷ rest)
      ≡ p ∷ read_pairs rest
unfolding read_pairs
read_two p rest (fits, a, b) =
    rw
      (
        first_port-line b'A' p.index fits (omega arith) p.com_a a,
        second_port-line b'B' p.index fits (omega arith) p.com_b b,
      )
      refl

read_pairs-listing :
    (ps : List CommPair) → All IsListable ps → read_pairs (split_crlf (listing ps)) ≡ ps
unfolding read_pairs split_crlf
read_pairs-listing [] h = refl
read_pairs-listing (p ∷ ps) (one, h) =
    ap read_pairs (split_crlf-listing p ps one)
    ∙ read_two p (split_crlf (listing ps)) one
    ∙ ap (λ t. p ∷ t) (read_pairs-listing ps h)

read_lines : (ps : List CommPair) → All IsListable ps → read_pairs (lines (listing ps)) ≡ ps
unfolding read_pairs split has_crlf
read_lines [] h = refl
read_lines (p ∷ ps) h =
    rw
      (has_crlf-with_crlf (line_of b'A' p.index p.com_a)
        (with_crlf (line_of b'B' p.index p.com_b) (listing ps)))
      (read_pairs-listing (p ∷ ps) h)

-- LoadComPairs gives back the pairs that a listing of the driver's command shows, in their order, for
-- numbers of 16 bits and names of visible characters other than `=`.
pub load_com_pairs-listing :
    (ps : List CommPair) (exe_cmd : List ℕ → Option (List ℕ))
    → All IsListable ps
    → exe_cmd (codes "list") ≡ some (listing ps)
    → load_com_pairs true exe_cmd ≡ ok ps
unfolding load_com_pairs
load_com_pairs-listing ps exe_cmd h e = rw e (ap ok (read_lines ps h))
