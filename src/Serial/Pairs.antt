-- ===== src/Serial/Pairs.antt =====
-- serial/virtual_com.go: the pairs of virtual ports, as the text that the driver's command prints. What
-- the command prints is a parameter, with `none` for its error.
pub mod RoundTrip
use vilan_peer.Base.{
  ℕ, zero, suc, ◌+◌, Bool, true, false, not, ◌&&◌, ◌||◌, List, [], ◌∷◌, ◌++◌, Option, none, some,
  length, leb, ◌==◌, if◌then◌else◌,
}
use vilan_peer.Base.Text.{codes, split, cons_head, digits_value, parse_uint_bits, decimal}

-- CommPair
pub record CommPair : Type 0 where
  pub index : ℕ
  pub com_a : List ℕ
  pub com_b : List ℕ

-- What a call returns; `failed` stands for any error.
pub data Result {ℓ} (A : Type ℓ) : Type ℓ where
  ok : A → Result A
  failed : Result A

abbrev pub is_crlf : ℕ → ℕ → Bool
is_crlf c d = c == 13 && d == 10

-- strings.Contains(content, "\r\n")
unfoldable pub has_crlf : List ℕ → Bool
has_crlf [] = false
has_crlf (c ∷ []) = false
has_crlf (c ∷ d ∷ cs) = is_crlf c d || has_crlf (d ∷ cs)

-- strings.Split(content, "\r\n")
unfoldable pub split_crlf : List ℕ → List (List ℕ)
split_crlf [] = [] ∷ []
split_crlf (c ∷ []) = (c ∷ []) ∷ []
split_crlf (c ∷ d ∷ cs) =
    let line = [] ∷ split_crlf cs in
    let more = cons_head c (split_crlf (d ∷ cs)) in if is_crlf c d then line else more

abbrev pub lines : List ℕ → List (List ℕ)
lines content = if has_crlf content then split_crlf content else split 10 content

-- strings.Trim(s, " "), on each side.
unfoldable pub trim_left : List ℕ → List ℕ
trim_left [] = []
trim_left (c ∷ cs) = let rest = trim_left cs in if c == 32 then rest else c ∷ cs

unfoldable pub trim_right : List ℕ → List ℕ
trim_right [] = []
trim_right (c ∷ cs) =
    let rest = trim_right cs in if c == 32 && length rest == 0 then [] else c ∷ rest

abbrev pub trim : List ℕ → List ℕ
trim s = trim_right (trim_left s)

-- strings.HasPrefix(s, "CNC")
abbrev pub is_port : List ℕ → Bool
is_port (a ∷ b ∷ c ∷ cs) = a == b'C' && b == b'N' && c == b'C'
is_port _ = false

abbrev pub is_digit : ℕ → Bool
is_digit c = leb b'0' c && leb c b'9'

unfoldable pub leading_digits : List ℕ → List ℕ
leading_digits [] = []
leading_digits (c ∷ cs) = let rest = leading_digits cs in if is_digit c then c ∷ rest else []

-- FindString of the expression (\d+)
unfoldable pub first_digits : List ℕ → List ℕ
unfolding leading_digits
first_digits [] = []
first_digits (c ∷ cs) =
    let rest = first_digits cs in if is_digit c then leading_digits (c ∷ cs) else rest

abbrev pub numbered : Option ℕ → List ℕ → Option (ℕ × List ℕ)
numbered none name = none
numbered (some n) name = some (n, trim name)

abbrev pub first_parts : List (List ℕ) → Option (ℕ × List ℕ)
first_parts (left ∷ name ∷ []) = numbered (parse_uint_bits 16 (first_digits left)) name
first_parts _ = none

abbrev pub second_parts : List (List ℕ) → Option (List ℕ)
second_parts (left ∷ name ∷ []) = some (trim name)
second_parts _ = none

-- The line of a pair's first port, its number and its name, and that of its second port.
unfoldable pub first_port : List ℕ → Option (ℕ × List ℕ)
first_port line = if is_port (trim line) then first_parts (split 61 (trim line)) else none

unfoldable pub second_port : List ℕ → Option (List ℕ)
second_port line = if is_port (trim line) then second_parts (split 61 (trim line)) else none

abbrev pub joined : Option (ℕ × List ℕ) → Option (List ℕ) → List CommPair → List CommPair
joined none second pairs = pairs
joined (some (n, a)) none pairs = pairs
joined (some (n, a)) (some b) pairs = record { index = n; com_a = a; com_b = b } ∷ pairs

-- The loop of LoadComPairs, over two lines at a time.
unfoldable pub read_pairs : List (List ℕ) → List CommPair
unfolding first_port second_port
read_pairs (a ∷ b ∷ rest) = joined (first_port a) (second_port b) (read_pairs rest)
read_pairs _ = []

abbrev listed : Option (List ℕ) → Result (List CommPair)
listed none = failed
listed (some content) = ok (read_pairs (lines content))

-- LoadComPairs
unfoldable pub load_com_pairs : Bool → (List ℕ → Option (List ℕ)) → Result (List CommPair)
unfolding read_pairs
load_com_pairs init_ok exe_cmd = if init_ok then listed (exe_cmd (codes "list")) else failed

abbrev pub first_word : List (List ℕ) → List ℕ
first_word [] = []
first_word (w ∷ ws) = w

abbrev pub new_pair : List ℕ → List ℕ → Option ℕ → Result CommPair
new_pair a b none = failed
new_pair a b (some n) = ok (record { index = n; com_a = a; com_b = b })

abbrev pub added : List ℕ → List ℕ → Option (List ℕ) → Result CommPair
added a b none = failed
added a b (some res) =
    if is_port (trim res)
    then new_pair a b (parse_uint_bits 16 (first_digits (first_word (split 32 (trim res)))))
    else failed

-- The command of AddComPair.
abbrev pub install : List ℕ → List ℕ → List ℕ
install a b = codes "install PortName=" ++ (a ++ (codes " PortName=" ++ b))

-- AddComPair
unfoldable pub add_com_pair : Bool → (List ℕ → Option (List ℕ)) → List ℕ → List ℕ → Result CommPair
add_com_pair init_ok exe_cmd a b = if init_ok then added a b (exe_cmd (install a b)) else failed

abbrev deleted : Option (List ℕ) → Result (Unit {0})
deleted none = failed
deleted (some res) = ok tt

-- DelComPair
unfoldable pub del_com_pair : Bool → (List ℕ → Option (List ℕ)) → ℕ → Result (Unit {0})
unfolding decimal
del_com_pair init_ok exe_cmd index =
    if init_ok then deleted (exe_cmd (codes "remove " ++ decimal index)) else failed
