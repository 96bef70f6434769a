-- ===== src/Tests/Pairs.antt =====
-- serial/virtual_com.go on a listing of two pairs.
use vilan_peer.Base.{ℕ, ◌≡◌, refl, arith, true, List, [], ◌∷◌, Option, some}
use vilan_peer.Base.Text.{codes}
use vilan_peer.Serial.Pairs.{CommPair, ok, load_com_pairs}
use vilan_peer.Serial.Pairs.RoundTrip.{listing, load_com_pairs-listing}

abbrev pairs : List CommPair
pairs =
    record { index = 0; com_a = codes "COM4"; com_b = codes "COM5" }
    ∷ record { index = 12; com_a = codes "COM10"; com_b = codes "-" }
    ∷ []

abbrev shown : List ℕ → Option (List ℕ)
shown cmd = some (listing pairs)

load_com_pairs-listing_example : load_com_pairs true shown ≡ ok pairs
load_com_pairs-listing_example =
    load_com_pairs-listing pairs shown
      (
        (
          omega arith,
          (
            (omega arith, refl),
            ((omega arith, refl), ((omega arith, refl), ((omega arith, refl), tt))),
          ),
          (
            (omega arith, refl),
            ((omega arith, refl), ((omega arith, refl), ((omega arith, refl), tt))),
          ),
        ),
        (
          (
            omega arith,
            (
              (omega arith, refl),
              (
                (omega arith, refl),
                ((omega arith, refl), ((omega arith, refl), ((omega arith, refl), tt))),
              ),
            ),
            ((omega arith, refl), tt),
          ),
          tt,
        ),
      )
      refl
