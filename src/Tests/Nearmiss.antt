-- ===== src/Tests/Nearmiss.antt =====
-- The near-miss search at a pool of three numbers.
use checkdigit.Common.{ℕ, ◌≤◌, ◌≡◌, refl, List, [], ◌∷◌, Str, codes, length, All, EachPair, str_eq}
use checkdigit.Nearmiss.{
  osa_distance, fill_rows, fill_row, cell, minimum, range_from, capped, suggest,
}
use checkdigit.Nearmiss.Alignment.{distance}
use checkdigit.Nearmiss.Distance.{osa_distance-distance}
use checkdigit.Nearmiss.Suggest.{IsNear, InOrder, suggest-IsNear}

-- One swap of neighbours
swap_run : osa_distance (codes "CSQU") (codes "CQSU") 2 ≡ 1
unfolding osa_distance str_eq fill_rows fill_row cell minimum range_from
swap_run = refl

-- Two places apart, with a bound of one
beyond_run : osa_distance (codes "CSQU") (codes "CAAU") 1 ≡ 2
unfolding osa_distance str_eq fill_rows fill_row cell minimum range_from
beyond_run = refl

osa_distance-distance_example :
    osa_distance (codes "CSQU305438") (codes "CSUQ305438") 2
    ≡ capped 2 (distance (codes "CSQU305438") (codes "CSUQ305438") 10 10)
osa_distance-distance_example = osa_distance-distance (codes "CSQU305438") (codes "CSUQ305438") 2

abbrev pool : List (Str × ℕ)
pool = (codes "CSQU3054383", 4) ∷ (codes "MSCU1234565", 2) ∷ (codes "CSQU3054387", 1) ∷ []

suggest-IsNear_example :
    All
      (IsNear (codes "CSQU305438") (codes "CSQU3054387") 2 pool)
      (suggest (codes "CSQU305438") pool (codes "CSQU3054387") 2 3)
    × EachPair InOrder (suggest (codes "CSQU305438") pool (codes "CSQU3054387") 2 3)
    × (length (suggest (codes "CSQU305438") pool (codes "CSQU3054387") 2 3) ≤ 3)
suggest-IsNear_example = suggest-IsNear (codes "CSQU305438") (codes "CSQU3054387") 2 pool 3
