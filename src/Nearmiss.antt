-- ===== src/Nearmiss.antt =====
-- The near-miss search, checkdigit/nearmiss.py.
pub mod Alignment
pub mod Distance
pub mod Suggest
use checkdigit.Common.{
  ℕ, zero, suc, ◌+◌, ◌-◌, Bool, true, false, ◌&&◌, ◌||◌, not, List, [], ◌∷◌, ◌++◌, Option, none,
  some, ◌==◌, leb, ltb, min, if◌then◌else◌, length, take, get_or, Str, str_eq,
}

-- `min(cur)`; a row is never empty.
unfoldable pub minimum : List ℕ → ℕ
minimum [] = 0
minimum (x ∷ []) = x
minimum (x ∷ y ∷ ys) = min x (minimum (y ∷ ys))

abbrev pub capped : ℕ → ℕ → ℕ
capped max_dist d = if leb d max_dist then d else max_dist + 1

-- `list(range(n))`, from `k` on
unfoldable pub range_from : ℕ → ℕ → List ℕ
range_from k zero = []
range_from k (suc n) = k ∷ range_from (k + 1) n

module _ (a b : Str) where
  -- The substitution of one character, by the indices from 1
  abbrev pub cost : ℕ → ℕ → ℕ
  cost i j = if get_or a (i - 1) 0 == get_or b (j - 1) 0 then 0 else 1

  -- `ca == b[j - 2] and a[i - 2] == b[j - 1]`, where there are two characters on either side
  abbrev pub is_swap : ℕ → ℕ → Bool
  is_swap i j =
      ltb 1 i
      && ltb 1 j
      && get_or a (i - 1) 0 == get_or b (j - 2) 0
      && get_or a (i - 2) 0 == get_or b (j - 1) 0

  -- `cur[j]`
  unfoldable pub cell : ℕ → ℕ → Option (List ℕ) → List ℕ → List ℕ → ℕ
  cell i j prev2 prev cur =
      let v =
        min (min (get_or prev j 0 + 1) (get_or cur (j - 1) 0 + 1))
          (get_or prev (j - 1) 0 + cost i j) in
      elim prev2 [
        | none ↦ v
        | some before ↦ if is_swap i j then min v (get_or before (j - 2) 0 + 1) else v
      ]

  -- The inner loop, from column `j` on, with `n` columns to go
  unfoldable pub fill_row : ℕ → Option (List ℕ) → List ℕ → ℕ → ℕ → List ℕ → List ℕ
  fill_row i prev2 prev j zero cur = cur
  fill_row i prev2 prev j (suc n) cur =
      fill_row i prev2 prev (j + 1) n (cur ++ (cell i j prev2 prev cur ∷ []))

  -- The outer loop, from row `i` on, with `n` rows to go
  unfoldable pub fill_rows : ℕ → ℕ → ℕ → Option (List ℕ) → List ℕ → ℕ
  fill_rows max_dist i zero prev2 prev = capped max_dist (get_or prev (length b) 0)
  fill_rows max_dist i (suc n) prev2 prev =
      let cur = fill_row i prev2 prev 1 (length b) (i ∷ []) in
      let rest = fill_rows max_dist (i + 1) n (some prev) cur in
      if ltb max_dist (minimum cur) then max_dist + 1 else rest

  unfoldable pub osa_distance : ℕ → ℕ
  osa_distance max_dist =
      let gap = (length a - length b) + (length b - length a) in
      if str_eq a b
      then 0
      else if ltb max_dist gap
      then max_dist + 1
      else fill_rows max_dist 1 (length a) none (range_from 0 (length b + 1))

-- `s < t`
unfoldable pub str_lt : Str → Str → Bool
str_lt [] [] = false
str_lt [] (d ∷ t) = true
str_lt (c ∷ s) [] = false
str_lt (c ∷ s) (d ∷ t) = ltb c d || c == d && str_lt s t

pub record Suggestion : Type 0 where
  pub eqid : Str
  pub distance : ℕ
  pub times_seen : ℕ

-- The order of `(distance, -times_seen, eqid)`
unfoldable pub ahead_of : Suggestion → Suggestion → Bool
ahead_of s t =
    ltb s.distance t.distance
    || s.distance == t.distance
      && (ltb t.times_seen s.times_seen || s.times_seen == t.times_seen && str_lt s.eqid t.eqid)

unfoldable pub within : Str → Str → ℕ → List (Str × ℕ) → List Suggestion
within body10 exclude max_distance [] = []
within body10 exclude max_distance ((eqid, seen) ∷ pool) =
    let d = osa_distance body10 (take 10 eqid) max_distance in
    let rest = within body10 exclude max_distance pool in
    if str_eq eqid exclude || not (leb d max_distance)
    then rest
    else record { eqid = eqid; distance = d; times_seen = seen } ∷ rest

-- `out.sort`, which is stable: an entry goes before the first one that it does not follow.
unfoldable pub insert_suggestion : Suggestion → List Suggestion → List Suggestion
insert_suggestion s [] = s ∷ []
insert_suggestion s (t ∷ ts) = if ahead_of t s then t ∷ insert_suggestion s ts else s ∷ t ∷ ts

unfoldable pub sort_suggestions : List Suggestion → List Suggestion
sort_suggestions [] = []
sort_suggestions (s ∷ ss) = insert_suggestion s (sort_suggestions ss)

unfoldable pub suggest : Str → List (Str × ℕ) → Str → ℕ → ℕ → List Suggestion
suggest body10 pool exclude max_distance limit =
    take limit (sort_suggestions (within body10 exclude max_distance pool))
