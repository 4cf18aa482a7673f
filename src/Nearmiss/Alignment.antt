-- ===== src/Nearmiss/Alignment.antt =====
-- The optimal-string-alignment distance as a recursion, and the cells of `osa_distance`.
use native.Mathlib.Numerals.{sub-one}
use checkdigit.Common.{
  ℕ, zero, suc, ◌+◌, ◌-◌, ◌≤◌, ◌<◌, ◌≡◌, refl, sym, ap, ◌∙◌, inl, inr, false, List, [], ◌∷◌, ◌++◌,
  Option, none, some, ◌==◌, min, if◌then◌else◌, arith, length, length-append, get_or, Str,
  Bool-cases,
}
use checkdigit.Nearmiss.{cost, is_swap, cell, fill_row}

module _ (a b : Str) where
  -- The distance of the first `i` characters of `a` from the first `j` of `b`: the least number of
  -- deletions, insertions, substitutions and swaps of neighbours, no part being edited twice.
  unfoldable pub distance : ℕ → ℕ → ℕ
  distance zero j = j
  distance (suc i) zero = suc i
  distance (suc zero) (suc j) =
      min (min (distance zero (suc j) + 1) (distance (suc zero) j + 1))
        (distance zero j + cost a b (suc zero) (suc j))
  distance (suc (suc i)) (suc zero) =
      min (min (distance (suc i) (suc zero) + 1) (distance (suc (suc i)) zero + 1))
        (distance (suc i) zero + cost a b (suc (suc i)) (suc zero))
  distance (suc (suc i)) (suc (suc j)) =
      let v =
        min (min (distance (suc i) (suc (suc j)) + 1) (distance (suc (suc i)) (suc j) + 1))
          (distance (suc i) (suc j) + cost a b (suc (suc i)) (suc (suc j))) in
      let swapped = distance i j + 1 in
      if is_swap a b (suc (suc i)) (suc (suc j)) then min v swapped else v

  pub cost_le : (i j : ℕ) → cost a b i j ≤ 1
  cost_le i j = ground arith

  -- One step on the diagonal costs one at most.
  pub diagonal : (i j : ℕ) → distance (suc i) (suc j) ≤ distance i j + cost a b (suc i) (suc j)
  unfolding distance
  diagonal zero j = omega arith
  diagonal (suc i) zero = omega arith
  diagonal (suc i) (suc j) = elim (Bool-cases (is_swap a b (suc (suc i)) (suc (suc j)))) [
    | inl swap ↦ rw swap (omega arith)
    | inr other ↦ rw other (omega arith)
  ]

  -- The first `n` cells of row `i`
  pub record IsRow (i n : ℕ) (row : List ℕ) : Type 0 where
    pub size : length row ≡ n
    pub cells : (j : ℕ) → j < n → get_or row j 0 ≡ distance i j

  -- The row before the last one, where there is one
  abbrev pub IsPrior : ℕ → Option (List ℕ) → Type 0
  IsPrior zero prev2 = prev2 ≡ none
  IsPrior (suc i) prev2 = (row : List ℕ) × (prev2 ≡ some row) × IsRow i (length b + 1) row

  cell-distance :
      (i j : ℕ) (prev2 : Option (List ℕ)) (prev cur : List ℕ)
      → IsPrior i prev2
      → IsRow i (length b + 1) prev
      → IsRow (suc i) (suc j) cur
      → j < length b
      → cell a b (suc i) (suc j) prev2 prev cur ≡ distance (suc i) (suc j)
  unfolding cell distance
  cell-distance zero j prev2 prev cur before p c h =
      simp
        (
          before,
          sub-one,
          p.cells (suc j) (omega arith),
          p.cells j (omega arith),
          c.cells j (omega arith),
        )
        refl
  cell-distance (suc i) zero prev2 prev cur (row, is, before) p c h =
      let unswapped : is_swap a b (suc (suc i)) (suc zero) ≡ false = ground arith in
      rw is (
        rw unswapped (
          simp
            (
              sub-one,
              p.cells (suc zero) (omega arith),
              p.cells zero (omega arith),
              c.cells zero (omega arith),
            )
            refl))
  cell-distance (suc i) (suc j) prev2 prev cur (row, is, before) p c h =
      simp
        (
          is,
          sub-one,
          sub-two,
          p.cells (suc (suc j)) (omega arith),
          p.cells (suc j) (omega arith),
          c.cells (suc j) (omega arith),
          before.cells j (omega arith),
        )
        refl
    where
      sub-two : (n : ℕ) → suc (suc n) - 2 ≡ n
      sub-two n = omega arith

  get_or-left : (xs ys : List ℕ) (j : ℕ) → j < length xs → get_or (xs ++ ys) j 0 ≡ get_or xs j 0
  get_or-left [] ys j h = absurd (omega arith)
  get_or-left (x ∷ xs) ys zero h = refl
  get_or-left (x ∷ xs) ys (suc j) h = get_or-left xs ys j (omega arith)

  get_or-last : (xs : List ℕ) (y j : ℕ) → j ≡ length xs → get_or (xs ++ (y ∷ [])) j 0 ≡ y
  get_or-last [] y zero h = refl
  get_or-last [] y (suc j) h = absurd (omega arith)
  get_or-last (x ∷ xs) y zero h = absurd (omega arith)
  get_or-last (x ∷ xs) y (suc j) h = get_or-last xs y j (omega arith)

  IsRow-snoc :
      (i n v : ℕ) (row : List ℕ)
      → IsRow i n row
      → v ≡ distance i n
      → IsRow i (suc n) (row ++ (v ∷ []))
  IsRow-snoc i n v row r e = record {
    size = omega (arith, length-append row (v ∷ []), r.size);
    cells = λ j h. elim (Bool-cases (j == n)) [
      | inl last ↦
          let same : j ≡ n = ground arith in
          get_or-last row v j (omega (arith, same, r.size)) ∙ e ∙ ap (distance i) (sym same)
      | inr other ↦
          let below : j < n = ground arith in
          get_or-left row (v ∷ []) j (omega (arith, below, r.size)) ∙ r.cells j below
    ];
  }

  pub fill_row-IsRow :
      (i n j : ℕ) (prev2 : Option (List ℕ)) (prev cur : List ℕ)
      → IsPrior i prev2
      → IsRow i (length b + 1) prev
      → IsRow (suc i) (suc j) cur
      → j + n ≡ length b
      → IsRow (suc i) (length b + 1) (fill_row a b (suc i) prev2 prev (suc j) n cur)
  unfolding fill_row
  fill_row-IsRow i zero j prev2 prev cur before p c h = record {
    size = omega (arith, c.size);
    cells = λ k l. c.cells k (omega arith);
  }
  fill_row-IsRow i (suc n) j prev2 prev cur before p c h =
      let next : suc j + 1 ≡ suc (suc j) = omega arith in
      rw next (
        fill_row-IsRow i n (suc j) prev2 prev _ before p
          (IsRow-snoc (suc i) (suc j) _ cur c
            (cell-distance i j prev2 prev cur before p c (omega arith)))
          (omega arith))
