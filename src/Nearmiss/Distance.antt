-- ===== src/Nearmiss/Distance.antt =====
-- The rows of `osa_distance`, checkdigit/nearmiss.py, and the bound.
use mathlib.Core.Path.{subst}
use checkdigit.Common.{
  ℕ, zero, suc, ◌+◌, ◌-◌, ◌≤◌, ◌<◌, ◌≡◌, refl, sym, ap, ◌∙◌, inl, inr, true, false, List, [], ◌∷◌,
  Option, none, some, ◌==◌, leb, ltb, if◌then◌else◌, arith, length, get_or, Str, str_eq, str_eq_iff,
  Bool-cases,
}
use checkdigit.Nearmiss.{
  cost, is_swap, fill_row, minimum, capped, fill_rows, range_from, osa_distance,
}
use checkdigit.Nearmiss.Alignment.{distance, cost_le, diagonal, IsRow, IsPrior, fill_row-IsRow}

module _ (a b : Str) where
  -- Row `i` lies beyond the bound.
  abbrev IsBeyond : ℕ → ℕ → Type 0
  IsBeyond m i = (j : ℕ) → j ≤ length b → m < distance a b i j

  first_column : (i : ℕ) → distance a b i zero ≡ i
  unfolding distance
  first_column zero = refl
  first_column (suc i) = refl

  next-IsBeyond : (m i : ℕ) → IsBeyond m i → IsBeyond m (suc i)
  unfolding distance
  next-IsBeyond m i far zero le = omega (arith, far zero le, first_column i)
  next-IsBeyond m zero far (suc j) le =
      omega (arith, far (suc j) le, far j (omega arith), next-IsBeyond m zero far j (omega arith))
  next-IsBeyond m (suc i) far (suc zero) le = omega (
    arith,
    far (suc zero) le,
    far zero (omega arith),
    next-IsBeyond m (suc i) far zero (omega arith),
  )
  next-IsBeyond m (suc i) far (suc (suc j)) le =
      let up = far (suc (suc j)) le in
      let across = far (suc j) (omega arith) in
      let left = next-IsBeyond m (suc i) far (suc j) (omega arith) in
      let swapped = diagonal a b i j in
      let unit = cost_le a b (suc i) (suc j) in
      elim (Bool-cases (is_swap a b (suc (suc i)) (suc (suc j)))) [
        | inl swap ↦ rw swap (omega arith)
        | inr other ↦ rw other (omega arith)
      ]

  later-IsBeyond : (m n i k : ℕ) → k ≡ n + i → IsBeyond m i → IsBeyond m k
  later-IsBeyond m zero i k e far = let same : i ≡ k = omega arith in subst (IsBeyond m) same far
  later-IsBeyond m (suc n) i k e far =
      later-IsBeyond m n (suc i) k (omega arith) (next-IsBeyond m i far)

  minimum_le : (row : List ℕ) (j : ℕ) → j < length row → minimum row ≤ get_or row j 0
  unfolding minimum
  minimum_le [] j h = absurd (omega arith)
  minimum_le (x ∷ []) zero h = omega arith
  minimum_le (x ∷ []) (suc j) h = absurd (omega arith)
  minimum_le (x ∷ y ∷ ys) zero h = omega arith
  minimum_le (x ∷ y ∷ ys) (suc j) h = omega (arith, minimum_le (y ∷ ys) j (omega arith))

  fill_rows-distance :
      (m n i : ℕ) (prev2 : Option (List ℕ)) (prev : List ℕ)
      → IsPrior a b i prev2
      → IsRow a b i (length b + 1) prev
      → i + n ≡ length a
      → fill_rows a b m (suc i) n prev2 prev ≡ capped m (distance a b (length a) (length b))
  unfolding fill_rows
  fill_rows-distance m zero i prev2 prev before p e =
      let all_rows : i ≡ length a = omega arith in
      ap (capped m)
        (p.cells (length b) (omega arith) ∙ ap (λ (k : ℕ). distance a b k (length b)) all_rows)
  fill_rows-distance m (suc n) i prev2 prev before p e =
      let begun : IsRow a b (suc i) (suc zero) (suc i ∷ []) = record {
        size = refl;
        cells = λ j h. first_cell j h;
      } in
      let cur = fill_row a b (suc i) prev2 prev 1 (length b) (suc i ∷ []) in
      let c : IsRow a b (suc i) (length b + 1) cur =
        fill_row-IsRow a b i (length b) zero prev2 prev (suc i ∷ []) before p begun (omega arith) in
      let next : suc i + 1 ≡ suc (suc i) = omega arith in
      elim (Bool-cases (ltb m (minimum cur))) [
        | inl over ↦
            let above : m < minimum cur = ground arith in
            let far : IsBeyond m (suc i) = λ j le. omega (
              arith,
              above,
              minimum_le cur j (omega (arith, le, c.size)),
              c.cells j (omega (arith, le)),
            ) in
            let end =
              later-IsBeyond m n (suc i) (length a) (omega arith) far (length b) (omega arith) in
            let out : leb (distance a b (length a) (length b)) m ≡ false = ground arith in
            rw (over, out) refl
        | inr more ↦ rw more (
            rw next
              (fill_rows-distance m n (suc i) (some prev) cur (prev, refl, p) c (omega arith)))
      ]
    where
      first_cell : (j : ℕ) → j < 1 → get_or (suc i ∷ []) j 0 ≡ distance a b (suc i) j
      first_cell zero h = sym (first_column (suc i))
      first_cell (suc j) h = absurd (omega arith)

  -- The lengths differ by no more than the distance.
  distance-gap : (i j : ℕ) → (i ≤ distance a b i j + j) × (j ≤ distance a b i j + i)
  unfolding distance
  distance-gap zero j = (omega arith, omega arith)
  distance-gap (suc i) zero = (omega arith, omega arith)
  distance-gap (suc zero) (suc j) =
      let up = distance-gap zero (suc j) in
      let left = distance-gap (suc zero) j in
      let across = distance-gap zero j in (omega arith, omega arith)
  distance-gap (suc (suc i)) (suc zero) =
      let up = distance-gap (suc i) (suc zero) in
      let left = distance-gap (suc (suc i)) zero in
      let across = distance-gap (suc i) zero in (omega arith, omega arith)
  distance-gap (suc (suc i)) (suc (suc j)) =
      let up = distance-gap (suc i) (suc (suc j)) in
      let left = distance-gap (suc (suc i)) (suc j) in
      let across = distance-gap (suc i) (suc j) in
      let swapped = distance-gap i j in
      elim (Bool-cases (is_swap a b (suc (suc i)) (suc (suc j)))) [
        | inl swap ↦ rw swap (omega arith, omega arith)
        | inr other ↦ rw other (omega arith, omega arith)
      ]

  distance_of_eq : a ≡ b → (i : ℕ) → distance a b i i ≡ 0
  distance_of_eq e zero = unfold distance in refl
  distance_of_eq e (suc i) =
      let free : cost a b (suc i) (suc i) ≡ 0 =
        subst (λ x. cost a x (suc i) (suc i) ≡ 0) e (same_char (get_or a (suc i - 1) 0)) in
      omega (arith, diagonal a b i i, distance_of_eq e i, free)
    where
      same_char : (c : ℕ) → ◌≡◌ {A = ℕ} (if c == c then 0 else 1) 0
      same_char c = ground arith

  range_from-get_or : (k n j : ℕ) → j < n → get_or (range_from k n) j 0 ≡ k + j
  unfolding range_from
  range_from-get_or k zero j h = absurd (omega arith)
  range_from-get_or k (suc n) zero h = omega arith
  range_from-get_or k (suc n) (suc j) h = omega (arith, range_from-get_or (k + 1) n j (omega arith))

  length-range_from : (k n : ℕ) → length (range_from k n) ≡ n
  unfolding range_from
  length-range_from k zero = refl
  length-range_from k (suc n) = omega (arith, length-range_from (k + 1) n)

  -- `osa_distance` is the alignment distance of the two texts, and one more than the bound where it
  -- lies beyond it: the early exits lose nothing.
  pub osa_distance-distance :
      (max_dist : ℕ)
      → osa_distance a b max_dist ≡ capped max_dist (distance a b (length a) (length b))
  unfolding osa_distance
  osa_distance-distance m =
      let gap = (length a - length b) + (length b - length a) in
      elim (Bool-cases (str_eq a b)) [
        | inl same ↦
            let e : a ≡ b = (str_eq_iff a b).0 same in
            let nothing : distance a b (length a) (length b) ≡ 0 =
              subst (λ x. distance a b (length a) (length x) ≡ 0) e (distance_of_eq e (length a)) in
            let inside : leb 0 m ≡ true = ground arith in rw (same, nothing, inside) refl
        | inr other ↦ elim (Bool-cases (ltb m gap)) [
          | inl apart ↦
              let far = distance-gap (length a) (length b) in
              let beyond : leb (distance a b (length a) (length b)) m ≡ false =
                below (distance a b (length a) (length b)) (omega (arith, far, above apart)) in
              rw (other, apart, beyond) refl
          | inr near ↦
              rw (other, near)
                (fill_rows-distance m (length a) zero none (range_from 0 (length b + 1)) refl
                  first_row (omega arith))
        ]
      ]
    where
      above :
          ltb m ((length a - length b) + (length b - length a)) ≡ true
          → m < (length a - length b) + (length b - length a)
      above h = ground arith

      below : (d : ℕ) → m < d → leb d m ≡ false
      below d h = ground arith

      first_row : IsRow a b zero (length b + 1) (range_from 0 (length b + 1))
      first_row = record {
        size = length-range_from 0 (length b + 1);
        cells = λ j h. unfold distance in omega (arith, range_from-get_or 0 (length b + 1) j h);
      }
