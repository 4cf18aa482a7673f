-- ===== src/Csv/Header.antt =====
-- The columns that a caller names and the header of a delimited table.
use checkdigit.Common.{
  if◌then◌else◌, ℕ, ◌≡◌, ◌≢◌, ◌⊎◌, inl, inr, refl, List, [], ◌∷◌, Str, All, Any, Option, none, some,
  Result, ok, err, ◌>>=◌, ℤ, pos, column_not_found, strip, str_eq, str_eq_iff, Bool-cases,
}
use checkdigit.Csv.{ColumnSel, index, named, CsvCell, header_col, resolve_columns}

-- The name is one of those asked for.
abbrev pub Names : List ColumnSel → Str → Type 0
Names [] name = ⊥
Names (index i ∷ sels) name = Names sels name
Names (named sel ∷ sels) name = (sel ≡ name) ⊎ Names sels name

module _ (lower : Str → Str) (header : List CsvCell) where
  -- A cell of the header has the name, but for the case and the spaces around it.
  abbrev IsHeaded : Str → CsvCell → Type 0
  IsHeaded name cell = lower (strip cell.value) ≡ lower (strip name)

  abbrev pub HasColumn : ColumnSel → Type 0
  HasColumn (index i) = Unit
  HasColumn (named name) = Any (IsHeaded name) header

  -- No cell of the header has the name.
  abbrev pub IsMissing : Str → Type 0
  IsMissing name = All (λ cell. lower (strip cell.value) ≢ lower (strip name)) header

  -- The columns are all in the header, or the error is that of one that is named and is not.
  abbrev pub IsResolved : List ColumnSel → Result (List ℤ) → Type 0
  IsResolved sels (ok targets) = All HasColumn sels
  IsResolved sels (err e) =
      (name : Str) × (e ≡ column_not_found name) × Names sels name × IsMissing name

  header_col-none :
      (key : Str) (cells : List CsvCell)
      → header_col lower key cells ≡ none
      → All (λ cell. lower (strip cell.value) ≢ key) cells
  unfolding header_col
  header_col-none key [] h = tt
  header_col-none key (cell ∷ cells) h =
      by_rest (header_col lower key cells) refl h (header_col-none key cells)
    where
      by_rest :
          (rest : Option ℕ)
          → header_col lower key cells ≡ rest
          → (elim rest [
            | some col ↦ some col
            | none ↦ if str_eq (lower (strip cell.value)) key then some cell.col else none
          ])
            ≡ none
          → (header_col lower key cells ≡ none → All (λ cell. lower (strip cell.value) ≢ key) cells)
          → (lower (strip cell.value) ≢ key) × All (λ cell. lower (strip cell.value) ≢ key) cells
      by_rest (some col) e k all_rest = absurd (cc)
      by_rest none e k all_rest = elim (Bool-cases (str_eq (lower (strip cell.value)) key)) [
        | inl hit ↦ absurd (let bad = rw hit at k in cc)
        | inr miss ↦ (
          (λ same. let hit = (str_eq_iff (lower (strip cell.value)) key).1 same in cc),
          all_rest e,
        )
      ]

  header_col-some :
      (key : Str) (cells : List CsvCell) {col : ℕ}
      → header_col lower key cells ≡ some col
      → Any (λ cell. lower (strip cell.value) ≡ key) cells
  unfolding header_col
  header_col-some key [] h = absurd (cc)
  header_col-some key (cell ∷ cells) {col} h =
      by_rest (header_col lower key cells) h
        (λ c (e : header_col lower key cells ≡ some c). header_col-some key cells e) refl
    where
      by_rest :
          (rest : Option ℕ)
          → (elim rest [
            | some col ↦ some col
            | none ↦ if str_eq (lower (strip cell.value)) key then some cell.col else none
          ])
            ≡ some col
          → ((c : ℕ)
              → header_col lower key cells ≡ some c
              → Any (λ cell. lower (strip cell.value) ≡ key) cells)
          → header_col lower key cells ≡ rest
          → (lower (strip cell.value) ≡ key) ⊎ Any (λ cell. lower (strip cell.value) ≡ key) cells
      by_rest (some c) k in_rest e = inr (in_rest c e)
      by_rest none k in_rest e = elim (Bool-cases (str_eq (lower (strip cell.value)) key)) [
        | inl hit ↦ inl ((str_eq_iff (lower (strip cell.value)) key).0 hit)
        | inr miss ↦ absurd (let bad = rw miss at k in cc)
      ]

  module _ (sel : ColumnSel) (sels : List ColumnSel)
      (weaken : (name : Str) → Names sels name → Names (sel ∷ sels) name) where
    prepend-IsResolved :
        (i : ℤ) (rest : Result (List ℤ))
        → HasColumn sel
        → IsResolved sels rest
        → IsResolved (sel ∷ sels) (rest >>= (λ targets. ok (i ∷ targets)))
    prepend-IsResolved i (ok targets) here h = (here, h)
    prepend-IsResolved i (err e) here (name, same, asked, missing) =
        (name, same, weaken name asked, missing)

  pub resolve_columns-IsResolved :
      (sels : List ColumnSel) → IsResolved sels (resolve_columns lower header sels)
  unfolding resolve_columns
  resolve_columns-IsResolved [] = tt
  resolve_columns-IsResolved (index i ∷ sels) =
      prepend-IsResolved (index i) sels (λ name h. h) i (resolve_columns lower header sels) tt
        (resolve_columns-IsResolved sels)
  resolve_columns-IsResolved (named sel ∷ sels) =
      found (header_col lower (lower (strip sel)) header) refl (resolve_columns-IsResolved sels)
    where
      found :
          (col : Option ℕ)
          → header_col lower (lower (strip sel)) header ≡ col
          → IsResolved sels (resolve_columns lower header sels)
          → IsResolved (named sel ∷ sels) (elim col [
            | none ↦ err (column_not_found sel)
            | some col ↦ resolve_columns lower header sels >>= (λ rest. ok (pos col ∷ rest))
          ])
      found none e h = (sel, refl, inl refl, header_col-none (lower (strip sel)) header e)
      found (some col) e h =
          prepend-IsResolved (named sel) sels (λ name k. inr k) (pos col)
            (resolve_columns lower header sels) (header_col-some (lower (strip sel)) header e) h
