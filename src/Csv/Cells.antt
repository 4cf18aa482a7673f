-- ===== src/Csv/Cells.antt =====
-- The references of a delimited table and their cells.
use mathlib.Core.Path.{subst}
use checkdigit.Common.{
  ℕ, ◌+◌, ◌-◌, ◌≤◌, ◌≡◌, inl, inr, refl, Bool, true, false, ◌&&◌, List, [], ◌∷◌, map, arith, Str,
  All, All-append, Option, none, some, find_at, matches, strip, slice, Bool-cases, ◌==◌, ℤ,
}
use checkdigit.Csv.{CsvCell, is_target, cell_ref, whole_ref, cell_refs, row_refs, table_refs}
use checkdigit.Csv.Spans.{CellChain, RowChain, CellChain-below}
use checkdigit.Grouped.{Located}
use checkdigit.Kernel.Types.{bic_like}
use checkdigit.Report.{row_col}
use checkdigit.Txt.{find_bic}
use checkdigit.Txt.Fields.{
  RefChain, RefChain-from, RefChain-append, whole-InField, find_bic-RefChain,
}

module _ (text : Str) where
  -- Between the ends of a cell
  whole_ref-RefChain :
      (ri : ℕ) (cell : CsvCell)
      → cell.val_start ≤ cell.val_end
      → RefChain text cell.val_start cell.val_end (whole_ref text ri cell)
  unfolding whole_ref
  whole_ref-RefChain ri cell le = elim (Bool-cases (matches bic_like (strip cell.value))) [
    | inl shape ↦ rw shape (
        found
          (find_at 0 (strip cell.value) (slice text cell.val_start (cell.val_end - cell.val_start)))
          refl shape)
    | inr other ↦ rw other le
  ]
    where
      found :
          (f : Option ℕ)
          → find_at 0 (strip cell.value) (slice text cell.val_start (cell.val_end - cell.val_start))
            ≡ f
          → matches bic_like (strip cell.value) ≡ true
          → RefChain text cell.val_start cell.val_end
              (elim f [ none ↦ [] | some i ↦ cell_ref ri cell (i, strip cell.value) ∷ [] ])
      found none e shape = le
      found (some i) e shape =
          let (here, inside, _) =
            whole-InField text cell.val_start (cell.val_end - cell.val_start) i (strip cell.value)
              shape e in
          (omega arith, (here, shape), omega arith)

  cell_refs-RefChain :
      (whole_cell : Bool) (ri : ℕ) (cell : CsvCell)
      → cell.val_start ≤ cell.val_end
      → RefChain text cell.val_start cell.val_end (cell_refs text whole_cell ri cell)
  unfolding cell_refs
  cell_refs-RefChain true ri cell le = whole_ref-RefChain ri cell le
  cell_refs-RefChain false ri cell le =
      let n = cell.val_end - cell.val_start in
      let stop : cell.val_start + n ≡ cell.val_end = omega arith in
      subst
        (λ to.
          RefChain text cell.val_start to
            (map (cell_ref ri cell) (find_bic (slice text cell.val_start n))))
        stop (find_bic-RefChain text cell.val_start n (cell_ref ri cell) (λ f. refl) (λ f. refl))

  row_refs-RefChain :
      (whole_cell : Bool) (targets : List ℤ) (ri from to : ℕ) (cells : List CsvCell)
      → CellChain from to cells
      → RefChain text from to (row_refs text whole_cell targets ri cells)
  unfolding row_refs
  row_refs-RefChain whole_cell targets ri from to [] h = h
  row_refs-RefChain whole_cell targets ri from to (cell ∷ cells) (h, k, hs) =
      let rest = row_refs-RefChain whole_cell targets ri (cell.val_end + 1) to cells hs in
      elim (Bool-cases (is_target targets cell.col)) [
        | inl targeted ↦ rw targeted (
            RefChain-append text from cell.val_end to _ _
              (RefChain-from text from cell.val_start cell.val_end _ h
                (cell_refs-RefChain whole_cell ri cell k))
              (RefChain-from text cell.val_end (cell.val_end + 1) to _ (omega arith) rest))
        | inr other ↦ rw other (RefChain-from text from (cell.val_end + 1) to _ (omega arith) rest)
      ]

  pub table_refs-RefChain :
      (has_header whole_cell : Bool) (targets : List ℤ) (ri from to : ℕ)
      (rows : List (List CsvCell))
      → RowChain from to rows
      → RefChain text from to (table_refs text has_header whole_cell targets ri rows)
  unfolding table_refs
  table_refs-RefChain has_header whole_cell targets ri from to [] h = h
  table_refs-RefChain has_header whole_cell targets ri from to (row ∷ rows) (mid, h, hs) =
      let rest = table_refs-RefChain has_header whole_cell targets (ri + 1) mid to rows hs in
      elim (Bool-cases (has_header && ri == 0)) [
        | inl header ↦
            rw header (RefChain-from text from mid to _ (CellChain-below from mid row h) rest)
        | inr data_row ↦ rw data_row (
            RefChain-append text from mid to _ _
              (row_refs-RefChain whole_cell targets ri from mid row h) rest)
      ]

  -- The label of a reference names a targeted column, and a row that is no header.
  abbrev pub IsTargeted : Bool → List ℤ → Located → Type 0
  IsTargeted has_header targets ref =
      (ri : ℕ) × (col : ℕ) × (ref.label ≡ row_col ri col)
      × (is_target targets col ≡ true)
      × ((has_header && ri == 0) ≡ false)

  module _ (has_header whole_cell : Bool) (targets : List ℤ) (ri : ℕ)
      (data_row : (has_header && ri == 0) ≡ false) where
    cell_refs-IsTargeted :
        (cell : CsvCell)
        → is_target targets cell.col ≡ true
        → All (IsTargeted has_header targets) (cell_refs text whole_cell ri cell)
    unfolding cell_refs whole_ref
    cell_refs-IsTargeted cell targeted = elim (Bool-cases whole_cell) [
      | inl whole ↦ rw whole (elim (Bool-cases (matches bic_like (strip cell.value))) [
        | inl shape ↦ rw shape (
            one (
              find_at 0 (strip cell.value)
                (slice text cell.val_start (cell.val_end - cell.val_start))))
        | inr other ↦ rw other tt
      ])
      | inr embedded ↦
          rw embedded (each (find_bic (slice text cell.val_start (cell.val_end - cell.val_start))))
    ]
      where
        one :
            (f : Option ℕ)
            → All
                (IsTargeted has_header targets)
                (elim f [ none ↦ [] | some i ↦ cell_ref ri cell (i, strip cell.value) ∷ [] ])
        one none = tt
        one (some i) = ((ri, cell.col, refl, targeted, data_row), tt)

        each :
            (found : List (ℕ × Str))
            → All (IsTargeted has_header targets) (map (cell_ref ri cell) found)
        each [] = tt
        each (f ∷ found) = ((ri, cell.col, refl, targeted, data_row), each found)

    row_refs-IsTargeted :
        (cells : List CsvCell)
        → All (IsTargeted has_header targets) (row_refs text whole_cell targets ri cells)
    unfolding row_refs
    row_refs-IsTargeted [] = tt
    row_refs-IsTargeted (cell ∷ cells) =
        let rest = row_refs-IsTargeted cells in
        elim (Bool-cases (is_target targets cell.col)) [
          | inl targeted ↦ rw targeted (
              All-append (IsTargeted has_header targets) _ _ (cell_refs-IsTargeted cell targeted)
                rest)
          | inr other ↦ rw other rest
        ]

  pub table_refs-IsTargeted :
      (has_header whole_cell : Bool) (targets : List ℤ) (ri : ℕ) (rows : List (List CsvCell))
      → All (IsTargeted has_header targets) (table_refs text has_header whole_cell targets ri rows)
  unfolding table_refs
  table_refs-IsTargeted has_header whole_cell targets ri [] = tt
  table_refs-IsTargeted has_header whole_cell targets ri (row ∷ rows) =
      let rest = table_refs-IsTargeted has_header whole_cell targets (ri + 1) rows in
      elim (Bool-cases (has_header && ri == 0)) [
        | inl header ↦ rw header rest
        | inr data_row ↦ rw data_row (
            All-append (IsTargeted has_header targets) _ _
              (row_refs-IsTargeted has_header whole_cell targets ri data_row row) rest)
      ]
