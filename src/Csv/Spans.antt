-- ===== src/Csv/Spans.antt =====
-- The spans of the cells of a delimited table.
use mathlib.Core.Path.{subst}
use checkdigit.Common.{
  ◌&&◌, str_eq, starts_with, ℕ, ◌+◌, ◌≤◌, ◌≡◌, refl, Bool, true, false, List, [], ◌∷◌, ◌++◌, arith,
  length, Str, ltb, leb, ◌||◌, not, is_empty, if◌then◌else◌, ◌==◌,
}
use checkdigit.Csv.{
  role_in_quotes, role_outside, CsvCell, Scan, start_scan, end_field, end_row, Role, role, step,
  scan_from, finish, drop_spurious, is_spurious, parse_records, escaped_quote, closing_quote,
  opening_quote, separator, return_newline, row_end, content,
}

-- The cells of a row lie in order between two offsets, each with a character behind it.
abbrev pub CellChain : ℕ → ℕ → List CsvCell → Type 0
CellChain from to [] = from ≤ to
CellChain from to (cell ∷ cells) =
    (from ≤ cell.val_start)
    × (cell.val_start ≤ cell.val_end)
    × CellChain (cell.val_end + 1) to cells

-- The same of the rows
abbrev pub RowChain : ℕ → ℕ → List (List CsvCell) → Type 0
RowChain from to [] = from ≤ to
RowChain from to (row ∷ rows) = (mid : ℕ) × CellChain from mid row × RowChain mid to rows

pub CellChain-below : (from to : ℕ) (cells : List CsvCell) → CellChain from to cells → from ≤ to
CellChain-below from to [] h = h
CellChain-below from to (cell ∷ cells) (h, k, hs) =
    let below = CellChain-below (cell.val_end + 1) to cells hs in omega arith

RowChain-below : (from to : ℕ) (rows : List (List CsvCell)) → RowChain from to rows → from ≤ to
RowChain-below from to [] h = h
RowChain-below from to (row ∷ rows) (mid, h, hs) =
    let below = CellChain-below from mid row h in
    let rest = RowChain-below mid to rows hs in omega arith

CellChain-snoc :
    (from mid to : ℕ) (cells : List CsvCell) (cell : CsvCell)
    → CellChain from mid cells
    → mid ≤ cell.val_start
    → cell.val_start ≤ cell.val_end
    → cell.val_end + 1 ≤ to
    → CellChain from to (cells ++ (cell ∷ []))
CellChain-snoc from mid to [] cell h a b c = (omega arith, b, c)
CellChain-snoc from mid to (x ∷ cells) cell (h, k, hs) a b c =
    (h, k, CellChain-snoc (x.val_end + 1) mid to cells cell hs a b c)

RowChain-snoc :
    (from mid to : ℕ) (rows : List (List CsvCell)) (row : List CsvCell)
    → RowChain from mid rows
    → CellChain mid to row
    → RowChain from to (rows ++ (row ∷ []))
RowChain-snoc from mid to [] row h k = (to, CellChain-from from mid to row h k, omega arith)
  where
    CellChain-from :
        (a b c : ℕ) (cells : List CsvCell) → a ≤ b → CellChain b c cells → CellChain a c cells
    CellChain-from a b c [] h k = omega arith
    CellChain-from a b c (cell ∷ cells) h (k, l, ks) = (omega arith, l, ks)
RowChain-snoc from mid to (r ∷ rows) row (m, h, hs) k = (m, h, RowChain-snoc m mid to rows row hs k)

RowChain-weaken :
    (from mid to : ℕ) (rows : List (List CsvCell))
    → mid ≤ to
    → RowChain from mid rows
    → RowChain from to rows
RowChain-weaken from mid to [] le h = omega arith
RowChain-weaken from mid to (row ∷ rows) le (m, h, hs) = (m, h, RowChain-weaken m mid to rows le hs)

-- The cells read so far lie behind one another before the field that is read, and this field begins
-- no later than the offset `i`, or just behind it when a character is to be passed over.
pub record IsSpanned (i : ℕ) (s : Scan) : Type 0 where
  pub row_start : ℕ
  pub rows : RowChain 0 row_start s.rows
  pub row : CellChain row_start s.field_start s.row
  pub place : s.field_start ≤ (if s.skip then i + 1 else i)

module _ (i : ℕ) (s : Scan) (h : IsSpanned i s) (here : s.field_start ≤ i) where
  end_field-CellChain : (next : ℕ) → i + 1 ≤ next → CellChain h.row_start next (end_field i s).row
  end_field-CellChain next le =
      CellChain-snoc h.row_start s.field_start next s.row _ h.row (omega arith) here le

  end_row-RowChain : (next : ℕ) → i + 1 ≤ next → RowChain 0 next (end_row i next s).rows
  end_row-RowChain next le =
      RowChain-snoc 0 h.row_start next s.rows _ h.rows (end_field-CellChain next le)

  end_row-IsSpanned :
      (next : ℕ) → next ≡ i + 1 → s.skip ≡ false → IsSpanned (i + 1) (end_row i next s)
  end_row-IsSpanned next e skip = record {
    row_start = next;
    rows = end_row-RowChain next (omega arith);
    row = omega arith;
    place = rw skip (omega arith);
  }

  step-IsSpanned : (r : Role) (ch : ℕ) → s.skip ≡ false → IsSpanned (i + 1) (step r i ch s)
  unfolding step
  step-IsSpanned escaped_quote ch skip = record {
    row_start = h.row_start;
    rows = h.rows;
    row = h.row;
    place = omega arith;
  }
  step-IsSpanned closing_quote ch skip = record {
    row_start = h.row_start;
    rows = h.rows;
    row = h.row;
    place = rw skip (omega arith);
  }
  step-IsSpanned opening_quote ch skip = record {
    row_start = h.row_start;
    rows = h.rows;
    row = h.row;
    place = rw skip (omega arith);
  }
  step-IsSpanned content ch skip = record {
    row_start = h.row_start;
    rows = h.rows;
    row = h.row;
    place = rw skip (omega arith);
  }
  step-IsSpanned separator ch skip = record {
    row_start = h.row_start;
    rows = h.rows;
    row = end_field-CellChain (i + 1) (omega arith);
    place = rw skip (omega arith);
  }
  step-IsSpanned return_newline ch skip = record {
    row_start = i + 2;
    rows = end_row-RowChain (i + 2) (omega arith);
    row = omega arith;
    place = omega arith;
  }
  step-IsSpanned row_end ch skip = end_row-IsSpanned (i + 1) refl skip

-- A character that is to be passed over is still ahead.
abbrev Remains : Bool → Str → Type 0
Remains true [] = true ≡ false
Remains _ _ = Unit

Remains-cons : (b : Bool) (c : ℕ) (cs : Str) → Remains b (c ∷ cs)
Remains-cons true c cs = tt
Remains-cons false c cs = tt

Remains-nil : (b : Bool) → Remains b [] → b ≡ false
Remains-nil true h = h
Remains-nil false h = refl

if_either : {A : Type 0} (P : A → Type 0) (b : Bool) {x y : A} → P x → P y → P (if b then x else y)
if_either P true h k = h
if_either P false h k = k

module _ (delimiter : Str) (i : ℕ) (s : Scan) (ch : ℕ) where
  -- The last character of the text never reads one more.
  step_at_end : s.skip ≡ false → (step (role delimiter i s ch []) i ch s).skip ≡ false
  unfolding step role role_in_quotes role_outside starts_with
  step_at_end skip =
      let Reads_one : Role → Type 0 = λ r. (step r i ch s).skip ≡ false in
      if_either Reads_one s.in_quotes (if_either Reads_one (ch == b'"') skip skip) (
        if_either Reads_one (ch == b'"' && i == s.field_start) skip (
          if_either Reads_one (str_eq (ch ∷ []) delimiter) skip
            (if_either Reads_one (ch == b'\r') skip (if_either Reads_one (ch == b'\n') skip skip))))

  step-Remains :
      (cs : Str) → s.skip ≡ false → Remains (step (role delimiter i s ch cs) i ch s).skip cs
  step-Remains [] skip = rw (step_at_end skip) tt
  step-Remains (c ∷ cs) skip = Remains-cons _ c cs

pub scan_from-IsSpanned :
    (delimiter : Str) (text : Str) (i : ℕ) (s : Scan)
    → IsSpanned i s
    → Remains s.skip text
    → IsSpanned (i + length text) (scan_from delimiter i s text)
      × ((scan_from delimiter i s text).skip ≡ false)
unfolding scan_from
scan_from-IsSpanned delimiter [] i s h remains =
    (subst (λ j. IsSpanned j s) (omega arith) h, Remains-nil s.skip remains)
scan_from-IsSpanned delimiter (ch ∷ cs) i s h remains =
    let s' = if s.skip then record s { skip = false } else step (role delimiter i s ch cs) i ch s in
    let (k, l) = next s.skip refl in
    let (m, last) = scan_from-IsSpanned delimiter cs (i + 1) s' k l in
    (subst (λ j. IsSpanned j (scan_from delimiter (i + 1) s' cs)) (omega arith) m, last)
  where
    next :
        (b : Bool)
        → s.skip ≡ b
        → IsSpanned
            (i + 1)
            (if b then record s { skip = false } else step (role delimiter i s ch cs) i ch s)
          × Remains
              (if b then record s { skip = false } else step (role delimiter i s ch cs) i ch s).skip
              cs
    next true skip = (
      record { row_start = h.row_start; rows = h.rows; row = h.row; place = rw skip at h.place },
      tt,
    )
    next false keep = (
      step-IsSpanned i s h (rw keep at h.place) (role delimiter i s ch cs) ch keep,
      step-Remains delimiter i s ch cs keep,
    )

finish-RowChain :
    (n : ℕ) (s : Scan) → IsSpanned n s → s.skip ≡ false → RowChain 0 (n + 1) (finish n s)
unfolding finish
finish-RowChain n s h skip =
    let here : s.field_start ≤ n = rw skip at h.place in
    if_either (RowChain 0 (n + 1))
      (ltb s.field_start n || not (is_empty s.buf) || leb 1 (length s.row))
      (RowChain-snoc 0 h.row_start (n + 1) s.rows _ h.rows
        (end_field-CellChain n s h here (n + 1) (omega arith)))
      (RowChain-weaken 0 h.row_start (n + 1) s.rows
        (let below = CellChain-below h.row_start s.field_start s.row h.row in omega arith) h.rows)

drop_spurious-RowChain :
    (n from to : ℕ) (rows : List (List CsvCell))
    → RowChain from to rows
    → RowChain from to (drop_spurious n rows)
unfolding drop_spurious
drop_spurious-RowChain n from to [] h = h
drop_spurious-RowChain n from to (row ∷ []) h =
    if_either (RowChain from to) (is_spurious n row) (RowChain-below from to (row ∷ []) h) h
drop_spurious-RowChain n from to (row ∷ next ∷ rows) (mid, h, hs) =
    (mid, h, drop_spurious-RowChain n mid to (next ∷ rows) hs)

-- The cells of a table lie one behind the other in its text, quotes included, each with a
-- character of its own behind it or the end of the text.
pub parse_records-RowChain :
    (text delimiter : Str) → RowChain 0 (length text + 1) (parse_records text delimiter)
unfolding parse_records
parse_records-RowChain text delimiter =
    let n = length text in
    let begun : IsSpanned 0 start_scan = record {
      row_start = 0;
      rows = omega arith;
      row = omega arith;
      place = omega arith;
    } in
    let (h, last) = scan_from-IsSpanned delimiter text 0 start_scan begun tt in
    let s = scan_from delimiter 0 start_scan text in
    drop_spurious-RowChain n 0 (n + 1) (finish n s)
      (finish-RowChain n s (subst (λ j. IsSpanned j s) (omega arith) h) last)
