-- ===== src/Csv.antt =====
-- Delimited tables, checkdigit/csv_locator.py and checkdigit/csv_corrector.py.
pub mod Spans
pub mod Cells
pub mod Header
pub mod Correct
pub mod Quoted
pub mod Written
use checkdigit.Common.{
  ℕ, ◌+◌, ◌-◌, Bool, true, false, ◌&&◌, ◌||◌, not, List, [], ◌∷◌, ◌++◌, map, Option, none, some,
  ◌==◌, leb, ltb, if◌then◌else◌, length, Str, codes, str_eq, starts_with, strip, is_blank, is_empty,
  slice, find_at, matches, splitlines, ℤ, pos, negsuc, Result, ok, err, ◌>>=◌, bad_owner_policy,
  column_not_found,
}
use checkdigit.Grouped.{Located, Item, correct_grouped}
use checkdigit.Grouped.Evaluate.{evaluate_all}
use checkdigit.Kernel.Decide.{Registry}
use checkdigit.Kernel.Types.{OwnerPolicy, is_owner_policy, bic_like}
use checkdigit.Policy.{Policy}
use checkdigit.Report.{row_col, CorrectionReport}
use checkdigit.Txt.{find_bic, context_of}

pub record CsvCell : Type 0 where
  pub row : ℕ
  pub col : ℕ
  pub value : Str
  pub val_start : ℕ
  pub val_end : ℕ
  pub quoted : Bool

-- `line.count(d)`
unfoldable pub count : ℕ → Str → ℕ
count d [] = 0
count d (c ∷ cs) = (if c == d then 1 else 0) + count d cs

-- `max(counts, key=counts.get)`: the first delimiter with the largest count
unfoldable pub most_frequent : Str → ℕ → List ℕ → ℕ
most_frequent line best [] = best
most_frequent line best (d ∷ ds) =
    most_frequent line (if ltb (count best line) (count d line) then d else best) ds

-- The first line that is not blank
unfoldable pub first_line : List Str → Str
first_line [] = []
first_line (line ∷ lines) = let rest = first_line lines in if is_blank line then rest else line

unfoldable pub sniff_delimiter : Str → Option Str → Str
sniff_delimiter text (some (d ∷ ds)) = d ∷ ds
sniff_delimiter text _ =
    let first = first_line (splitlines text) in
    let best = most_frequent first b',' (b'\t' ∷ b';' ∷ b'|' ∷ []) in
    if ltb 0 (count best first) then best ∷ [] else b',' ∷ []

-- The variables of `parse_records`; `skip` says that the next character was read along with the
-- last one, where the source adds two to `i`.
pub record Scan : Type 0 where
  pub rows : List (List CsvCell)
  pub row : List CsvCell
  pub field_start : ℕ
  pub buf : Str
  pub in_quotes : Bool
  pub quoted_field : Bool
  pub r : ℕ
  pub skip : Bool

abbrev pub start_scan : Scan
start_scan = record {
  rows = [];
  row = [];
  field_start = 0;
  buf = [];
  in_quotes = false;
  quoted_field = false;
  r = 0;
  skip = false;
}

-- `end_field`
abbrev pub end_field : ℕ → Scan → Scan
end_field end_pos s = record s {
  row =
      s.row
      ++ (record {
        row = s.r;
        col = length s.row;
        value = s.buf;
        val_start = s.field_start;
        val_end = end_pos;
        quoted = s.quoted_field;
      }
          ∷ []);
  buf = [];
  quoted_field = false;
}

-- `end_field`, the row that ends with it, and the offset `next` of the field behind it
abbrev pub end_row : ℕ → ℕ → Scan → Scan
end_row end_pos next s =
    let t = end_field end_pos s in
    record t { rows = t.rows ++ (t.row ∷ []); row = []; r = t.r + 1; field_start = next }

-- What a character is at its place, in the order of the tests
pub data Role : Type 0 where
  escaped_quote closing_quote opening_quote separator return_newline row_end content : Role

unfoldable pub role_in_quotes : ℕ → Str → Role
role_in_quotes ch next =
    if ch == b'"'
    then if starts_with (b'"' ∷ []) next then escaped_quote else closing_quote
    else content

unfoldable pub role_outside : Str → Bool → ℕ → Str → Role
role_outside delimiter at_start ch next =
    if ch == b'"' && at_start
    then opening_quote
    else if str_eq (ch ∷ []) delimiter
    then separator
    else if ch == b'\r'
    then if starts_with (b'\n' ∷ []) next then return_newline else row_end
    else if ch == b'\n'
    then row_end
    else content

unfoldable pub role : Str → ℕ → Scan → ℕ → Str → Role
role delimiter i s ch next =
    if s.in_quotes
    then role_in_quotes ch next
    else role_outside delimiter (i == s.field_start) ch next

unfoldable pub step : Role → ℕ → ℕ → Scan → Scan
step escaped_quote i ch s = record s { buf = s.buf ++ (b'"' ∷ []); skip = true }
step closing_quote i ch s = record s { in_quotes = false }
step opening_quote i ch s = record s { in_quotes = true; quoted_field = true }
step separator i ch s = record (end_field i s) { field_start = i + 1 }
step return_newline i ch s = record (end_row i (i + 2) s) { skip = true }
step row_end i ch s = end_row i (i + 1) s
step content i ch s = record s { buf = s.buf ++ (ch ∷ []) }

-- The loop, at offset `i`
unfoldable pub scan_from : Str → ℕ → Scan → Str → Scan
scan_from delimiter i s [] = s
scan_from delimiter i s (ch ∷ cs) =
    let s' = if s.skip then record s { skip = false } else step (role delimiter i s ch cs) i ch s in
    scan_from delimiter (i + 1) s' cs

-- The trailing field and row
unfoldable pub finish : ℕ → Scan → List (List CsvCell)
finish n s =
    if ltb s.field_start n || not (is_empty s.buf) || leb 1 (length s.row)
    then (end_row n n s).rows
    else s.rows

-- A row of one empty field at the end of the text
unfoldable pub is_spurious : ℕ → List CsvCell → Bool
is_spurious n (cell ∷ []) = is_empty cell.value && leb n cell.val_start
is_spurious n _ = false

unfoldable pub drop_spurious : ℕ → List (List CsvCell) → List (List CsvCell)
drop_spurious n [] = []
drop_spurious n (row ∷ []) = if is_spurious n row then [] else row ∷ []
drop_spurious n (row ∷ next ∷ rows) = row ∷ drop_spurious n (next ∷ rows)

unfoldable pub parse_records : Str → Str → List (List CsvCell)
parse_records text delimiter =
    drop_spurious (length text) (finish (length text) (scan_from delimiter 0 start_scan text))

pub data ColumnSel : Type 0 where
  index : ℤ → ColumnSel
  named : Str → ColumnSel

unfoldable pub header_row : Bool → List (List CsvCell) → List CsvCell
header_row true (row ∷ rows) = row
header_row _ _ = []

-- The columns are read by `str.lower` of Python, which is a parameter.
module _ (lower : Str → Str) where
  -- `header[key]`: the last cell with that name
  unfoldable pub header_col : Str → List CsvCell → Option ℕ
  header_col key [] = none
  header_col key (cell ∷ cells) = elim (header_col key cells) [
    | some col ↦ some col
    | none ↦ if str_eq (lower (strip cell.value)) key then some cell.col else none
  ]

  unfoldable pub resolve_columns : List CsvCell → List ColumnSel → Result (List ℤ)
  resolve_columns header [] = ok []
  resolve_columns header (index i ∷ sels) = do rest ← resolve_columns header sels; ok (i ∷ rest)
  resolve_columns header (named sel ∷ sels) = elim (header_col (lower (strip sel)) header) [
    | none ↦ err (column_not_found sel)
    | some col ↦ do rest ← resolve_columns header sels; ok (pos col ∷ rest)
  ]

-- `cell.col in targets`
unfoldable pub is_target : List ℤ → ℕ → Bool
is_target [] col = false
is_target (pos i ∷ targets) col = i == col || is_target targets col
is_target (negsuc i ∷ targets) col = is_target targets col

abbrev pub cell_ref : ℕ → CsvCell → ℕ × Str → Located
cell_ref ri cell (start, eqid) = record {
  eqid = eqid;
  offset = cell.val_start + start;
  label = row_col ri cell.col;
}

-- The references of a targeted cell; nothing reads `cell_quoted`.
unfoldable pub whole_ref : Str → ℕ → CsvCell → List Located
whole_ref text ri cell =
    let stripped = strip cell.value in
    let raw = slice text cell.val_start (cell.val_end - cell.val_start) in
    if matches bic_like stripped
    then elim (find_at 0 stripped raw) [ none ↦ [] | some i ↦ cell_ref ri cell (i, stripped) ∷ [] ]
    else []

unfoldable pub cell_refs : Str → Bool → ℕ → CsvCell → List Located
cell_refs text whole_cell ri cell =
    if whole_cell
    then whole_ref text ri cell
    else map (cell_ref ri cell)
        (find_bic (slice text cell.val_start (cell.val_end - cell.val_start)))

unfoldable pub row_refs : Str → Bool → List ℤ → ℕ → List CsvCell → List Located
row_refs text whole_cell targets ri [] = []
row_refs text whole_cell targets ri (cell ∷ cells) =
    let rest = row_refs text whole_cell targets ri cells in
    if is_target targets cell.col then cell_refs text whole_cell ri cell ++ rest else rest

unfoldable pub table_refs : Str → Bool → Bool → List ℤ → ℕ → List (List CsvCell) → List Located
table_refs text has_header whole_cell targets ri [] = []
table_refs text has_header whole_cell targets ri (row ∷ rows) =
    let rest = table_refs text has_header whole_cell targets (ri + 1) rows in
    if has_header && ri == 0 then rest else row_refs text whole_cell targets ri row ++ rest

-- What the caller says of the table
pub record Options : Type 0 where
  pub columns : List ColumnSel
  pub delimiter : Option Str
  pub has_header : Bool
  pub whole_cell : Bool

module _ (lower : Str → Str) where
  unfoldable pub locate_csv : Str → Options → Result (List Located)
  locate_csv text options = do
    let rows = parse_records text (sniff_delimiter text options.delimiter)
    targets ← resolve_columns lower (header_row options.has_header rows) options.columns
    ok (table_refs text options.has_header options.whole_cell targets 0 rows)

  unfoldable pub evaluate_csv :
      Str → Options → Bool → OwnerPolicy → Registry → Option Policy → Result (List Item)
  evaluate_csv text options trust owner_policy known policy =
      if not (is_owner_policy owner_policy) then err bad_owner_policy else do
        refs ← locate_csv text options
        evaluate_all (context_of trust) known owner_policy policy refs

  unfoldable pub correct_csv :
      Str → Options → Bool → OwnerPolicy → Registry → Option Policy → Result CorrectionReport
  correct_csv text options trust owner_policy known policy = do
    pairs ← evaluate_csv text options trust owner_policy known policy
    correct_grouped text owner_policy pairs
