-- ===== src/Fixedwidth.antt =====
-- Fixed-width tables, checkdigit/fixedwidth_locator.py and checkdigit/fixedwidth_corrector.py.
pub mod Spans
pub mod Placed
pub mod Correct
use checkdigit.Common.{
  ℕ, zero, suc, ◌+◌, ◌-◌, Bool, true, false, ◌&&◌, ◌||◌, not, List, [], ◌∷◌, ◌++◌, map, Option,
  none, some, ◌==◌, leb, ltb, min, if◌then◌else◌, length, Str, strip, is_empty, slice, find_at,
  matches, lines_with_ends, ℤ, pos, negsuc, Result, ok, err, ◌>>=◌, bad_owner_policy,
  bad_column_range,
}
use checkdigit.Grouped.{Located, Item, correct_grouped}
use checkdigit.Grouped.Evaluate.{evaluate_all}
use checkdigit.Kernel.Decide.{Registry}
use checkdigit.Kernel.Types.{OwnerPolicy, is_owner_policy, bic_like}
use checkdigit.Policy.{Policy}
use checkdigit.Report.{line_and_start, CorrectionReport}
use checkdigit.Txt.{find_bic, context_of}

-- The first and the last column, counted from 1
abbrev pub ColRange : Type 0
ColRange = ℤ × ℤ

-- A range that `_validate_ranges` lets pass
abbrev pub Columns : Type 0
Columns = ℕ × ℕ

unfoldable pub validate_range : ColRange → Result Columns
validate_range (pos (suc a), pos (suc b)) =
    if ltb b a then err (bad_column_range (pos (suc a)) (pos (suc b))) else ok (suc a, suc b)
validate_range (a, b) = err (bad_column_range a b)

unfoldable pub validate_ranges : List ColRange → Result (List Columns)
validate_ranges [] = ok []
validate_ranges (range ∷ ranges) = do
  columns ← validate_range range
  rest ← validate_ranges ranges
  ok (columns ∷ rest)

-- `line.rstrip("\r\n")`
unfoldable pub without_newline : Str → Str
without_newline [] = []
without_newline (c ∷ cs) =
    let rest = without_newline cs in
    if is_empty rest && (c == b'\r' || c == b'\n') then [] else c ∷ rest

pub record Span : Type 0 where
  pub line : ℕ
  pub start : ℕ
  pub content_len : ℕ

-- `_line_spans`, from line `i` at offset `o` on
unfoldable pub spans_from : ℕ → ℕ → List Str → List Span
spans_from i o [] = []
spans_from i o (line ∷ lines) =
    record { line = i; start = o; content_len = length (without_newline line) }
    ∷ spans_from (i + 1) (o + length line) lines

abbrev pub line_spans : Str → List Span
line_spans text = spans_from 1 0 (lines_with_ends text)

abbrev pub field_ref : ℕ → ℕ → ℕ → ℕ × Str → Located
field_ref line start s0 (i, eqid) = record {
  eqid = eqid;
  offset = start + s0 + i;
  label = line_and_start line (s0 + i + 1);
}

-- A field that is one token; `raw.find(stripped)` finds it, since it is a part of `raw`.
unfoldable pub whole_field_ref : Str → ℕ → ℕ → ℕ → List Located
whole_field_ref raw line start s0 =
    let stripped = strip raw in
    if matches bic_like stripped
    then elim (find_at 0 stripped raw) [
      | none ↦ []
      | some i ↦ field_ref line start s0 (i, stripped) ∷ []
    ]
    else []

unfoldable pub range_refs : Str → Bool → Span → Columns → List Located
range_refs text whole_field span (a, b) =
    let s0 = a - 1 in
    let e0 = min b span.content_len in
    let raw = slice text (span.start + s0) (e0 - s0) in
    if leb span.content_len s0 || leb e0 s0
    then []
    else if whole_field
    then whole_field_ref raw span.line span.start s0
    else map (field_ref span.line span.start s0) (find_bic raw)

unfoldable pub line_refs : Str → Bool → Span → List Columns → List Located
line_refs text whole_field span [] = []
line_refs text whole_field span (columns ∷ ranges) =
    range_refs text whole_field span columns ++ line_refs text whole_field span ranges

-- The first `header_lines` lines are passed over; a negative number of them is none.
unfoldable pub refs_of_spans : Str → Bool → ℕ → List Columns → List Span → List Located
refs_of_spans text whole_field header_lines ranges [] = []
refs_of_spans text whole_field header_lines ranges (span ∷ spans) =
    let rest = refs_of_spans text whole_field header_lines ranges spans in
    if leb span.line header_lines then rest else line_refs text whole_field span ranges ++ rest

unfoldable pub locate_fixedwidth : Str → List ColRange → ℕ → Bool → Result (List Located)
locate_fixedwidth text ranges header_lines whole_field = do
  columns ← validate_ranges ranges
  ok (refs_of_spans text whole_field header_lines columns (line_spans text))

unfoldable pub evaluate_fixedwidth :
    Str
    → List ColRange
    → Bool
    → OwnerPolicy
    → ℕ
    → Bool
    → Registry
    → Option Policy
    → Result (List Item)
evaluate_fixedwidth text ranges trust owner_policy header_lines whole_field known policy =
    if not (is_owner_policy owner_policy) then err bad_owner_policy else do
      refs ← locate_fixedwidth text ranges header_lines whole_field
      evaluate_all (context_of trust) known owner_policy policy refs

unfoldable pub correct_fixedwidth :
    Str
    → List ColRange
    → Bool
    → OwnerPolicy
    → ℕ
    → Bool
    → Registry
    → Option Policy
    → Result CorrectionReport
correct_fixedwidth text ranges trust owner_policy header_lines whole_field known policy = do
  pairs ← evaluate_fixedwidth text ranges trust owner_policy header_lines whole_field known policy
  correct_grouped text owner_policy pairs
