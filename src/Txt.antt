-- ===== src/Txt.antt =====
-- The plain-text path, checkdigit/txt_locator.py and checkdigit/txt_corrector.py.
pub mod Locate
pub mod Correct
pub mod Fields
use checkdigit.Common.{
  ℕ, zero, suc, ◌+◌, ◌-◌, Bool, true, false, not, List, [], ◌∷◌, ◌++◌, Option, none, some, ◌==◌,
  if◌then◌else◌, length, take, slice, Str, matches_prefix, Result, ok, err, ◌>>=◌, bad_owner_policy,
}
use checkdigit.Grouped.{Located, Item, correct_grouped}
use checkdigit.Grouped.Evaluate.{evaluate_all}
use checkdigit.Kernel.Decide.{Registry}
use checkdigit.Kernel.Router.{correct_identifier}
use checkdigit.Kernel.Types.{
  FieldContext, equipment_id, free_text, OwnerPolicy, is_owner_policy, bic_like,
}
use checkdigit.Policy.{Policy}
use checkdigit.Report.{Label, line_col, CorrectionReport}

-- `_RE_BIC.finditer(text)` from offset `o` on: the matches are found from left to right and do not
-- overlap. `skip` counts the characters of the last match that are still ahead.
unfoldable pub find_from : (skip o : ℕ) → Str → List (ℕ × Str)
find_from skip o [] = []
find_from (suc skip) o (c ∷ cs) = find_from skip (o + 1) cs
find_from zero o (c ∷ cs) =
    let found = matches_prefix bic_like (c ∷ cs) in
    let rest = find_from (if found then 10 else 0) (o + 1) cs in
    if found then (o, take 11 (c ∷ cs)) ∷ rest else rest

abbrev pub find_bic : Str → List (ℕ × Str)
find_bic = find_from 0 0

-- `text.count("\n", 0, offset)`, for `s` the text up to the offset
unfoldable pub newlines : Str → ℕ
newlines [] = 0
newlines (c ∷ cs) = (if c == b'\n' then 1 else 0) + newlines cs

-- `offset - text.rfind("\n", 0, offset)`, where -1 is found if there is no newline: `col` counts
-- the characters behind the last newline, plus one.
unfoldable pub column : ℕ → Str → ℕ
column col [] = col
column col (c ∷ cs) = column (if c == b'\n' then 1 else col + 1) cs

-- `_line_col`
unfoldable pub line_and_col : Str → ℕ → Label
line_and_col text offset = line_col (newlines (take offset text) + 1) (column 1 (take offset text))

-- `locate_equipment`; the line and column of a reference are its label.
unfoldable pub refs_of : Str → List (ℕ × Str) → List Located
refs_of text [] = []
refs_of text ((offset, eqid) ∷ found) =
    record { eqid = eqid; offset = offset; label = line_and_col text offset } ∷ refs_of text found

unfoldable pub locate_equipment : Str → List Located
locate_equipment text = refs_of text (find_bic text)

-- `FieldContext.EQUIPMENT_ID if trust else FieldContext.FREE_TEXT`
abbrev pub context_of : Bool → FieldContext
context_of trust = if trust then equipment_id else free_text

unfoldable pub evaluate_text :
    Str → Bool → OwnerPolicy → Registry → Option Policy → Result (List Item)
evaluate_text text trust owner_policy known policy =
    if not (is_owner_policy owner_policy)
    then err bad_owner_policy
    else evaluate_all (context_of trust) known owner_policy policy (locate_equipment text)

unfoldable pub correct_txt :
    Str → Bool → OwnerPolicy → Registry → Option Policy → Result CorrectionReport
correct_txt text trust owner_policy known policy = do
  pairs ← evaluate_text text trust owner_policy known policy
  correct_grouped text owner_policy pairs
