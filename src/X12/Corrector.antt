-- ===== src/X12/Corrector.antt =====
-- The evaluation of checkdigit/x12_locator.py and the loop of checkdigit/x12_corrector.py.
use checkdigit.Common.{
  ℕ, ◌+◌, ◌-◌, Bool, List, [], ◌∷◌, ◌++◌, map, Option, none, some, if◌then◌else◌, length, drop,
  take, Str, join, replace_first, Result, ok, err, ◌>>=◌, not, bad_owner_policy, missing_offset,
}
use checkdigit.Kernel.Normalize.{upper}
use checkdigit.Kernel.Router.{correct_identifier}
use checkdigit.Kernel.Types.{
  Status, invalid_structure, flagged, equipment_id, OwnerPolicy, is_owner_policy, CorrectionResult,
  x12_absent_element,
}
use checkdigit.Kernel.X12.{zfill, correct_x12_equipment}
use checkdigit.Policy.{Policy}
use checkdigit.Report.{
  check_element, reference_segment, Offset, at, Change, Flag, CorrectionReport, or_empty,
  inventory_from_results,
}
use checkdigit.Substitution.{Edit, apply_edits}
use checkdigit.X12.{CharTests, detect_delims, split_from, Kind, n7, n9_eq, X12Ref, locate_equipment}

abbrev pub Item : Type 0
Item = X12Ref × CorrectionResult

-- `ref.check_value if ref.check_value else None`
unfoldable pub transmitted : Option Str → Option Str
transmitted (some (c ∷ cs)) = some (c ∷ cs)
transmitted _ = none

unfoldable pub judge : Kind → X12Ref → OwnerPolicy → Option Policy → Result CorrectionResult
judge n7 ref owner_policy policy =
    correct_x12_equipment (or_empty ref.initial) (or_empty ref.number) (transmitted ref.check_value)
      none policy
judge n9_eq ref owner_policy policy =
    correct_identifier (or_empty ref.token) equipment_id none owner_policy policy

unfoldable pub judge_all : OwnerPolicy → Option Policy → List X12Ref → Result (List Item)
judge_all owner_policy policy [] = ok []
judge_all owner_policy policy (ref ∷ refs) = do
  r ← judge ref.kind ref owner_policy policy
  rest ← judge_all owner_policy policy refs
  ok ((ref, r) ∷ rest)

unfoldable pub evaluate_text : CharTests → Str → OwnerPolicy → Option Policy → Result (List Item)
evaluate_text tests text owner_policy policy =
    if not (is_owner_policy owner_policy)
    then err bad_owner_policy
    else judge_all owner_policy policy (locate_equipment tests text)

unfoldable pub filter_by : (ℕ → Bool) → Str → Str
filter_by p [] = []
filter_by p (c ∷ cs) = let rest = filter_by p cs in if p c then c ∷ rest else rest

-- The last six characters
unfoldable pub last_six : Str → Str
last_six s = drop (length s - 6) s

-- `_body10`
unfoldable pub body10 : CharTests → Option Str → Option Str → Str
body10 tests initial number =
    upper (or_empty initial) ++ last_six (zfill 6 (filter_by tests.isdigit (or_empty number)))

-- The loop's variables; `disp` holds the results with the corrector's own decision.
pub record Tally : Type 0 where
  pub edits : List Edit
  pub changes : List Change
  pub flags : List Flag
  pub disp : List (CorrectionResult × Status)
  pub valid : ℕ
  pub invalid : ℕ

abbrev pub empty_tally : Tally
empty_tally = record { edits = []; changes = []; flags = []; disp = []; valid = 0; invalid = 0 }

-- `off if off is not None else ref.seg_start`
abbrev pub or_start : ℕ → Option ℕ → Offset
or_start start none = at start
or_start start (some o) = at o

unfoldable pub flag_of : CharTests → Kind → X12Ref → CorrectionResult → Flag
flag_of tests n7 ref r = record {
  offset = or_start ref.seg_start ref.check_offset;
  eqid = body10 tests ref.initial ref.number;
  suggested_check = or_empty r.computed_check;
  reason = r.reason;
  occurrences = 1;
}
flag_of tests n9_eq ref r = record {
  offset = or_start ref.seg_start ref.token_offset;
  eqid = or_empty ref.token;
  suggested_check = or_empty r.computed_check;
  reason = r.reason;
  occurrences = 1;
}

abbrev pub absent_flag : CharTests → X12Ref → CorrectionResult → Flag
absent_flag tests ref r = record {
  offset = at ref.seg_start;
  eqid = body10 tests ref.initial ref.number;
  suggested_check = or_empty r.computed_check;
  reason = x12_absent_element (or_empty r.computed_check);
  occurrences = 1;
}

-- `r.printed_check or "_"`
unfoldable pub or_underscore : Option Str → Str
or_underscore (some (c ∷ cs)) = c ∷ cs
or_underscore _ = b'_' ∷ []

-- `ele.join(els[:18] + [new] + els[19:])`
unfoldable pub with_check : ℕ → Str → Str → Str
with_check ele raw new =
    let els = map (λ (f : Str × ℕ). f.0) (split_from ele 0 0 [] raw) in
    join ele (take 18 els ++ (new ∷ drop 19 els))

unfoldable pub n7_change : CharTests → ℕ → X12Ref → CorrectionResult → ℕ → Change
n7_change tests ele ref r offset =
    let new = or_empty r.computed_check in
    let body = body10 tests ref.initial ref.number in
    record {
      old = body ++ or_underscore r.printed_check;
      new = body ++ new;
      printed_check = or_empty r.printed_check;
      computed_check = new;
      id_type = r.id_type;
      occurrences =
          record {
            offset = offset;
            label = check_element;
            before = ref.raw_segment;
            after = with_check ele ref.raw_segment new;
          }
          ∷ [];
      reason = r.reason;
    }

unfoldable pub n9_change : X12Ref → CorrectionResult → ℕ → Change
n9_change ref r offset =
    let old = or_empty ref.token in
    let new = or_empty r.corrected in
    record {
      old = old;
      new = new;
      printed_check = or_empty r.printed_check;
      computed_check = or_empty r.computed_check;
      id_type = r.id_type;
      occurrences =
          record {
            offset = offset;
            label = reference_segment;
            before = ref.raw_segment;
            after = replace_first old new ref.raw_segment;
          }
          ∷ [];
      reason = r.reason;
    }

-- The branch of CORRECTED, by the kind and the offset to be written; an edit with no offset cannot
-- be sorted, and the splice raises.
unfoldable pub tally_corrected :
    CharTests → ℕ → Kind → Option ℕ → X12Ref → CorrectionResult → Tally → Result Tally
tally_corrected tests ele n7 none ref r t = ok (record t {
  flags = t.flags ++ (absent_flag tests ref r ∷ []);
  disp = t.disp ++ ((r, flagged) ∷ []);
})
tally_corrected tests ele n7 (some offset) ref r t = ok (record t {
  edits =
      t.edits
      ++ (record { start = offset; old = or_empty ref.check_value; new = or_empty r.computed_check }
          ∷ []);
  changes = t.changes ++ (n7_change tests ele ref r offset ∷ []);
  disp = t.disp ++ ((r, Status.corrected) ∷ []);
})
tally_corrected tests ele n9_eq none ref r t = err missing_offset
tally_corrected tests ele n9_eq (some offset) ref r t = ok (record t {
  edits =
      t.edits
      ++ (record { start = offset; old = or_empty ref.token; new = or_empty r.corrected } ∷ []);
  changes = t.changes ++ (n9_change ref r offset ∷ []);
  disp = t.disp ++ ((r, Status.corrected) ∷ []);
})

-- The offset that a correction writes at
abbrev pub target_offset : X12Ref → Option ℕ
target_offset ref = elim (ref.kind) [ n7 ↦ ref.check_offset | n9_eq ↦ ref.token_offset ]

-- The body of the loop
unfoldable pub by_status : CharTests → ℕ → Status → Item → Tally → Result Tally
by_status tests ele Status.valid (ref, r) t =
    ok (record t { valid = t.valid + 1; disp = t.disp ++ ((r, Status.valid) ∷ []) })
by_status tests ele invalid_structure (ref, r) t =
    ok (record t { invalid = t.invalid + 1; disp = t.disp ++ ((r, invalid_structure) ∷ []) })
by_status tests ele flagged (ref, r) t = ok (record t {
  flags = t.flags ++ (flag_of tests ref.kind ref r ∷ []);
  disp = t.disp ++ ((r, flagged) ∷ []);
})
by_status tests ele _ (ref, r) t = tally_corrected tests ele ref.kind (target_offset ref) ref r t

unfoldable pub tally_all : CharTests → ℕ → List Item → Tally → Result Tally
tally_all tests ele [] t = ok t
tally_all tests ele (x ∷ xs) t = do
  t' ← by_status tests ele (x.1.status) x t
  tally_all tests ele xs t'

abbrev pub report_of : OwnerPolicy → List Item → Tally → Str → CorrectionReport
report_of owner_policy pairs t corrected_text = record {
  owner_policy = owner_policy;
  total_containers = length pairs;
  corrected = t.changes;
  flagged = t.flags;
  valid = t.valid;
  empty_id = 0;
  invalid = t.invalid;
  corrected_text = some corrected_text;
  containers = inventory_from_results t.disp;
}

unfoldable pub correct_x12 : CharTests → Str → OwnerPolicy → Option Policy → Result CorrectionReport
correct_x12 tests text owner_policy policy = do
  pairs ← evaluate_text tests text owner_policy policy
  t ← tally_all tests (detect_delims tests text).element pairs empty_tally
  corrected_text ← apply_edits text t.edits
  ok (report_of owner_policy pairs t corrected_text)
