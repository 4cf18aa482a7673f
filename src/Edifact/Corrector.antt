-- ===== src/Edifact/Corrector.antt =====
-- The evaluation of checkdigit/edifact_locator.py and the loop of checkdigit/edifact_corrector.py.
use checkdigit.Common.{
  ℕ, ◌+◌, List, [], ◌∷◌, ◌++◌, Option, none, some, if◌then◌else◌, length, Str, codes, str_eq, not,
  is_empty, replace_first, Result, ok, err, ◌>>=◌, bad_owner_policy, missing_offset,
  edit_before_start,
}
use checkdigit.Edifact.{EquipmentRef, locate_equipment}
use checkdigit.Kernel.Router.{correct_identifier}
use checkdigit.Kernel.Types.{
  Status, corrected, flagged, equipment_id, OwnerPolicy, is_owner_policy, CorrectionResult,
}
use checkdigit.Policy.{Policy}
use checkdigit.Report.{
  equipment_segment, Offset, at, minus_one, Change, Flag, CorrectionReport, or_empty,
  inventory_from_results,
}
use checkdigit.Substitution.{Edit, apply_edits}

-- A reference with an empty id has no result.
abbrev pub Item : Type 0
Item = EquipmentRef × Option CorrectionResult

unfoldable pub judge : EquipmentRef → OwnerPolicy → Option Policy → Result (Option CorrectionResult)
judge ref owner_policy policy =
    if is_empty ref.eqid
    then ok none
    else do r ← correct_identifier ref.eqid equipment_id none owner_policy policy; ok (some r)

-- `out.append((ref, r))`, ahead of what the later references give
abbrev pub prepend :
    EquipmentRef → Result (Option CorrectionResult) → Result (List Item) → Result (List Item)
prepend ref judged rest = do r ← judged; items ← rest; ok ((ref, r) ∷ items)

-- Only containers are judged.
unfoldable pub judge_all : OwnerPolicy → Option Policy → List EquipmentRef → Result (List Item)
judge_all owner_policy policy [] = ok []
judge_all owner_policy policy (ref ∷ refs) =
    let rest = judge_all owner_policy policy refs in
    if str_eq ref.qualifier (codes "CN")
    then prepend ref (judge ref owner_policy policy) rest
    else rest

unfoldable pub evaluate_text : Str → OwnerPolicy → Option Policy → Result (List Item)
evaluate_text text owner_policy policy =
    if not (is_owner_policy owner_policy)
    then err bad_owner_policy
    else judge_all owner_policy policy (locate_equipment text)

-- The variables of the loop
pub record Tally : Type 0 where
  pub edits : List Edit
  pub changes : List Change
  pub flags : List Flag
  pub valid : ℕ
  pub empty : ℕ
  pub invalid : ℕ

abbrev pub empty_tally : Tally
empty_tally = record { edits = []; changes = []; flags = []; valid = 0; empty = 0; invalid = 0 }

abbrev pub change_of : EquipmentRef → CorrectionResult → ℕ → Change
change_of ref r offset =
    let new = or_empty r.corrected in
    record {
      old = ref.eqid;
      new = new;
      printed_check = or_empty r.printed_check;
      computed_check = or_empty r.computed_check;
      id_type = r.id_type;
      occurrences =
          record {
            offset = offset;
            label = equipment_segment;
            before = ref.raw_segment;
            after = replace_first ref.eqid new ref.raw_segment;
          }
          ∷ [];
      reason = r.reason;
    }

abbrev pub edit_of : EquipmentRef → CorrectionResult → ℕ → Edit
edit_of ref r offset = record { start = offset; old = ref.eqid; new = or_empty r.corrected }

-- An edit at -1 is sorted to the front, where the splice raises; one with no offset cannot be sorted.
unfoldable pub tally_corrected :
    Option Offset → EquipmentRef → CorrectionResult → Tally → Result Tally
tally_corrected none ref r t = err missing_offset
tally_corrected (some minus_one) ref r t = err edit_before_start
tally_corrected (some (at offset)) ref r t = ok (record t {
  edits = t.edits ++ (edit_of ref r offset ∷ []);
  changes = t.changes ++ (change_of ref r offset ∷ []);
})

-- `ref.eqid_offset if ref.eqid_offset is not None else -1`
abbrev pub or_minus_one : Option Offset → Offset
or_minus_one none = minus_one
or_minus_one (some offset) = offset

unfoldable pub by_status : Status → EquipmentRef → CorrectionResult → Tally → Result Tally
by_status corrected ref r t = tally_corrected ref.eqid_offset ref r t
by_status Status.valid ref r t = ok (record t { valid = t.valid + 1 })
by_status flagged ref r t = ok (record t {
  flags =
      t.flags
      ++ (record {
        offset = or_minus_one ref.eqid_offset;
        eqid = ref.eqid;
        suggested_check = or_empty r.computed_check;
        reason = r.reason;
        occurrences = 1;
      }
          ∷ []);
})
by_status _ ref r t = ok (record t { invalid = t.invalid + 1 })

-- The body of the loop
unfoldable pub tally_item : Item → Tally → Result Tally
tally_item (ref, none) t = ok (record t { empty = t.empty + 1 })
tally_item (ref, some r) t = by_status r.status ref r t

unfoldable pub tally_all : List Item → Tally → Result Tally
tally_all [] t = ok t
tally_all (x ∷ xs) t = do t' ← tally_item x t; tally_all xs t'

-- The results that are there, with their statuses
unfoldable pub dispositions : List Item → List (CorrectionResult × Status)
dispositions [] = []
dispositions ((ref, none) ∷ xs) = dispositions xs
dispositions ((ref, some r) ∷ xs) = (r, r.status) ∷ dispositions xs

abbrev pub report_of : OwnerPolicy → List Item → Tally → Str → CorrectionReport
report_of owner_policy pairs t corrected_text = record {
  owner_policy = owner_policy;
  total_containers = length pairs;
  corrected = t.changes;
  flagged = t.flags;
  valid = t.valid;
  empty_id = t.empty;
  invalid = t.invalid;
  corrected_text = some corrected_text;
  containers = inventory_from_results (dispositions pairs);
}

unfoldable pub correct_edifact : Str → OwnerPolicy → Option Policy → Result CorrectionReport
correct_edifact text owner_policy policy = do
  pairs ← evaluate_text text owner_policy policy
  t ← tally_all pairs empty_tally
  corrected_text ← apply_edits text t.edits
  ok (report_of owner_policy pairs t corrected_text)
