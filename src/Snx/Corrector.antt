-- ===== src/Snx/Corrector.antt =====
-- The evaluation of checkdigit/snx_locator.py and the loop of checkdigit/snx_corrector.py.
use checkdigit.Common.{
  ℕ, ◌+◌, List, [], ◌∷◌, ◌++◌, map, Option, none, some, if◌then◌else◌, length, Str, not, Result, ok,
  err, ◌>>=◌, bad_owner_policy,
}
use checkdigit.Kernel.Router.{correct_identifier}
use checkdigit.Kernel.Types.{
  Status, corrected, flagged, equipment_id, OwnerPolicy, is_owner_policy, CorrectionResult,
}
use checkdigit.Policy.{Policy}
use checkdigit.Report.{
  attribute, Offset, at, minus_one, Occurrence, Change, Flag, CorrectionReport, or_empty,
  inventory_from_results,
}
use checkdigit.Snx.{XmlTools, SnxRef, Spot, assignment, locate_equipment}
use checkdigit.Substitution.{Edit, apply_edits}

abbrev pub Item : Type 0
Item = SnxRef × CorrectionResult

unfoldable pub judge_all : OwnerPolicy → Option Policy → List SnxRef → Result (List Item)
judge_all owner_policy policy [] = ok []
judge_all owner_policy policy (ref ∷ refs) = do
  r ← correct_identifier ref.eqid equipment_id none owner_policy policy
  rest ← judge_all owner_policy policy refs
  ok ((ref, r) ∷ rest)

unfoldable pub evaluate_text : XmlTools → Str → OwnerPolicy → Option Policy → Result (List Item)
evaluate_text tools text owner_policy policy =
    if not (is_owner_policy owner_policy)
    then err bad_owner_policy
    else do refs ← locate_equipment tools text; judge_all owner_policy policy refs

-- The variables of the loop
pub record Tally : Type 0 where
  pub edits : List Edit
  pub changes : List Change
  pub flags : List Flag
  pub valid : ℕ
  pub invalid : ℕ

abbrev pub empty_tally : Tally
empty_tally = record { edits = []; changes = []; flags = []; valid = 0; invalid = 0 }

abbrev pub edit_at : Str → Str → Spot → Edit
edit_at eqid new spot = record { start = spot.offset; old = eqid; new = new }

abbrev pub occurrence_at : Str → Str → Spot → Occurrence
occurrence_at eqid new spot = record {
  offset = spot.offset;
  label = attribute spot.element spot.attr;
  before = assignment spot.attr eqid;
  after = assignment spot.attr new;
}

abbrev pub change_of : SnxRef → CorrectionResult → Change
change_of ref r = record {
  old = ref.eqid;
  new = or_empty r.corrected;
  printed_check = or_empty r.printed_check;
  computed_check = or_empty r.computed_check;
  id_type = r.id_type;
  occurrences = map (occurrence_at ref.eqid (or_empty r.corrected)) ref.occurrences;
  reason = r.reason;
}

-- `ref.occurrences[0][0] if ref.occurrences else -1`
unfoldable pub first_offset : List Spot → Offset
first_offset [] = minus_one
first_offset (spot ∷ spots) = at spot.offset

-- The body of the loop
unfoldable pub by_status : Status → SnxRef → CorrectionResult → Tally → Tally
by_status corrected ref r t = record t {
  edits = t.edits ++ map (edit_at ref.eqid (or_empty r.corrected)) ref.occurrences;
  changes = t.changes ++ (change_of ref r ∷ []);
}
by_status Status.valid ref r t = record t { valid = t.valid + 1 }
by_status flagged ref r t = record t {
  flags =
      t.flags
      ++ (record {
        offset = first_offset ref.occurrences;
        eqid = ref.eqid;
        suggested_check = or_empty r.computed_check;
        reason = r.reason;
        occurrences = length ref.occurrences;
      }
          ∷ []);
}
by_status _ ref r t = record t { invalid = t.invalid + 1 }

unfoldable pub tally_all : List Item → Tally → Tally
tally_all [] t = t
tally_all ((ref, r) ∷ xs) t = tally_all xs (by_status r.status ref r t)

abbrev pub report_of : OwnerPolicy → List Item → Str → CorrectionReport
report_of owner_policy pairs corrected_text =
    let t = tally_all pairs empty_tally in
    record {
      owner_policy = owner_policy;
      total_containers = length pairs;
      corrected = t.changes;
      flagged = t.flags;
      valid = t.valid;
      empty_id = 0;
      invalid = t.invalid;
      corrected_text = some corrected_text;
      containers = inventory_from_results (map (λ (x : Item). (x.1, x.1.status)) pairs);
    }

unfoldable pub correct_snx : XmlTools → Str → OwnerPolicy → Option Policy → Result CorrectionReport
correct_snx tools text owner_policy policy = do
  pairs ← evaluate_text tools text owner_policy policy
  corrected_text ← apply_edits text (tally_all pairs empty_tally).edits
  ok (report_of owner_policy pairs corrected_text)
