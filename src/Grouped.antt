-- ===== src/Grouped.antt =====
-- The corrector loop of checkdigit/txt_corrector.py, which csv_corrector.py and
-- fixedwidth_corrector.py repeat word for word: results are grouped by token, and each distinct
-- token becomes one change with all its occurrences. A reference is known by its token, its offset
-- and its label.
pub mod Edits
pub mod Apply
pub mod Evaluate
use checkdigit.Common.{
  ℕ, ◌+◌, Bool, true, false, List, [], ◌∷◌, ◌++◌, map, Option, none, some, if◌then◌else◌, length,
  Str, str_eq, Result, ok, err, ◌>>=◌,
}
use checkdigit.Kernel.Types.{
  Status, valid, corrected, flagged, invalid_structure, OwnerPolicy, CorrectionResult,
}
use checkdigit.Report.{
  at, Label, Occurrence, Change, Flag, CorrectionReport, or_empty, inventory_from_results,
}
use checkdigit.Substitution.{Edit, apply_edits}

-- What the loop reads of a reference
pub record Located : Type 0 where
  pub eqid : Str
  pub offset : ℕ
  pub label : Label

abbrev pub Item : Type 0
Item = Located × CorrectionResult

abbrev pub Group : Type 0
Group = Str × List Item

-- `groups.setdefault(ref.eqid, []).append((ref, r))`
unfoldable pub add_item : Item → List Group → List Group
add_item x [] = (x.0.eqid, x ∷ []) ∷ []
add_item x ((k, xs) ∷ gs) =
    if str_eq k x.0.eqid then (k, xs ++ x ∷ []) ∷ gs else (k, xs) ∷ add_item x gs

unfoldable pub group_items : List Item → List Group → List Group
group_items [] gs = gs
group_items (x ∷ xs) gs = group_items xs (add_item x gs)

-- The variables of the loop
pub record Tally : Type 0 where
  pub edits : List Edit
  pub changes : List Change
  pub flags : List Flag
  pub valid : ℕ
  pub invalid : ℕ

abbrev pub empty_tally : Tally
empty_tally = record { edits = []; changes = []; flags = []; valid = 0; invalid = 0 }

abbrev pub edit_of : Str → Item → Edit
edit_of eqid (ref, r) = record { start = ref.offset; old = eqid; new = or_empty r.corrected }

abbrev pub occurrence_of : Str → Item → Occurrence
occurrence_of eqid (ref, r) = record {
  offset = ref.offset;
  label = ref.label;
  before = eqid;
  after = or_empty r.corrected;
}

abbrev pub change_of : Str → Item → List Item → Change
change_of eqid (_, r0) items = record {
  old = eqid;
  new = or_empty r0.corrected;
  printed_check = or_empty r0.printed_check;
  computed_check = or_empty r0.computed_check;
  id_type = r0.id_type;
  occurrences = map (occurrence_of eqid) items;
  reason = r0.reason;
}

-- The fall-through branch: fix every occurrence.
tally_corrected : Str → Item → List Item → Tally → Tally
tally_corrected eqid x items t = record t {
  edits = t.edits ++ map (edit_of eqid) items;
  changes = t.changes ++ (change_of eqid x items ∷ []);
}

tally_flagged : Str → Item → List Item → Tally → Tally
tally_flagged eqid (ref0, r0) items t = record t {
  flags =
      t.flags
      ++ (record {
        offset = at ref0.offset;
        eqid = eqid;
        suggested_check = or_empty r0.computed_check;
        reason = r0.reason;
        occurrences = length items;
      }
          ∷ []);
}

-- The body of the loop, by the status of the group's first result. A group is never empty.
unfoldable pub by_status : Status → Str → Item → List Item → Tally → Tally
unfolding tally_corrected tally_flagged
by_status Status.valid eqid x items t = record t { valid = t.valid + 1 }
by_status invalid_structure eqid x items t = record t { invalid = t.invalid + 1 }
by_status flagged eqid x items t = tally_flagged eqid x items t
by_status _ eqid x items t = tally_corrected eqid x items t

unfoldable pub tally_group : Group → Tally → Tally
unfolding by_status
tally_group (eqid, []) t = t
tally_group (eqid, x ∷ items) t = by_status (x.1.status) eqid x (x ∷ items) t

unfoldable pub tally_groups : List Group → Tally → Tally
tally_groups [] t = t
tally_groups (g ∷ gs) t = tally_groups gs (tally_group g t)

-- `[(r, r.status.value) for _, r in pairs]`
abbrev pub dispositions : List Item → List (CorrectionResult × Status)
dispositions = map (λ x. (x.1, x.1.status))

-- The `CorrectionReport` at the end
abbrev pub report_of : OwnerPolicy → List Item → Str → CorrectionReport
report_of owner_policy pairs corrected_text =
    let groups = group_items pairs [] in
    let t = tally_groups groups empty_tally in
    record {
      owner_policy = owner_policy;
      total_containers = length groups;
      corrected = t.changes;
      flagged = t.flags;
      valid = t.valid;
      empty_id = 0;
      invalid = t.invalid;
      corrected_text = some corrected_text;
      containers = inventory_from_results (dispositions pairs);
    }

-- Everything behind the evaluation of the references.
unfoldable pub correct_grouped : Str → OwnerPolicy → List Item → Result CorrectionReport
correct_grouped text owner_policy pairs = do
  corrected_text ← apply_edits text (tally_groups (group_items pairs []) empty_tally).edits
  ok (report_of owner_policy pairs corrected_text)
