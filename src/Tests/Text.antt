-- ===== src/Tests/Text.antt =====
-- The plain-text corrector at a text of two lines.
use checkdigit.Report.Inventory.{total_occurrences, total_occurrences-inventory_from_results}
use checkdigit.Kernel.Types.{high, CorrectionResult}
use checkdigit.Common.{
  ◌≡◌, refl, true, List, [], ◌∷◌, Str, codes, drop, contains, ok, All, EachPair, Any, str_eq,
  matches, some, none, is_space, matches_prefix, length,
}
use checkdigit.Grouped.{correct_grouped, tally_groups, tally_group, group_items, add_item}
use checkdigit.Grouped.Apply.{change_edits}
use checkdigit.Grouped.Evaluate.{evaluate_all}
use checkdigit.Kernel.Decide.{category_type, decide_bic}
use checkdigit.Kernel.Digits.{iso6346_value, iso6346_total, iso6346_check_digit}
use checkdigit.Kernel.Normalize.{normalize, upper, upper_char, strip_separators}
use checkdigit.Kernel.Router.{correct_identifier, correct_plain, route, correct_bic_like}
use checkdigit.Kernel.Types.{iso6346, Status, strict, bic_like, check_wrong}
use checkdigit.Report.{
  Change, ContainerRecord, CorrectionReport, line_col, mathematical_candidate,
  inventory_from_results, observe_all, observe, new_record, same_key, canonical_of, is_applied,
}
use checkdigit.Substitution.{apply_edits, sort_into, insert_edit, splice}
use checkdigit.Txt.{
  find_bic, find_from, locate_equipment, refs_of, line_and_col, newlines, column, evaluate_text,
  correct_txt,
}
use checkdigit.Txt.Correct.{correct_txt-total, correct_txt-report}
use checkdigit.Txt.Locate.{locate_equipment_sound, find_bic_complete, IsToken, RefBefore, Covers}

abbrev manifest : Str
manifest = codes "1 CSQU3054384\n2 CSQU3054384"

abbrev wrong_number : Str
wrong_number = codes "CSQU3054384"

abbrev right_number : Str
right_number = codes "CSQU3054383"

abbrev manifest_changes : List Change
manifest_changes =
    record {
      old = wrong_number;
      new = right_number;
      printed_check = codes "4";
      computed_check = codes "3";
      id_type = iso6346;
      occurrences =
          record { offset = 2; label = line_col 1 3; before = wrong_number; after = right_number }
          ∷ record {
            offset = 16;
            label = line_col 2 3;
            before = wrong_number;
            after = right_number;
          }
          ∷ [];
      reason = check_wrong iso6346 (codes "4") (codes "3");
    }
    ∷ []

abbrev manifest_containers : List ContainerRecord
manifest_containers =
    record {
      as_found = wrong_number;
      canonical = right_number;
      owner = codes "CSQ";
      category = codes "U";
      id_type = iso6346;
      status = Status.corrected;
      printed_check = codes "4";
      computed_check = codes "3";
      occurrences = 2;
      normalized = wrong_number;
      candidate = some right_number;
      identity_basis = mathematical_candidate;
    }
    ∷ []

abbrev manifest_report : CorrectionReport
manifest_report = record {
  owner_policy = strict;
  total_containers = 1;
  corrected = manifest_changes;
  flagged = [];
  valid = 0;
  empty_id = 0;
  invalid = 0;
  corrected_text = some (codes "1 CSQU3054383\n2 CSQU3054383");
  containers = manifest_containers;
}

manifest_run : correct_txt manifest true strict none none ≡ ok manifest_report
unfolding correct_txt evaluate_text evaluate_all locate_equipment refs_of find_from matches_prefix
    line_and_col newlines column correct_identifier correct_plain route matches normalize upper
    strip_separators is_space upper_char correct_bic_like iso6346_check_digit iso6346_total
    iso6346_value category_type contains decide_bic str_eq correct_grouped tally_groups tally_group
    group_items add_item apply_edits sort_into insert_edit splice inventory_from_results observe_all
    observe new_record same_key canonical_of is_applied
manifest_run = refl

shape_at_second_line : matches_prefix bic_like (drop 16 manifest) ≡ true
unfolding matches_prefix
shape_at_second_line = refl

correct_txt-total_example :
    (report : CorrectionReport) × (correct_txt manifest true strict none none ≡ ok report)
correct_txt-total_example = correct_txt-total manifest true strict none none refl refl

correct_txt-report_example :
    (out : Str) × (manifest_report.corrected_text ≡ some out)
    × (apply_edits manifest (change_edits manifest_report.corrected) ≡ ok out)
correct_txt-report_example = correct_txt-report manifest true strict none none manifest_run

locate_equipment_sound_example :
    All (IsToken manifest) (locate_equipment manifest)
    × EachPair RefBefore (locate_equipment manifest)
locate_equipment_sound_example = locate_equipment_sound manifest

find_bic_complete_example : Any (Covers 16) (find_bic manifest)
find_bic_complete_example = find_bic_complete manifest 16 shape_at_second_line

abbrev manifest_result : CorrectionResult
manifest_result = record {
  raw = wrong_number;
  normalized = wrong_number;
  id_type = iso6346;
  status = Status.corrected;
  confidence = high;
  reason = check_wrong iso6346 (codes "4") (codes "3");
  printed_check = some (codes "4");
  computed_check = some (codes "3");
  corrected = some right_number;
}

abbrev manifest_dispositions : List (CorrectionResult × Status)
manifest_dispositions =
    (manifest_result, Status.corrected) ∷ (manifest_result, Status.corrected) ∷ []

total_occurrences-inventory_from_results_example :
    total_occurrences (inventory_from_results manifest_dispositions) ≡ length manifest_dispositions
total_occurrences-inventory_from_results_example =
    total_occurrences-inventory_from_results manifest_dispositions
