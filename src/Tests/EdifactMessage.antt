-- ===== src/Tests/EdifactMessage.antt =====
-- The EDIFACT corrector at a message with a wrong check digit and an empty id.
use checkdigit.Common.{
  ◌+◌, ◌≡◌, refl, [], ◌∷◌, Str, codes, some, none, ok, All, length, str_eq, contains, is_space,
  matches, starts_with, is_blank, find_at, text_at, replace_first,
}
use checkdigit.Edifact.{
  locate_equipment, refs_in, iter_segments, parse_all, split_segments, split_from, role,
  detect_separators, parse_segment, split_on_from, ref_of, first_component, offset_from, emit,
  scan_next,
}
use checkdigit.Edifact.Corrector.{
  correct_edifact, evaluate_text, judge_all, judge, tally_all, tally_item, by_status,
  tally_corrected, dispositions,
}
use checkdigit.Edifact.Correct.{
  IsVerbatim, correct_edifact-counted, correct_edifact-total, Succeeds,
}
use checkdigit.Kernel.Decide.{category_type, decide_bic}
use checkdigit.Kernel.Digits.{iso6346_value, iso6346_total, iso6346_check_digit}
use checkdigit.Kernel.Normalize.{normalize, upper, upper_char, strip_separators}
use checkdigit.Kernel.Router.{correct_identifier, correct_plain, route, correct_bic_like}
use checkdigit.Kernel.Types.{strict, iso6346, Status, check_wrong}
use checkdigit.Report.{
  CorrectionReport, equipment_segment, mathematical_candidate, inventory_from_results, observe_all,
  observe, new_record, same_key, canonical_of, is_applied,
}
use checkdigit.Substitution.{apply_edits, sort_into, insert_edit, splice}

abbrev wrong_message : Str
wrong_message = codes "UNH+1'EQD+CN+CSQU3054384'EQD+CN'EQD+TE+X'"

abbrev message_report : CorrectionReport
message_report = record {
  owner_policy = strict;
  total_containers = 2;
  corrected =
      record {
        old = codes "CSQU3054384";
        new = codes "CSQU3054383";
        printed_check = codes "4";
        computed_check = codes "3";
        id_type = iso6346;
        occurrences =
            record {
              offset = 13;
              label = equipment_segment;
              before = codes "EQD+CN+CSQU3054384";
              after = codes "EQD+CN+CSQU3054383";
            }
            ∷ [];
        reason = check_wrong iso6346 (codes "4") (codes "3");
      }
      ∷ [];
  flagged = [];
  valid = 0;
  empty_id = 1;
  invalid = 0;
  corrected_text = some (codes "UNH+1'EQD+CN+CSQU3054383'EQD+CN'EQD+TE+X'");
  containers =
      record {
        as_found = codes "CSQU3054384";
        canonical = codes "CSQU3054383";
        owner = codes "CSQ";
        category = codes "U";
        id_type = iso6346;
        status = Status.corrected;
        printed_check = codes "4";
        computed_check = codes "3";
        occurrences = 1;
        normalized = codes "CSQU3054384";
        candidate = some (codes "CSQU3054383");
        identity_basis = mathematical_candidate;
      }
      ∷ [];
}

correct_edifact_run : correct_edifact wrong_message strict none ≡ ok message_report
unfolding correct_edifact evaluate_text judge_all judge tally_all tally_item by_status
    tally_corrected dispositions locate_equipment refs_in iter_segments parse_all split_segments
    split_from str_eq role detect_separators is_blank is_space parse_segment text_at split_on_from
    contains ref_of first_component offset_from starts_with emit find_at scan_next replace_first
    correct_identifier correct_plain route matches normalize upper strip_separators upper_char
    correct_bic_like iso6346_check_digit iso6346_total iso6346_value category_type decide_bic
    apply_edits sort_into insert_edit splice inventory_from_results observe_all observe new_record
    same_key canonical_of is_applied
correct_edifact_run = refl

wrong_message-IsVerbatim : All IsVerbatim (locate_equipment wrong_message)
unfolding locate_equipment refs_in iter_segments parse_all split_segments split_from str_eq role
    detect_separators is_blank is_space parse_segment text_at split_on_from contains ref_of
    first_component offset_from starts_with emit find_at scan_next
wrong_message-IsVerbatim = ((7, refl), ((0, refl), ((7, refl), tt)))

correct_edifact-counted_example :
    length message_report.corrected
      + length message_report.flagged
      + message_report.valid
      + message_report.empty_id
      + message_report.invalid
    ≡ message_report.total_containers
correct_edifact-counted_example =
    correct_edifact-counted wrong_message strict none correct_edifact_run

correct_edifact-total_example : Succeeds wrong_message strict none
correct_edifact-total_example =
    correct_edifact-total wrong_message strict none refl refl wrong_message-IsVerbatim
