-- ===== src/Tests/X12Message.antt =====
-- The X12 corrector at a message with an N7 and an N9 segment.
use checkdigit.Common.{
  ◌≡◌, refl, ◌&&◌, ◌||◌, leb, is_digit, is_upper, Option, none, some, Str, codes, ok, All, EachPair,
  Result, err, contains, str_eq, is_space, matches,
}
use checkdigit.Kernel.Decide.{evaluate_bic, category_type, decide_bic}
use checkdigit.Kernel.Digits.{iso6346_value, iso6346_total, iso6346_check_digit}
use checkdigit.Kernel.Normalize.{normalize, upper, upper_char, strip_separators}
use checkdigit.Kernel.Router.{correct_identifier, correct_plain, route, correct_bic_like}
use checkdigit.Kernel.X12.{
  keep_digits, x12_result, decide_x12, correct_x12_plain, correct_x12_equipment,
}
use checkdigit.Substitution.{apply_edits, sort_into, insert_edit, splice}
use checkdigit.Kernel.Types.{strict}
use checkdigit.Report.{CorrectionReport}
use checkdigit.X12.{
  CharTests, locate_equipment, refs_in, iter_segments, with_fields, segments_from, emit_at,
  emit_last, role, detect_delims, scan_next, value_of, offset_of, split_from, n7_ref, n9_ref,
}
use checkdigit.X12.Corrector.{
  correct_x12, evaluate_text, judge_all, judge, transmitted, tally_all, by_status, tally_corrected,
}
use checkdigit.X12.Correct.{Succeeds, correct_x12-total}
use checkdigit.X12.Fielded.{IsFielded}
use checkdigit.X12.Located.{IsLocated, RefBefore, locate_equipment-IsLocated}

abbrev ascii : CharTests
ascii = record {
  isalnum = λ c. is_digit c || is_upper c || leb b'a' c && leb c b'z';
  isdigit = is_digit;
}

abbrev message : Str
message = codes "ST*1~N7*CSQU*305438****************4~N9*EQ*CSQU3054384~"

abbrev text_of : Result CorrectionReport → Option Str
text_of (err e) = none
text_of (ok report) = report.corrected_text

correct_x12_run :
    text_of (correct_x12 ascii message strict none)
    ≡ some (codes "ST*1~N7*CSQU*305438****************3~N9*EQ*CSQU3054383~")
unfolding correct_x12 evaluate_text judge_all locate_equipment refs_in iter_segments with_fields
    segments_from emit_at emit_last role contains detect_delims str_eq scan_next value_of offset_of
    split_from judge n7_ref n9_ref transmitted correct_x12_equipment correct_x12_plain x12_result
    decide_x12 keep_digits normalize upper upper_char strip_separators is_space matches evaluate_bic
    category_type iso6346_check_digit iso6346_total iso6346_value tally_all by_status
    tally_corrected apply_edits sort_into insert_edit splice correct_identifier correct_plain route
    correct_bic_like decide_bic
correct_x12_run = refl

correct_x12-total_example : Succeeds ascii message strict none
correct_x12-total_example = correct_x12-total ascii message strict none refl refl

locate_equipment-IsLocated_example :
    All (IsLocated message) (locate_equipment ascii message)
    × All (IsFielded (detect_delims ascii message).element) (locate_equipment ascii message)
    × EachPair RefBefore (locate_equipment ascii message)
locate_equipment-IsLocated_example = locate_equipment-IsLocated ascii message
