-- ===== src/Tests/Columns.antt =====
-- The fixed-width corrector at a file of two lines.
use checkdigit.Grouped.{
  add_item, correct_grouped, group_items, tally_group, tally_groups, by_status,
}
use checkdigit.Grouped.Evaluate.{evaluate_all}
use checkdigit.Kernel.Decide.{category_type, decide_bic}
use checkdigit.Kernel.Digits.{iso6346_value, iso6346_total, iso6346_check_digit}
use checkdigit.Kernel.Normalize.{normalize, upper, upper_char, strip_separators}
use checkdigit.Kernel.Router.{correct_identifier, correct_plain, route, correct_bic_like}
use checkdigit.Substitution.{apply_edits, sort_into, insert_edit, splice}
use checkdigit.Common.{
  ℤ, arith, matches, strip, is_space, find_at, lstrip, starts_with, str_eq, contains, lines_from,
  is_break, ◌≡◌, refl, true, List, [], ◌∷◌, Str, codes, none, err, pos, overlapping_edit, arith, ℤ,
}
use checkdigit.Fixedwidth.{
  evaluate_fixedwidth, locate_fixedwidth, refs_of_spans, spans_from, line_refs, range_refs,
  without_newline, whole_field_ref, validate_ranges, validate_range, correct_fixedwidth,
}
use checkdigit.Kernel.Types.{strict}

abbrev lines : Str
lines = codes "a CSQU3054384 MSCU1234560\r\nb             CSQU3054384\n"

abbrev two_ranges : List (ℤ × ℤ)
two_ranges = (pos 3, pos 13) ∷ (pos 15, pos 25) ∷ []

abbrev same_range : List (ℤ × ℤ)
same_range = (pos 1, pos 11) ∷ (pos 1, pos 11) ∷ []

-- Two ranges that share a column may ask for the same edit twice.
overlap_run :
    correct_fixedwidth (codes "CSQU3054384") same_range true strict 0 true none none
    ≡ err (overlapping_edit 0 11)
unfolding correct_fixedwidth evaluate_fixedwidth locate_fixedwidth validate_ranges validate_range
    evaluate_all refs_of_spans spans_from lines_from is_break line_refs range_refs without_newline
    whole_field_ref matches strip is_space find_at lstrip starts_with str_eq add_item
    correct_grouped group_items tally_group tally_groups category_type contains decide_bic
    iso6346_check_digit iso6346_total iso6346_value normalize strip_separators upper upper_char
    correct_bic_like correct_identifier correct_plain route apply_edits insert_edit sort_into splice
    by_status
overlap_run = refl
