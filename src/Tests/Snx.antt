-- ===== src/Tests/Snx.antt =====
-- The XML corrector at a document with one unit.
use checkdigit.Common.{
  ℕ, ◌≡◌, ◌-◌, refl, ◌&&◌, ◌||◌, leb, ◌==◌, if◌then◌else◌, is_digit, is_upper, List, [], ◌∷◌, Str,
  codes, Option, some, none, ok, err, Result, str_eq, starts_with, contains, is_space, matches,
}
use checkdigit.Kernel.Decide.{category_type, decide_bic}
use checkdigit.Kernel.Digits.{iso6346_value, iso6346_total, iso6346_check_digit}
use checkdigit.Kernel.Normalize.{normalize, upper, upper_char, strip_separators}
use checkdigit.Kernel.Router.{correct_identifier, correct_plain, route, correct_bic_like}
use checkdigit.Kernel.Types.{strict}
use checkdigit.Report.{CorrectionReport}
use checkdigit.Snx.{
  Element, XmlTools, SnxRef, starts_with_ignoring_case, occurs_ignoring_case, harden_and_parse,
  after_last, carries_eqid, count_value, count_attributes, parsed_counts, last_open, name_prefix,
  element_of, match_attr, spots_from, refs_of, locate_equipment,
}
use checkdigit.Snx.Corrector.{correct_snx, evaluate_text, judge_all, tally_all, by_status}
use checkdigit.Snx.Hardened.{Occurs}
use checkdigit.Snx.Spots.{IsSynced, locate_equipment-IsSynced}
use checkdigit.Substitution.{apply_edits, sort_into, insert_edit, splice}

abbrev document : Str
document = codes "<snx><unit id=\"CSQU3054384\" unique-key=\"CSQU3054384\"/></snx>"

abbrev elements : List Element
elements =
    record { tag = codes "snx"; attrib = [] }
    ∷ record {
      tag = codes "unit";
      attrib = (codes "id", codes "CSQU3054384") ∷ (codes "unique-key", codes "CSQU3054384") ∷ [];
    }
    ∷ []

abbrev ascii_upper : ℕ → ℕ
ascii_upper c = if leb b'a' c && leb c b'z' then c - 32 else c

abbrev tools : XmlTools
tools = record {
  parse = λ text. some elements;
  same_letter = λ p c. ascii_upper p == ascii_upper c;
  is_word = λ c. is_digit c || is_upper (ascii_upper c) || c == b'_';
}

abbrev document_refs : List SnxRef
document_refs =
    record {
      eqid = codes "CSQU3054384";
      occurrences =
          record { offset = 15; element = codes "unit"; attr = codes "id" }
          ∷ record { offset = 40; element = codes "unit"; attr = codes "unique-key" }
          ∷ [];
    }
    ∷ []

document_run : locate_equipment tools document ≡ ok document_refs
unfolding locate_equipment harden_and_parse occurs_ignoring_case starts_with_ignoring_case
    parsed_counts count_attributes carries_eqid count_value after_last str_eq refs_of spots_from
    match_attr starts_with element_of last_open name_prefix
document_run = refl

locate_equipment-IsSynced_example :
    (root : List Element) × (tools.parse document ≡ some root)
    × (¬ Occurs tools (codes "<!DOCTYPE") document)
    × (¬ Occurs tools (codes "<!ENTITY") document)
    × IsSynced tools.is_word document (parsed_counts root []) document_refs
locate_equipment-IsSynced_example = locate_equipment-IsSynced tools document document_run

abbrev text_of : Result CorrectionReport → Option Str
text_of (err e) = none
text_of (ok report) = report.corrected_text

correct_snx_run :
    text_of (correct_snx tools document strict none)
    ≡ some (codes "<snx><unit id=\"CSQU3054383\" unique-key=\"CSQU3054383\"/></snx>")
unfolding correct_snx evaluate_text judge_all tally_all by_status locate_equipment harden_and_parse
    occurs_ignoring_case starts_with_ignoring_case parsed_counts count_attributes carries_eqid
    count_value after_last str_eq refs_of spots_from match_attr starts_with element_of last_open
    name_prefix correct_identifier correct_plain route matches normalize upper strip_separators
    is_space upper_char correct_bic_like iso6346_check_digit iso6346_total iso6346_value
    category_type contains decide_bic apply_edits sort_into insert_edit splice
correct_snx_run = refl
