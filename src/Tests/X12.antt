-- ===== src/Tests/X12.antt =====
-- `correct_x12_equipment` at concrete parts.
use checkdigit.Common.{
  ℕ, ◌≡◌, refl, ◌++◌, codes, ok, some, none, matches, contains, str_eq, is_space,
}
use checkdigit.Kernel.Decide.{evaluate_bic, category_type, digit_str}
use checkdigit.Kernel.Digits.{iso6346_value, iso6346_total, iso6346_check_digit}
use checkdigit.Kernel.Normalize.{normalize, upper, upper_char, strip_separators}
use checkdigit.Kernel.Router.{correct_identifier}
use checkdigit.Kernel.Router.Again.{AcceptedAs}
use checkdigit.Kernel.Types.{
  CorrectionResult, iso6346, equipment_id, Status, high, strict, x12_not_transmitted,
}
use checkdigit.Kernel.X12.{
  keep_digits, x12_result, decide_x12, x12_body, correct_x12_plain, correct_x12_equipment,
}
use checkdigit.Kernel.X12.Laws.{correct_x12_equipment-corrected}

abbrev untransmitted : CorrectionResult
untransmitted = record {
  raw = codes "csqu/305 438";
  normalized = codes "CSQU305438";
  id_type = iso6346;
  status = Status.corrected;
  confidence = high;
  reason = x12_not_transmitted (codes "3");
  printed_check = none;
  computed_check = some (codes "3");
  corrected = some (codes "CSQU3054383");
}

untransmitted_run :
    correct_x12_equipment (codes "csqu") (codes "305 438") none none none ≡ ok untransmitted
unfolding correct_x12_equipment correct_x12_plain x12_result decide_x12 keep_digits normalize upper
    upper_char strip_separators is_space matches evaluate_bic category_type contains
    iso6346_check_digit iso6346_total iso6346_value str_eq
untransmitted_run = refl

correct_x12_equipment-corrected_example :
    (d : ℕ) × (untransmitted.corrected
      ≡ some (x12_body (codes "csqu") (codes "305 438") ++ digit_str d))
    × AcceptedAs iso6346 (
        correct_identifier
          (x12_body (codes "csqu") (codes "305 438") ++ digit_str d)
          equipment_id
          none
          strict
          none)
correct_x12_equipment-corrected_example =
    correct_x12_equipment-corrected (codes "csqu") (codes "305 438") none none none none
      untransmitted_run refl
