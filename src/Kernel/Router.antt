-- ===== src/Kernel/Router.antt =====
-- Part 3 of checkdigit/equipment_checkdigit.py: the router `correct_identifier`.
pub mod Shapes
pub mod Total
pub mod Again
pub mod Sound
pub mod Verdicts
pub mod Corrected
pub mod Denied
pub mod Trust
use checkdigit.Common.{
  ℕ, Bool, true, false, ◌&&◌, not, ◌++◌, Option, none, some, if◌then◌else◌, take, get_or, Str,
  slice, matches, str_eq, Result, ok, err, bad_owner_policy, ◌>>=◌,
}
use checkdigit.Kernel.Decide.{
  Registry, learn, digit_str, evaluate_bic, is_nonstandard, decide_bic, decide_uic,
}
use checkdigit.Kernel.Digits.{iso6346_check_digit, uic_check_digit}
use checkdigit.Kernel.Normalize.{normalize}
use checkdigit.Kernel.Types.{
  IdentifierType, iso6346, FieldContext, equipment_id, valid, corrected, flagged, not_a_target,
  invalid_structure, high, low, OwnerPolicy, is_owner_policy, is_lenient, size_type_field,
  nonstandard_category, pseudo_prefix_valid, pseudo_prefix_corrected, pseudo_prefix_flagged,
  no_structure, on_deny_list, CorrectionResult, bic_like, container_shaped, uic_shaped,
}
use checkdigit.Policy.{Policy, Treatment, resolve}

-- `norm[i]`, a text of one character
abbrev pub char_str : Str → ℕ → Str
char_str s i = slice s i 1

abbrev pub is_size_type : FieldContext → Bool
is_size_type context = elim context [ FieldContext.size_type ↦ true | _ ↦ false ]

-- `context in (FieldContext.EQUIPMENT_ID, FieldContext.UNKNOWN)`
abbrev pub is_trusted : FieldContext → Bool
is_trusted context = elim context [ equipment_id ↦ true | FieldContext.unknown ↦ true | _ ↦ false ]

-- The branch of `_RE_BIC_LIKE`, once the body is evaluated
unfoldable pub bic_result :
    Str → Str → FieldContext → Registry → Str → IdentifierType × Str → CorrectionResult
bic_result raw norm context known printed (id_type, computed) =
    if is_nonstandard id_type
    then record {
      raw = raw;
      normalized = norm;
      id_type = IdentifierType.unknown;
      status = flagged;
      confidence = low;
      reason = nonstandard_category (get_or norm 3 0) computed;
      printed_check = some printed;
      computed_check = some computed;
      corrected = none;
    }
    else decide_bic raw norm id_type context printed computed (take 10 norm ++ computed) known

unfoldable pub correct_bic_like : Str → Str → FieldContext → Registry → Result CorrectionResult
unfolding bic_result evaluate_bic
correct_bic_like raw norm context known = do
  evaluated ← evaluate_bic (take 10 norm)
  ok (bic_result raw norm context known (char_str norm 10) evaluated)

-- The branch of `_RE_CONTAINER_SHAPED`, once the check digit is computed
unfoldable pub pseudo_prefix_result :
    Str → Str → FieldContext → OwnerPolicy → Str → Str → CorrectionResult
pseudo_prefix_result raw norm context policy printed computed =
    let owner = take 3 norm in
    if is_lenient policy && is_trusted context
    then if str_eq printed computed
      then record {
        raw = raw;
        normalized = norm;
        id_type = iso6346;
        status = valid;
        confidence = low;
        reason = pseudo_prefix_valid owner printed;
        printed_check = some printed;
        computed_check = some computed;
        corrected = none;
      }
      else record {
        raw = raw;
        normalized = norm;
        id_type = iso6346;
        status = corrected;
        confidence = low;
        reason = pseudo_prefix_corrected owner printed computed;
        printed_check = some printed;
        computed_check = some computed;
        corrected = some (take 10 norm ++ computed);
      }
    else record {
      raw = raw;
      normalized = norm;
      id_type = iso6346;
      status = flagged;
      confidence = low;
      reason = pseudo_prefix_flagged owner computed;
      printed_check = some printed;
      computed_check = some computed;
      corrected = none;
    }

unfoldable pub correct_container_shaped :
    Str → Str → FieldContext → OwnerPolicy → Result CorrectionResult
unfolding pseudo_prefix_result
correct_container_shaped raw norm context policy = do
  check ← iso6346_check_digit (take 10 norm)
  ok (pseudo_prefix_result raw norm context policy (char_str norm 10) (digit_str check))

unfoldable pub correct_uic_shaped : Str → Str → FieldContext → Result CorrectionResult
correct_uic_shaped raw norm context = do
  check ← uic_check_digit (take 11 norm)
  ok (
      decide_uic raw norm context (char_str norm 11) (digit_str check)
        (take 11 norm ++ digit_str check))

abbrev pub size_type_result : Str → Str → CorrectionResult
size_type_result raw norm = record {
  raw = raw;
  normalized = norm;
  id_type = IdentifierType.size_type;
  status = not_a_target;
  confidence = high;
  reason = size_type_field;
  printed_check = none;
  computed_check = none;
  corrected = none;
}

abbrev pub no_structure_result : Str → Str → CorrectionResult
no_structure_result raw norm = record {
  raw = raw;
  normalized = norm;
  id_type = IdentifierType.unknown;
  status = invalid_structure;
  confidence = high;
  reason = no_structure;
  printed_check = none;
  computed_check = none;
  corrected = none;
}

-- The tests of the router, in the order of the source. A normalised text holds no newline, so
-- that `$` stands for the end of the text.
unfoldable pub route : Str → Str → FieldContext → Registry → OwnerPolicy → Result CorrectionResult
route raw norm context known policy =
    if is_size_type context
    then ok (size_type_result raw norm)
    else if matches bic_like norm
    then correct_bic_like raw norm context known
    else if matches container_shaped norm
    then correct_container_shaped raw norm context policy
    else if matches uic_shaped norm
    then correct_uic_shaped raw norm context
    else ok (no_structure_result raw norm)

-- `correct_identifier` with `policy=None`
unfoldable pub correct_plain : Str → FieldContext → Registry → OwnerPolicy → Result CorrectionResult
correct_plain token context known policy =
    if not (is_owner_policy policy)
    then err bad_owner_policy
    else route token (normalize token) context known policy

-- What a deny-listed prefix makes of the normal result.
unfoldable pub force_flag : Str → CorrectionResult → CorrectionResult
force_flag prefix base =
    let review = record base {
      status = flagged;
      reason = on_deny_list prefix base.reason;
      corrected = none;
    } in
    elim (base.status) [ valid ↦ review | corrected ↦ review | flagged ↦ review | _ ↦ base ]

-- `correct_identifier` under an operator's policy, once the prefix is resolved
correct_treated : Str → FieldContext → Registry → Str → Treatment → Result CorrectionResult
correct_treated token context known prefix t =
    let known' = if t.corroborated then learn known prefix else known in
    let base = correct_plain token context known' t.owner_policy in
    if t.force_flag then (base >>= λ r. ok (force_flag prefix r)) else base

unfoldable pub correct_identifier :
    Str → FieldContext → Registry → OwnerPolicy → Option Policy → Result CorrectionResult
unfolding correct_treated
correct_identifier token context known owner_policy none =
    correct_plain token context known owner_policy
correct_identifier token context known owner_policy (some policy) =
    let prefix = take 3 (normalize token) in
    correct_treated token context known prefix (resolve policy prefix)
