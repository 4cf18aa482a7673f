-- ===== src/Kernel/Decide.antt =====
-- The decisions of checkdigit/equipment_checkdigit.py: `_evaluate_bic`, `_decide_bic`, `_decide_uic`.
use checkdigit.Common.{
  ℕ, ◌+◌, Bool, true, false, not, List, [], ◌∷◌, Option, none, some, if◌then◌else◌, take, get_or,
  Str, contains, has, str_eq, Result, ok, ◌>>=◌,
}
use checkdigit.Kernel.Digits.{iso6346_check_digit}
use checkdigit.Kernel.Types.{
  IdentifierType, iso6346, ilu, uic, FieldContext, equipment_id, rail_vehicle, free_text, valid,
  corrected, flagged, high, low, check_correct, check_wrong, owner_corroborated, free_text_failing,
  rail_vehicle_mismatch, uic_outside_rail_vehicle, CorrectionResult, iso6346_categories,
  ilu_categories,
}

-- `str(check)`: a check digit is below ten, so its text is one digit.
abbrev pub digit_str : ℕ → Str
digit_str d = (b'0' + d) ∷ []

-- `known_owner_prefixes`: nothing for None
abbrev pub Registry : Type 0
Registry = Option (List Str)

-- `known_owner_prefixes is not None and owner in known_owner_prefixes`
abbrev pub knows : Registry → Str → Bool
knows none owner = false
knows (some prefixes) owner = has prefixes owner

-- `(known_owner_prefixes or set()) | {prefix}`
abbrev pub learn : Registry → Str → Registry
learn none prefix = some (prefix ∷ [])
learn (some prefixes) prefix = some (prefix ∷ prefixes)

-- The category letter decides the type; `unknown` is the source's `nonstandard`.
unfoldable pub category_type : ℕ → IdentifierType
category_type category =
    if contains category iso6346_categories
    then iso6346
    else if contains category ilu_categories
    then ilu
    else IdentifierType.unknown

abbrev pub is_nonstandard : IdentifierType → Bool
is_nonstandard t = elim t [ IdentifierType.unknown ↦ true | _ ↦ false ]

-- `_evaluate_bic`: the type and the computed check digit
unfoldable pub evaluate_bic : Str → Result (IdentifierType × Str)
evaluate_bic body10 = do
  check ← iso6346_check_digit body10
  ok (category_type (get_or body10 3 0), digit_str check)

-- `_decide_bic` behind its first test, by the context
unfoldable pub decide_failing :
    Str → Str → IdentifierType → FieldContext → Str → Str → Str → Registry → CorrectionResult
decide_failing raw norm id_type free_text printed computed full known =
    if knows known (take 3 norm)
    then record {
      raw = raw;
      normalized = norm;
      id_type = id_type;
      status = corrected;
      confidence = high;
      reason = owner_corroborated id_type printed computed (take 3 norm);
      printed_check = some printed;
      computed_check = some computed;
      corrected = some full;
    }
    else record {
      raw = raw;
      normalized = norm;
      id_type = id_type;
      status = flagged;
      confidence = low;
      reason = free_text_failing id_type printed computed;
      printed_check = some printed;
      computed_check = some computed;
      corrected = none;
    }
decide_failing raw norm id_type equipment_id printed computed full known = record {
  raw = raw;
  normalized = norm;
  id_type = id_type;
  status = corrected;
  confidence = high;
  reason = check_wrong id_type printed computed;
  printed_check = some printed;
  computed_check = some computed;
  corrected = some full;
}
decide_failing raw norm id_type FieldContext.unknown printed computed full known = record {
  raw = raw;
  normalized = norm;
  id_type = id_type;
  status = corrected;
  confidence = high;
  reason = check_wrong id_type printed computed;
  printed_check = some printed;
  computed_check = some computed;
  corrected = some full;
}
decide_failing raw norm id_type _ printed computed full known = record {
  raw = raw;
  normalized = norm;
  id_type = id_type;
  status = flagged;
  confidence = low;
  reason = rail_vehicle_mismatch id_type;
  printed_check = some printed;
  computed_check = some computed;
  corrected = none;
}

-- `_decide_bic`
unfoldable pub decide_bic :
    Str → Str → IdentifierType → FieldContext → Str → Str → Str → Registry → CorrectionResult
unfolding decide_failing
decide_bic raw norm id_type context printed computed full known =
    if str_eq printed computed
    then record {
      raw = raw;
      normalized = norm;
      id_type = id_type;
      status = valid;
      confidence = high;
      reason = check_correct id_type;
      printed_check = some printed;
      computed_check = some computed;
      corrected = none;
    }
    else decide_failing raw norm id_type context printed computed full known

abbrev pub is_rail_vehicle : FieldContext → Bool
is_rail_vehicle context = elim context [ rail_vehicle ↦ true | _ ↦ false ]

-- `_decide_uic`
unfoldable pub decide_uic : Str → Str → FieldContext → Str → Str → Str → CorrectionResult
decide_uic raw norm context printed computed full =
    if not (is_rail_vehicle context)
    then record {
      raw = raw;
      normalized = norm;
      id_type = uic;
      status = flagged;
      confidence = low;
      reason = uic_outside_rail_vehicle (str_eq printed computed) printed computed;
      printed_check = some printed;
      computed_check = some computed;
      corrected = none;
    }
    else if str_eq printed computed
    then record {
      raw = raw;
      normalized = norm;
      id_type = uic;
      status = valid;
      confidence = high;
      reason = check_correct uic;
      printed_check = some printed;
      computed_check = some computed;
      corrected = none;
    }
    else record {
      raw = raw;
      normalized = norm;
      id_type = uic;
      status = corrected;
      confidence = high;
      reason = check_wrong uic printed computed;
      printed_check = some printed;
      computed_check = some computed;
      corrected = some full;
    }
