-- ===== src/Kernel/X12.antt =====
-- `correct_x12_equipment` of checkdigit/equipment_checkdigit.py: a number that X12 carries in parts.
pub mod Laws
use checkdigit.Common.{
  ℕ, ◌-◌, Bool, true, false, not, List, [], ◌∷◌, ◌++◌, Option, none, some, ltb, if◌then◌else◌,
  length, take, get_or, replicate, Str, codes, str_eq, matches, is_digit, is_upper, Result, ok,
  ◌>>=◌,
}
use checkdigit.Kernel.Decide.{Registry, learn, evaluate_bic, is_nonstandard}
use checkdigit.Kernel.Normalize.{normalize}
use checkdigit.Kernel.Router.{force_flag}
use checkdigit.Kernel.Types.{
  IdentifierType, valid, corrected, flagged, invalid_structure, high, low, x12_bad_initial,
  x12_long_serial, x12_not_transmitted, x12_nonstandard_category, x12_correct, x12_wrong,
  CorrectionResult,
}
use checkdigit.Policy.{Policy, resolve}

-- `_RE_ASCII_ALPHA4`
abbrev pub alpha4 : List (ℕ → Bool)
alpha4 = replicate 4 is_upper

-- `re.sub(r"[^0-9]", "", number)`
unfoldable pub keep_digits : Str → Str
keep_digits [] = []
keep_digits (c ∷ cs) = let rest = keep_digits cs in if is_digit c then c ∷ rest else rest

-- `num.zfill(6)`, where `num` has no sign
abbrev pub zfill : ℕ → Str → Str
zfill n num = replicate (n - length num) b'0' ++ num

-- `f"{initial}/{number}"`
abbrev pub slashed : Str → Str → Str
slashed initial number = initial ++ (b'/' ∷ number)

-- Behind the category test, by the transmitted check digit; `None` and `""` count as absent.
unfoldable pub decide_x12 : Str → Str → IdentifierType → Str → Option Str → CorrectionResult
decide_x12 raw body10 t computed (some (c ∷ cs)) =
    if str_eq (c ∷ cs) computed
    then record {
      raw = raw;
      normalized = body10 ++ (c ∷ cs);
      id_type = t;
      status = valid;
      confidence = high;
      reason = x12_correct t;
      printed_check = some (c ∷ cs);
      computed_check = some computed;
      corrected = none;
    }
    else record {
      raw = raw;
      normalized = body10 ++ (c ∷ cs);
      id_type = t;
      status = corrected;
      confidence = high;
      reason = x12_wrong t (c ∷ cs) computed;
      printed_check = some (c ∷ cs);
      computed_check = some computed;
      corrected = some (body10 ++ computed);
    }
decide_x12 raw body10 t computed _ = record {
  raw = raw;
  normalized = body10;
  id_type = t;
  status = corrected;
  confidence = high;
  reason = x12_not_transmitted computed;
  printed_check = none;
  computed_check = some computed;
  corrected = some (body10 ++ computed);
}

-- Once the body is evaluated
unfoldable pub x12_result : Str → Str → Option Str → IdentifierType × Str → CorrectionResult
x12_result raw body10 printed (t, computed) =
    if is_nonstandard t
    then record {
      raw = raw;
      normalized = body10;
      id_type = IdentifierType.unknown;
      status = flagged;
      confidence = low;
      reason = x12_nonstandard_category (get_or body10 3 0) computed;
      printed_check = none;
      computed_check = some computed;
      corrected = none;
    }
    else decide_x12 raw body10 t computed printed

abbrev pub bad_initial_result : Str → Str → Str → CorrectionResult
bad_initial_result initial raw norm = record {
  raw = raw;
  normalized = norm;
  id_type = IdentifierType.unknown;
  status = invalid_structure;
  confidence = high;
  reason = x12_bad_initial initial;
  printed_check = none;
  computed_check = none;
  corrected = none;
}

abbrev pub long_serial_result : ℕ → Str → Str → CorrectionResult
long_serial_result digits raw norm = record {
  raw = raw;
  normalized = norm;
  id_type = IdentifierType.unknown;
  status = flagged;
  confidence = low;
  reason = x12_long_serial digits;
  printed_check = none;
  computed_check = none;
  corrected = none;
}

unfoldable pub x12_body : Str → Str → Str
x12_body initial number = normalize initial ++ zfill 6 (keep_digits number)

-- `correct_x12_equipment` with `policy=None`. The registry is handed on and never read.
unfoldable pub correct_x12_plain : Str → Str → Option Str → Registry → Result CorrectionResult
unfolding x12_body
correct_x12_plain initial number printed known =
    let raw = slashed initial number in
    let init = normalize initial in
    let num = keep_digits number in
    if not (matches alpha4 init)
    then ok (bad_initial_result initial raw (init ++ num))
    else if ltb 6 (length num)
    then ok (long_serial_result (length num) raw (init ++ num))
    else (evaluate_bic (x12_body initial number) >>= λ evaluated.
        ok (x12_result raw (x12_body initial number) printed evaluated))

-- A corroborated prefix only adds to the registry.
unfoldable pub correct_x12_equipment :
    Str → Str → Option Str → Registry → Option Policy → Result CorrectionResult
correct_x12_equipment initial number printed known none =
    correct_x12_plain initial number printed known
correct_x12_equipment initial number printed known (some policy) =
    let prefix = take 3 (normalize initial) in
    let t = resolve policy prefix in
    let known' = if t.corroborated then learn known prefix else known in
    let base = correct_x12_plain initial number printed known' in
    if t.force_flag then (base >>= λ r. ok (force_flag prefix r)) else base
