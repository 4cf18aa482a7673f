-- ===== src/Kernel/Explain.antt =====
-- `explain` of checkdigit/equipment_checkdigit.py: the worked steps of a check digit.
pub mod Laws
use checkdigit.Common.{
  ℕ, ◌+◌, ◌-◌, ◌*◌, ◌%◌, ◌^◌, ◌≡◌, refl, sym, ap, ◌∙◌, Bool, true, false, ◌&&◌, ◌||◌, inl, inr,
  List, [], ◌∷◌, ◌++◌, Option, none, some, ◌==◌, if◌then◌else◌, length, take, drop, get_or, reverse,
  arith, Str, str_eq, contains, is_empty, is_upper, is_digit, matches, replicate, Result, ok, err,
  ◌>>=◌, All, All-imp, Bool-cases,
}
use checkdigit.Kernel.Decide.{digit_str}
use checkdigit.Kernel.Digits.{
  digit_value, iso6346_value, iso6346_total, iso6346_check_digit, ten_to_zero, all_digits_of,
  all_ascii_digits, luhn_product, uic_total, uic_check_digit,
}
use checkdigit.Kernel.Normalize.{normalize}
use checkdigit.Kernel.Types.{bic_like, iso6346_categories, ilu_categories}

pub record UicStep : Type 0 where
  pub char : ℕ
  pub weight : ℕ
  pub product : ℕ

pub record IsoStep : Type 0 where
  pub char : ℕ
  pub value : ℕ
  pub weight : ℕ
  pub product : ℕ

pub data Verdict : Type 0 where
  computed_only correct_digit mismatch : Verdict

pub data CategorySet : Type 0 where
  iso_set ilu_set unknown_set : CategorySet

pub record UicWork : Type 0 where
  pub normalized : Str
  pub body : Str
  pub printed : Option ℕ
  pub steps : List UicStep
  pub sum : ℕ
  pub computed : ℕ
  pub verdict : Verdict
  pub full : Str

pub record IsoWork : Type 0 where
  pub normalized : Str
  pub body : Str
  pub printed : Option ℕ
  pub chars : List IsoStep
  pub sum : ℕ
  pub mod_11 : ℕ
  pub remainder_ten : Bool
  pub computed : ℕ
  pub category : ℕ
  pub category_set : CategorySet
  pub verdict : Verdict
  pub full : Str

-- The dictionary that is returned: with `ok` false, by its message, or the worked steps
pub data Explanation : Type 0 where
  empty_input wrong_shape : Explanation
  uic_work : UicWork → Explanation
  iso_work : IsoWork → Explanation

unfoldable pub verdict_of : Option ℕ → ℕ → Verdict
verdict_of none computed = computed_only
verdict_of (some printed) computed =
    if str_eq (printed ∷ []) (digit_str computed) then correct_digit else mismatch

-- The character at the index, where the text is one longer than the body
unfoldable pub printed_at : ℕ → Str → Option ℕ
printed_at n norm = if length norm == n + 1 then some (get_or norm n 0) else none

-- The loop over `enumerate(reversed(body))`
unfoldable pub uic_steps : ℕ → List UicStep → ℕ → Str → List UicStep × ℕ
uic_steps i steps total [] = (steps, total)
uic_steps i steps total (ch ∷ rest) =
    let product = luhn_product i (digit_value ch) in
    let step : UicStep = record {
      char = ch;
      weight = if i % 2 == 0 then 2 else 1;
      product = product;
    } in
    uic_steps (i + 1) (steps ++ (step ∷ [])) (total + product) rest

-- The loop over `enumerate(body)`
unfoldable pub iso_steps : ℕ → List IsoStep → ℕ → Str → Result (List IsoStep × ℕ)
iso_steps i steps total [] = ok (steps, total)
iso_steps i steps total (ch ∷ rest) = do
  v ← iso6346_value ch
  iso_steps (i + 1)
      (steps ++ (record { char = ch; value = v; weight = 2 ^ i; product = v * 2 ^ i } ∷ []))
      (total + v * 2 ^ i) rest

unfoldable pub category_set_of : ℕ → CategorySet
category_set_of cat =
    if contains cat iso6346_categories
    then iso_set
    else if contains cat ilu_categories
    then ilu_set
    else unknown_set

unfoldable pub explain_uic : Str → UicWork
explain_uic norm =
    let body = take 11 norm in
    let (steps, total) = uic_steps 0 [] 0 (reverse body) in
    let computed = (10 - total % 10) % 10 in
    record {
      normalized = norm;
      body = body;
      printed = printed_at 11 norm;
      steps = steps;
      sum = total;
      computed = computed;
      verdict = verdict_of (printed_at 11 norm) computed;
      full = body ++ digit_str computed;
    }

abbrev iso_work_of : Str → List IsoStep × ℕ → IsoWork
iso_work_of norm (chars, total) =
    let body = take 10 norm in
    let computed = ten_to_zero (total % 11) in
    record {
      normalized = norm;
      body = body;
      printed = printed_at 10 norm;
      chars = chars;
      sum = total;
      mod_11 = total % 11;
      remainder_ten = total % 11 == 10;
      computed = computed;
      category = get_or body 3 0;
      category_set = category_set_of (get_or body 3 0);
      verdict = verdict_of (printed_at 10 norm) computed;
      full = body ++ digit_str computed;
    }

unfoldable pub explain_iso : Str → Result IsoWork
explain_iso norm = do found ← iso_steps 0 [] 0 (take 10 norm); ok (iso_work_of norm found)

-- `[A-Z]{4}[0-9]{6}`
abbrev pub bic_unchecked : List (ℕ → Bool)
bic_unchecked = replicate 4 is_upper ++ replicate 6 is_digit

abbrev as_iso : Result IsoWork → Result Explanation
as_iso work = do w ← work; ok (iso_work w)

unfoldable pub explain : Str → Result Explanation
explain token =
    let norm = normalize token in
    if is_empty norm
    then ok empty_input
    else if all_ascii_digits norm && (length norm == 11 || length norm == 12)
    then ok (uic_work (explain_uic norm))
    else if matches bic_unchecked norm || matches bic_like norm
    then as_iso (explain_iso norm)
    else ok wrong_shape
