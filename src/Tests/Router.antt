-- ===== src/Tests/Router.antt =====
-- `correct_identifier` at concrete tokens, with and without an operator's policy.
use checkdigit.Common.{
  starts_with, ◌≡◌, ◌≢◌, refl, true, List, [], ◌∷◌, Str, codes, ok, err, some, none,
  bad_owner_policy, allow_and_deny, matches, is_space, contains, has, str_eq, All, length, ◌≤◌, ◌+◌,
  take, inl,
}
use checkdigit.Kernel.Decide.{category_type, decide_bic}
use checkdigit.Kernel.Digits.{iso6346_value, iso6346_total, iso6346_check_digit}
use checkdigit.Kernel.Normalize.{
  normalize, upper, strip_separators, upper_char, wide_upper, special_in, shifted_in, alternate_in,
}
use checkdigit.Kernel.Normalize.Laws.{normalize-IsNormal, IsClean, separators}
use checkdigit.Kernel.Router.{
  route, correct_plain, correct_identifier, correct_bic_like, force_flag,
}
use checkdigit.Kernel.Router.Corrected.{correct_identifier-corrected}
use checkdigit.Kernel.Router.Denied.{correct_identifier-denied}
use checkdigit.Kernel.Router.Again.{Repairs, AcceptedAs}
use checkdigit.Kernel.Router.Trust.{
  MayCorrect, correct_identifier-MayCorrect, CheckAgrees, correct_identifier-valid,
}
use checkdigit.Kernel.Router.Verdicts.{effective_registry, correct_identifier-total}
use checkdigit.Kernel.Types.{
  CorrectionResult, iso6346, equipment_id, free_text, valid, corrected, flagged, high, OwnerPolicy,
  strict, lenient, check_correct, check_wrong, on_deny_list,
}
use checkdigit.Policy.Match.{CoversPrefix, match_key-CoversPrefix}
use checkdigit.Common.{strip}
use checkdigit.Policy.{
  is_wildcard, insert_longest, stem, Policy, make_policy, resolve, norm, match_key, norm_dict,
  dict_set, dict_get, is_wildcard, stem,
}
use checkdigit.Policy.Valid.{make_policy-IsValid, IsValid}

abbrev wrong_token : Str
wrong_token = codes "csqu 305438-4"

abbrev wrong_result : CorrectionResult
wrong_result = record {
  raw = wrong_token;
  normalized = codes "CSQU3054384";
  id_type = iso6346;
  status = corrected;
  confidence = high;
  reason = check_wrong iso6346 (codes "4") (codes "3");
  printed_check = some (codes "4");
  computed_check = some (codes "3");
  corrected = some (codes "CSQU3054383");
}

wrong_run : correct_identifier wrong_token equipment_id none strict none ≡ ok wrong_result
unfolding correct_identifier correct_plain route matches normalize upper strip_separators is_space
    upper_char correct_bic_like iso6346_check_digit iso6346_total iso6346_value category_type
    contains decide_bic str_eq
wrong_run = refl

abbrev fixed_result : CorrectionResult
fixed_result = record {
  raw = codes "CSQU3054383";
  normalized = codes "CSQU3054383";
  id_type = iso6346;
  status = valid;
  confidence = high;
  reason = check_correct iso6346;
  printed_check = some (codes "3");
  computed_check = some (codes "3");
  corrected = none;
}

fixed_run : correct_identifier (codes "CSQU3054383") equipment_id none strict none ≡ ok fixed_result
unfolding correct_identifier correct_plain route matches normalize upper strip_separators is_space
    upper_char correct_bic_like iso6346_check_digit iso6346_total iso6346_value category_type
    contains decide_bic str_eq
fixed_run = refl

bad_policy_run :
    correct_identifier wrong_token equipment_id none (OwnerPolicy.other (codes "lax")) none
    ≡ err bad_owner_policy
unfolding correct_identifier correct_plain
bad_policy_run = refl

abbrev deny_list : List Str
deny_list = codes "csq" ∷ []

abbrev allow_list : List Str
allow_list = codes "MS*" ∷ []

abbrev rules : Policy
rules = record { default_policy = strict; allow = allow_list; deny = deny_list; per_prefix = [] }

rules_made : make_policy strict allow_list deny_list [] ≡ ok rules
unfolding make_policy norm strip upper upper_char is_space has str_eq
rules_made = refl

clashing_rules : make_policy strict (codes " csq" ∷ []) deny_list [] ≡ err allow_and_deny
unfolding make_policy norm strip upper upper_char is_space has str_eq
clashing_rules = refl

rules-IsValid : IsValid rules
rules-IsValid = make_policy-IsValid strict allow_list deny_list [] rules_made

denied_prefix : CoversPrefix (take 3 (normalize wrong_token)) (codes "csq")
unfolding normalize upper strip_separators is_space upper_char norm strip
denied_prefix = inl refl

listed_prefix : has deny_list (codes "csq") ≡ true
unfolding has str_eq
listed_prefix = refl

abbrev denied_result : CorrectionResult
denied_result = record {
  raw = wrong_token;
  normalized = codes "CSQU3054384";
  id_type = iso6346;
  status = flagged;
  confidence = high;
  reason = on_deny_list (codes "CSQ") (check_wrong iso6346 (codes "4") (codes "3"));
  printed_check = some (codes "4");
  computed_check = some (codes "3");
  corrected = none;
}

denied_run :
    correct_identifier wrong_token equipment_id none lenient (some rules) ≡ ok denied_result
unfolding correct_identifier correct_plain route matches normalize upper strip_separators is_space
    upper_char correct_bic_like iso6346_check_digit iso6346_total iso6346_value category_type
    contains decide_bic str_eq resolve match_key strip norm norm_dict dict_set dict_get is_wildcard
    stem force_flag
denied_run = refl

correct_identifier-corrected_example :
    (c : Str) × (wrong_result.corrected ≡ some c)
    × Repairs (normalize wrong_token) c
    × AcceptedAs iso6346 (correct_identifier c equipment_id none strict none)
correct_identifier-corrected_example =
    correct_identifier-corrected wrong_token equipment_id none strict none wrong_run refl

correct_identifier-MayCorrect_example :
    MayCorrect equipment_id
      (effective_registry wrong_token none none)
      (normalize wrong_token)
      iso6346
correct_identifier-MayCorrect_example =
    correct_identifier-MayCorrect wrong_token equipment_id none strict none wrong_run refl

correct_identifier-valid_example : CheckAgrees (normalize (codes "CSQU3054383"))
correct_identifier-valid_example =
    correct_identifier-valid (codes "CSQU3054383") equipment_id none strict none fixed_run refl

correct_identifier-total_example :
    (r : CorrectionResult) × (correct_identifier wrong_token free_text none lenient (some rules)
      ≡ ok r)
correct_identifier-total_example =
    correct_identifier-total wrong_token free_text none lenient (some rules) rules-IsValid

correct_identifier-denied_example :
    (denied_result.status ≢ valid) × (denied_result.status ≢ corrected)
correct_identifier-denied_example =
    correct_identifier-denied wrong_token equipment_id none lenient rules (codes "csq")
      listed_prefix denied_prefix denied_run

normalize-IsNormal_example :
    All IsClean (normalize wrong_token)
    × (normalize (normalize wrong_token) ≡ normalize wrong_token)
    × (length wrong_token ≤ length (normalize wrong_token) + separators wrong_token)
normalize-IsNormal_example = normalize-IsNormal wrong_token

wildcard_match : match_key (codes "msc") allow_list ≡ some (codes "MS*")
unfolding match_key norm strip norm_dict dict_set dict_get upper upper_char is_space str_eq
    is_wildcard insert_longest stem starts_with
wildcard_match = refl

match_key-CoversPrefix_example :
    (has allow_list (codes "MS*") ≡ true) × CoversPrefix (upper (codes "msc")) (codes "MS*")
match_key-CoversPrefix_example = match_key-CoversPrefix (codes "msc") allow_list wildcard_match

-- Dotless i, Cyrillic io, z with caron and sharp s
wide_run : upper (0x131 ∷ 0x451 ∷ 0x17e ∷ 0xdf ∷ []) ≡ b'I' ∷ 0x401 ∷ 0x17d ∷ b'S' ∷ b'S' ∷ []
unfolding upper upper_char wide_upper special_in shifted_in alternate_in
wide_run = refl
