-- ===== src/Kernel/Router/Trust.antt =====
-- Which fields let a token be corrected, and what a VALID verdict says of its check digit.
use checkdigit.Common.{
  ℕ, ◌≡◌, ◌⊎◌, sym, ap, ◌∙◌, Bool, true, false, [], ◌∷◌, ◌++◌, arith, Str, length, take, ok, Option,
  if◌then◌else◌, str_eq_iff, slice, inl, inr, length-matches,
}
use checkdigit.Kernel.Decide.{Registry, knows, decide_bic, decide_uic, digit_str}
use checkdigit.Kernel.Digits.{iso6346_check_digit, uic_check_digit}
use checkdigit.Kernel.Normalize.{normalize}
use checkdigit.Kernel.Router.{
  correct_identifier, bic_result, pseudo_prefix_result, is_trusted, char_str, force_flag,
}
use checkdigit.Kernel.Router.Corrected.{corrected_base}
use checkdigit.Kernel.Router.Shapes.{
  bic_split, container_split, uic_split, bic_body, container_body, uic_body,
}
use checkdigit.Kernel.Router.Again.{last_char}
use checkdigit.Kernel.Router.Total.{
  Routed, size_type_field, bic, pseudo_prefix, uic_number, nothing,
}
use checkdigit.Kernel.Router.Verdicts.{
  correct_identifier-eq-ok, correct_plain-Routed, effective_policy, effective_registry, is_denied,
  force_flag-review,
}
use checkdigit.Kernel.Types.{
  IdentifierType, uic, FieldContext, free_text, rail_vehicle, valid, corrected, OwnerPolicy,
  CorrectionResult,
}
use checkdigit.Policy.{Policy}

-- A declared or unknown field, free text with a known owner, or a rail vehicle field with a UIC
-- number
abbrev pub MayCorrect : FieldContext → Registry → Str → IdentifierType → Type 0
MayCorrect context known norm t =
    (is_trusted context ≡ true)
    ⊎ ((context ≡ free_text) × (knows known (take 3 norm) ≡ true))
    ⊎ ((context ≡ rail_vehicle) × (t ≡ uic))

module _ (raw norm printed computed : Str) (known : Registry) where
  decide_bic-MayCorrect :
      (context : FieldContext) (t : IdentifierType) (full : Str)
      → (decide_bic raw norm t context printed computed full known).status ≡ corrected
      → (is_trusted context ≡ true) ⊎ ((context ≡ free_text) × (knows known (take 3 norm) ≡ true))
  unfolding decide_bic
  decide_bic-MayCorrect context t full h = ground arith

  bic_result-MayCorrect :
      (context : FieldContext) (t : IdentifierType)
      → (bic_result raw norm context known printed (t, computed)).status ≡ corrected
      → (is_trusted context ≡ true) ⊎ ((context ≡ free_text) × (knows known (take 3 norm) ≡ true))
  unfolding bic_result
  bic_result-MayCorrect context t h =
      ground (arith, decide_bic-MayCorrect context t (take 10 norm ++ computed))

  pseudo_prefix_result-trusted :
      (context : FieldContext) (policy : OwnerPolicy)
      → (pseudo_prefix_result raw norm context policy printed computed).status ≡ corrected
      → is_trusted context ≡ true
  unfolding pseudo_prefix_result
  pseudo_prefix_result-trusted context policy h = ground arith

  decide_uic-rail :
      (context : FieldContext) (full : Str)
      → (decide_uic raw norm context printed computed full).status ≡ corrected
      → (context ≡ rail_vehicle)
        × ((decide_uic raw norm context printed computed full).id_type ≡ uic)
  unfolding decide_uic
  decide_uic-rail context full h = (ground arith, ground arith)

Routed-MayCorrect :
    {raw norm : Str} {context : FieldContext} {known : Registry} {policy : OwnerPolicy}
    {r : CorrectionResult}
    → Routed raw norm context known policy r
    → r.status ≡ corrected
    → MayCorrect context known norm r.id_type
Routed-MayCorrect (size_type_field s) h = absurd (cc)
Routed-MayCorrect {raw} {norm} {context} {known} (bic d s b check lt) h =
    elim (bic_result-MayCorrect raw norm (char_str norm 10) (digit_str d) known context _ h) [
      | inl trusted ↦ inl trusted
      | inr corroborated ↦ inr (inl corroborated)
    ]
Routed-MayCorrect {raw} {norm} {context} {known} {policy} (pseudo_prefix d s b p check lt) h =
    inl (
      pseudo_prefix_result-trusted raw norm (char_str norm 10) (digit_str d) known context policy h)
Routed-MayCorrect {raw} {norm} {context} {known} (uic_number d s b p u check lt) h = inr (
    inr (
      decide_uic-rail raw norm (char_str norm 11) (digit_str d) known context
        (take 11 norm ++ digit_str d) h))
Routed-MayCorrect (nothing s b p u) h = absurd (cc)

-- A token is corrected only in a field that is declared to hold an equipment number or is of
-- unknown role, in free text whose owner prefix the registry or the allow list knows, or, as a UIC
-- number, in a rail vehicle field. So no size/type field and no uncorroborated free text is ever
-- corrected.
pub correct_identifier-MayCorrect :
    (token : Str) (context : FieldContext) (known : Registry) (owner_policy : OwnerPolicy)
    (policy : Option Policy) {r : CorrectionResult}
    → correct_identifier token context known owner_policy policy ≡ ok r
    → r.status ≡ corrected
    → MayCorrect context (effective_registry token known policy) (normalize token) r.id_type
correct_identifier-MayCorrect token context known owner_policy policy h status =
    let (base, e, f) = correct_identifier-eq-ok token context known owner_policy policy h in
    let (_, same) =
      corrected_base (take 3 (normalize token)) (is_denied token policy) base f status in
    Routed-MayCorrect
      (correct_plain-Routed token context (effective_registry token known policy)
        (effective_policy token owner_policy policy)
        (e ∙ ap (λ (x : CorrectionResult). ok x) (sym same)))
      status

-- The last character is the check digit of those before it, by one of the two algorithms.
abbrev pub CheckAgrees : Str → Type 0
CheckAgrees norm =
    (d : ℕ) × (((iso6346_check_digit (take 10 norm) ≡ ok d) × (norm ≡ take 10 norm ++ digit_str d))
      ⊎ ((uic_check_digit (take 11 norm) ≡ ok d) × (norm ≡ take 11 norm ++ digit_str d)))

module _ (raw norm printed computed : Str) (context : FieldContext) where
  bic_result-agrees :
      (known : Registry) (t : IdentifierType)
      → (bic_result raw norm context known printed (t, computed)).status ≡ valid
      → printed ≡ computed
  unfolding bic_result decide_bic
  bic_result-agrees known t h = ground (arith, str_eq_iff printed computed)

  pseudo_prefix_result-agrees :
      (policy : OwnerPolicy)
      → (pseudo_prefix_result raw norm context policy printed computed).status ≡ valid
      → printed ≡ computed
  unfolding pseudo_prefix_result
  pseudo_prefix_result-agrees policy h = ground (arith, str_eq_iff printed computed)

  decide_uic-agrees :
      (full : Str)
      → (decide_uic raw norm context printed computed full).status ≡ valid
      → printed ≡ computed
  unfolding decide_uic
  decide_uic-agrees full h = ground (arith, str_eq_iff printed computed)

-- A text ends in the character at its last index.
ends_in :
    (n : ℕ) (norm : Str) (x : ℕ) (computed : Str)
    → length (take n norm) ≡ n
    → norm ≡ take n norm ++ x ∷ []
    → slice norm n 1 ≡ computed
    → norm ≡ take n norm ++ computed
ends_in n norm x computed long e same =
    let last = last_char n (take n norm) x long in
    e ∙ ap (λ (z : Str). take n norm ++ z) (sym last ∙ ap (λ (z : Str). slice z n 1) (sym e) ∙ same)

Routed-CheckAgrees :
    {raw norm : Str} {context : FieldContext} {known : Registry} {policy : OwnerPolicy}
    {r : CorrectionResult}
    → Routed raw norm context known policy r
    → r.status ≡ valid
    → CheckAgrees norm
Routed-CheckAgrees (size_type_field s) h = absurd (cc)
Routed-CheckAgrees {raw} {norm} {context} {known} (bic d s b check lt) h =
    let (x, e, _, m) = bic_split norm b in
    let same = bic_result-agrees raw norm (char_str norm 10) (digit_str d) context known _ h in
    (
      d,
      inl (
        check,
        ends_in 10 norm x (digit_str d) (length-matches bic_body (take 10 norm) m) e same,
      ),
    )
Routed-CheckAgrees {raw} {norm} {context} {known} {policy} (pseudo_prefix d s b p check lt) h =
    let (x, e, _, m) = container_split norm p in
    let same =
      pseudo_prefix_result-agrees raw norm (char_str norm 10) (digit_str d) context policy h in
    (
      d,
      inl (
        check,
        ends_in 10 norm x (digit_str d) (length-matches container_body (take 10 norm) m) e same,
      ),
    )
Routed-CheckAgrees {raw} {norm} {context} {known} (uic_number d s b p u check lt) h =
    let (x, e, _, m) = uic_split norm u in
    let same =
      decide_uic-agrees raw norm (char_str norm 11) (digit_str d) context
        (take 11 norm ++ digit_str d) h in
    (
      d,
      inr (
        check,
        ends_in 11 norm x (digit_str d) (length-matches uic_body (take 11 norm) m) e same,
      ),
    )
Routed-CheckAgrees (nothing s b p u) h = absurd (cc)

-- A valid token was not denied, so its verdict is that of the router.
valid_base :
    (prefix : Str) (denied : Bool) (base : CorrectionResult) {r : CorrectionResult}
    → r ≡ (if denied then force_flag prefix base else base)
    → r.status ≡ valid
    → r ≡ base
valid_base prefix true base {r} e h =
    absurd ((force_flag-review prefix base).0 (ap (λ (x : CorrectionResult). x.status) (sym e) ∙ h))
valid_base prefix false base e h = e

-- A token is VALID only if the last character of its normal form is the check digit of the
-- characters before it.
pub correct_identifier-valid :
    (token : Str) (context : FieldContext) (known : Registry) (owner_policy : OwnerPolicy)
    (policy : Option Policy) {r : CorrectionResult}
    → correct_identifier token context known owner_policy policy ≡ ok r
    → r.status ≡ valid
    → CheckAgrees (normalize token)
correct_identifier-valid token context known owner_policy policy h status =
    let (base, e, f) = correct_identifier-eq-ok token context known owner_policy policy h in
    let same = valid_base (take 3 (normalize token)) (is_denied token policy) base f status in
    Routed-CheckAgrees
      (correct_plain-Routed token context (effective_registry token known policy)
        (effective_policy token owner_policy policy)
        (e ∙ ap (λ (x : CorrectionResult). ok x) (sym same)))
      status
