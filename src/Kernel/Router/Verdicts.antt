-- ===== src/Kernel/Router/Verdicts.antt =====
-- What `correct_identifier` promises, with and without an operator's policy.
use mathlib.Core.Path.{subst}
use checkdigit.Common.{
  ◌≡◌, ◌≢◌, refl, sym, ◌∙◌, Bool, true, false, arith, Str, take, ok, ◌>>=◌, >>=-eq-ok, >>=-ok,
  ok_injective, Option, some, none, Bool-cases, inl, inr, if◌then◌else◌,
}
use checkdigit.Kernel.Decide.{Registry, learn}
use checkdigit.Kernel.Normalize.{normalize}
use checkdigit.Kernel.Router.{route, correct_plain, correct_treated, correct_identifier, force_flag}
use checkdigit.Kernel.Router.Total.{Routed, route-Routed}
use checkdigit.Kernel.Types.{
  FieldContext, valid, corrected, OwnerPolicy, is_owner_policy, CorrectionResult,
}
use checkdigit.Policy.{Policy, resolve}
use checkdigit.Policy.Valid.{IsValid, resolve-accepted}

-- What the router returned went one of the five ways.
pub route-eq-ok :
    {raw norm : Str} {context : FieldContext} {known : Registry} {policy : OwnerPolicy}
    {r : CorrectionResult}
    → route raw norm context known policy ≡ ok r
    → Routed raw norm context known policy r
route-eq-ok {raw} {norm} {context} {known} {policy} h =
    let (r', e, routed) = route-Routed raw norm context known policy in
    subst (Routed raw norm context known policy) (ok_injective (sym e ∙ h)) routed

pub correct_plain-route :
    (token : Str) (context : FieldContext) (known : Registry) (policy : OwnerPolicy)
    → is_owner_policy policy ≡ true
    → correct_plain token context known policy ≡ route token (normalize token) context known policy
unfolding correct_plain
correct_plain-route token context known policy h = rw h

pub correct_plain-accepted :
    (token : Str) (context : FieldContext) (known : Registry) (policy : OwnerPolicy)
    {r : CorrectionResult}
    → correct_plain token context known policy ≡ ok r
    → is_owner_policy policy ≡ true
unfolding correct_plain
correct_plain-accepted token context known policy h = ground arith

pub correct_plain-Routed :
    (token : Str) (context : FieldContext) (known : Registry) (policy : OwnerPolicy)
    {r : CorrectionResult}
    → correct_plain token context known policy ≡ ok r
    → Routed token (normalize token) context known policy r
correct_plain-Routed token context known policy h =
    let accepted = correct_plain-accepted token context known policy h in
    route-eq-ok (sym (correct_plain-route token context known policy accepted) ∙ h)

correct_plain-total :
    (token : Str) (context : FieldContext) (known : Registry) (policy : OwnerPolicy)
    → is_owner_policy policy ≡ true
    → (r : CorrectionResult) × (correct_plain token context known policy ≡ ok r)
correct_plain-total token context known policy h =
    let (r, e, _) = route-Routed token (normalize token) context known policy in
    (r, correct_plain-route token context known policy h ∙ e)

-- The owner policy and the registry that a call comes down to
abbrev pub effective_policy : Str → OwnerPolicy → Option Policy → OwnerPolicy
effective_policy token owner_policy none = owner_policy
effective_policy token owner_policy (some p) = (resolve p (take 3 (normalize token))).owner_policy

abbrev pub effective_registry : Str → Registry → Option Policy → Registry
effective_registry token known none = known
effective_registry token known (some p) =
    let prefix = take 3 (normalize token) in
    if (resolve p prefix).corroborated then learn known prefix else known

abbrev pub is_denied : Str → Option Policy → Bool
is_denied token none = false
is_denied token (some p) = (resolve p (take 3 (normalize token))).force_flag

-- Every call is a call without a policy, whose result the deny list may turn to FLAGGED.
pub correct_identifier_lem :
    (token : Str) (context : FieldContext) (known : Registry) (owner_policy : OwnerPolicy)
    (policy : Option Policy)
    → correct_identifier token context known owner_policy policy ≡ (
        correct_plain token context
          (effective_registry token known policy)
          (effective_policy token owner_policy policy)
        >>= λ r. ok (if is_denied token policy then force_flag (take 3 (normalize token)) r else r))
unfolding correct_identifier correct_treated
correct_identifier_lem token context known owner_policy none =
    sym (>>=-ok (correct_plain token context known owner_policy))
correct_identifier_lem token context known owner_policy (some p) =
    elim (Bool-cases (is_denied token (some p))) [
      | inl denied ↦ rw denied
      | inr free ↦ rw free (sym (>>=-ok _))
    ]

pub correct_identifier-eq-ok :
    (token : Str) (context : FieldContext) (known : Registry) (owner_policy : OwnerPolicy)
    (policy : Option Policy) {r : CorrectionResult}
    → correct_identifier token context known owner_policy policy ≡ ok r
    → (base : CorrectionResult) × (correct_plain token context
          (effective_registry token known policy)
          (effective_policy token owner_policy policy)
        ≡ ok base)
      × (r ≡ (if is_denied token policy then force_flag (take 3 (normalize token)) base else base))
correct_identifier-eq-ok token context known owner_policy policy h =
    let (base, e, f) =
      >>=-eq-ok _ _ (sym (correct_identifier_lem token context known owner_policy policy) ∙ h) in
    (base, e, ok_injective (sym f))

-- The policy, if there is one, was accepted by its constructor; otherwise `owner_policy` is one of
-- the two accepted values.
abbrev pub AcceptsPolicy : OwnerPolicy → Option Policy → Type 0
AcceptsPolicy owner_policy none = is_owner_policy owner_policy ≡ true
AcceptsPolicy owner_policy (some p) = IsValid p

effective_policy-accepted :
    (token : Str) (owner_policy : OwnerPolicy) (policy : Option Policy)
    → AcceptsPolicy owner_policy policy
    → is_owner_policy (effective_policy token owner_policy policy) ≡ true
effective_policy-accepted token owner_policy none h = h
effective_policy-accepted token owner_policy (some p) h =
    resolve-accepted p (take 3 (normalize token)) h

-- With a constructed policy, or without one an accepted owner policy, `correct_identifier` returns a
-- verdict on every token, whatever characters it holds; no exception of the check-digit functions
-- gets out.
pub correct_identifier-total :
    (token : Str) (context : FieldContext) (known : Registry) (owner_policy : OwnerPolicy)
    (policy : Option Policy)
    → AcceptsPolicy owner_policy policy
    → (r : CorrectionResult) × (correct_identifier token context known owner_policy policy ≡ ok r)
correct_identifier-total token context known owner_policy policy h =
    let accepted = effective_policy-accepted token owner_policy policy h in
    let (base, e) =
      correct_plain-total token context (effective_registry token known policy)
        (effective_policy token owner_policy policy) accepted in
    (
      if is_denied token policy then force_flag (take 3 (normalize token)) base else base,
      correct_identifier_lem token context known owner_policy policy ∙ rw e refl,
    )

-- The result of the deny list is no longer VALID or CORRECTED, and proposes nothing.
pub force_flag-review :
    (prefix : Str) (base : CorrectionResult)
    → ((force_flag prefix base).status ≢ valid) × ((force_flag prefix base).status ≢ corrected)
unfolding force_flag
force_flag-review prefix base = (ground arith, ground arith)
