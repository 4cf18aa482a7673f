-- ===== src/Kernel/Router/Corrected.antt =====
-- When `correct_identifier` corrects, and when it accepts a token as valid.
use checkdigit.Common.{
  ◌-◌, ◌≡◌, refl, sym, ap, ◌∙◌, Bool, true, false, arith, Str, length, take, ok, Option, some, none,
  take-take, if◌then◌else◌,
}
use checkdigit.Kernel.Decide.{Registry, learn}
use checkdigit.Kernel.Normalize.{normalize}
use checkdigit.Kernel.Router.{route, correct_identifier, force_flag}
use checkdigit.Kernel.Router.Shapes.{normalize-alnum}
use checkdigit.Kernel.Router.Again.{Repairs, AcceptedAs}
use checkdigit.Kernel.Router.Sound.{Routed-IsRepair}
use checkdigit.Kernel.Router.Verdicts.{
  correct_identifier-eq-ok, correct_plain-Routed, correct_plain-route, correct_plain-accepted,
  correct_identifier_lem, effective_policy, effective_registry, is_denied, force_flag-review,
}
use checkdigit.Kernel.Types.{
  IdentifierType, FieldContext, corrected, OwnerPolicy, CorrectionResult, is_owner_policy,
}
use checkdigit.Policy.{Policy, resolve}

-- A corrected token was not denied, so its verdict is that of the router.
pub corrected_base :
    (prefix : Str) (denied : Bool) (base : CorrectionResult) {r : CorrectionResult}
    → r ≡ (if denied then force_flag prefix base else base)
    → r.status ≡ corrected
    → (denied ≡ false) × (r ≡ base)
corrected_base prefix true base {r} e h =
    absurd ((force_flag-review prefix base).1 (ap (λ (x : CorrectionResult). x.status) (sym e) ∙ h))
corrected_base prefix false base e h = (refl, e)

module _ {norm c : Str} (r : Repairs norm c) where
  repair_owner : take 3 c ≡ take 3 norm
  repair_owner =
      sym (take-take 3 (length norm - 1) c (omega (arith, r.long)))
      ∙ ap (take 3) r.same_body
      ∙ take-take 3 (length norm - 1) norm (omega (arith, r.long))

module _ (token c : Str) (same : take 3 (normalize c) ≡ take 3 (normalize token)) where
  effective_policy-same :
      (owner_policy : OwnerPolicy) (policy : Option Policy)
      → effective_policy c owner_policy policy ≡ effective_policy token owner_policy policy
  effective_policy-same owner_policy none = refl
  effective_policy-same owner_policy (some p) = ap (λ (x : Str). (resolve p x).owner_policy) same

  effective_registry-same :
      (known : Registry) (policy : Option Policy)
      → effective_registry c known policy ≡ effective_registry token known policy
  effective_registry-same known none = refl
  effective_registry-same known (some p) =
      ap (λ (x : Str). if (resolve p x).corroborated then learn known x else known) same

  is_denied-same : (policy : Option Policy) → is_denied c policy ≡ is_denied token policy
  is_denied-same none = refl
  is_denied-same (some p) = ap (λ (x : Str). (resolve p x).force_flag) same

module _ (token : Str) (context : FieldContext) (known : Registry) (owner_policy : OwnerPolicy)
    (policy : Option Policy) where
  accepted_again :
      (c : Str) {t : IdentifierType}
      → normalize c ≡ c
      → take 3 c ≡ take 3 (normalize token)
      → is_denied token policy ≡ false
      → is_owner_policy (effective_policy token owner_policy policy) ≡ true
      → AcceptedAs t (
          route c c context
            (effective_registry token known policy)
            (effective_policy token owner_policy policy))
      → AcceptedAs t (correct_identifier c context known owner_policy policy)
  accepted_again c plain owner free accepted (r', e, is) =
      let same = ap (take 3) plain ∙ owner in
      let again =
        correct_plain-route c context (effective_registry token known policy)
          (effective_policy token owner_policy policy) accepted in
      (
        r',
        correct_identifier_lem c context known owner_policy policy
            ∙ rw (
              effective_policy-same token c same owner_policy policy,
              effective_registry-same token c same known policy,
              is_denied-same token c same policy,
              free,
              again,
              plain,
              e,
            ),
        is,
      )

  -- A corrected token comes with an identifier that is the normalised token with another last
  -- character and nothing else changed, and that `correct_identifier` accepts as VALID and of the
  -- same type, in the same context, registry and policy.
  pub correct_identifier-corrected :
      {r : CorrectionResult}
      → correct_identifier token context known owner_policy policy ≡ ok r
      → r.status ≡ corrected
      → (c : Str) × (r.corrected ≡ some c)
        × Repairs (normalize token) c
        × AcceptedAs r.id_type (correct_identifier c context known owner_policy policy)
  correct_identifier-corrected h status =
      let (base, e, f) = correct_identifier-eq-ok token context known owner_policy policy h in
      let (free, same) =
        corrected_base (take 3 (normalize token)) (is_denied token policy) base f status in
      let e' = e ∙ ap (λ (x : CorrectionResult). ok x) (sym same) in
      let known' = effective_registry token known policy in
      let policy' = effective_policy token owner_policy policy in
      let (c, is) = Routed-IsRepair (correct_plain-Routed token context known' policy' e') status in
      let plain = normalize-alnum c is.2 in
      (
        c,
        is.0,
        is.1,
        accepted_again c plain (repair_owner is.1) free
            (correct_plain-accepted token context known' policy' e') (is.3 c),
      )
