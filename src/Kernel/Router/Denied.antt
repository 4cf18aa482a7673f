-- ===== src/Kernel/Router/Denied.antt =====
-- The deny list of an operator's policy and `correct_identifier`.
use mathlib.Core.Path.{subst}
use checkdigit.Common.{
  ℕ, zero, suc, ◌≡◌, ◌≢◌, ap, sym, ◌∙◌, refl, true, [], ◌∷◌, Str, List, take, take-take, ok, some,
  has, All, arith,
}
use checkdigit.Kernel.Decide.{Registry}
use checkdigit.Kernel.Normalize.{normalize, upper}
use checkdigit.Kernel.Normalize.Closed.{IsPlain}
use checkdigit.Kernel.Normalize.Laws.{upper-IsPlain, normalize-All-IsPlain}
use checkdigit.Kernel.Router.{correct_identifier, force_flag}
use checkdigit.Kernel.Router.Verdicts.{correct_identifier-eq-ok, is_denied, force_flag-review}
use checkdigit.Kernel.Types.{FieldContext, valid, corrected, OwnerPolicy, CorrectionResult}
use checkdigit.Policy.{Policy, resolve, match_key, is_some}
use checkdigit.Policy.Complete.{match_key-found}
use checkdigit.Policy.Match.{CoversPrefix}

take-All {ℓ} : {A : Type ℓ} (P : A → Type 0) (n : ℕ) (xs : List A) → All P xs → All P (take n xs)
take-All P zero xs h = tt
take-All P (suc n) [] h = tt
take-All P (suc n) (x ∷ xs) (h, hs) = (h, take-All P n xs hs)

-- The owner prefix of a normalised token is read as it is.
upper-owner : (token : Str) → upper (take 3 (normalize token)) ≡ take 3 (normalize token)
upper-owner token =
    upper-IsPlain (take 3 (normalize token))
      (take-All IsPlain 3 (normalize token) (normalize-All-IsPlain token))

owner_again :
    (token : Str) → upper (take 3 (upper (take 3 (normalize token)))) ≡ take 3 (normalize token)
owner_again token =
    let owner = upper-owner token in
    ap (λ x. upper (take 3 x)) owner
    ∙ ap upper (take-take 3 3 (normalize token) (omega arith))
    ∙ owner

-- A prefix that a key of the deny list covers is denied, whatever the other lists say.
resolve-deny :
    (p : Policy) (prefix : Str)
    → is_some (match_key (take 3 (upper prefix)) p.deny) ≡ true
    → (resolve p prefix).force_flag ≡ true
unfolding resolve
resolve-deny p prefix h = rw h refl

-- A token whose owner prefix is covered by an entry of the policy's deny list, exactly or by a
-- wildcard, is never VALID and never CORRECTED, whatever its check digit, its context, the
-- registry and the allow list.
pub correct_identifier-denied :
    (token : Str) (context : FieldContext) (known : Registry) (owner_policy : OwnerPolicy)
    (p : Policy) (key : Str) {r : CorrectionResult}
    → has p.deny key ≡ true
    → CoversPrefix (take 3 (normalize token)) key
    → correct_identifier token context known owner_policy (some p) ≡ ok r
    → (r.status ≢ valid) × (r.status ≢ corrected)
correct_identifier-denied token context known owner_policy p key listed covers h =
    let prefix = take 3 (normalize token) in
    let found =
      match_key-found (take 3 (upper prefix)) p.deny key listed
        (subst (λ x. CoversPrefix x key) (sym (owner_again token)) covers) in
    let denied : is_denied token (some p) ≡ true = resolve-deny p prefix found in
    let (base, _, e) = correct_identifier-eq-ok token context known owner_policy (some p) h in
    let is : _ ≡ force_flag prefix base = e ∙ rw denied in rw is (force_flag-review prefix base)
