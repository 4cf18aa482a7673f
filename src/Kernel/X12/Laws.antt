-- ===== src/Kernel/X12/Laws.antt =====
-- `correct_x12_equipment` of checkdigit/equipment_checkdigit.py as a whole.
use mathlib.Core.Path.{subst}
use checkdigit.Common.{
  ℕ, zero, suc, ◌+◌, ◌-◌, ◌≤◌, ◌<◌, ◌≡◌, ◌≢◌, refl, sym, ap, ◌∙◌, Bool, true, false, List, [], ◌∷◌,
  ◌++◌, arith, length, replicate, Str, matches, is_digit, ok, Option, some, none, take, get_or, ltb,
  Bool-cases, inl, inr, ok_injective, >>=-eq-ok, if◌then◌else◌,
}
use checkdigit.Kernel.Decide.{
  Registry, learn, evaluate_bic, category_type, is_nonstandard, digit_str,
}
use checkdigit.Kernel.Digits.{iso6346_check_digit}
use checkdigit.Kernel.Normalize.{normalize}
use checkdigit.Kernel.Router.{correct_identifier, force_flag}
use checkdigit.Kernel.Router.Shapes.{bic_body, bic_body_alnum, normalize-alnum}
use checkdigit.Kernel.Router.Again.{AcceptedAs, bic_again}
use checkdigit.Kernel.Router.Sound.{All-alnum_digit}
use checkdigit.Kernel.Router.Total.{bic_check}
use checkdigit.Kernel.Router.Verdicts.{correct_plain-route, force_flag-review}
use checkdigit.Kernel.Types.{CorrectionResult, IdentifierType, equipment_id, corrected, strict}
use checkdigit.Kernel.X12.{
  alpha4, keep_digits, zfill, slashed, bad_initial_result, long_serial_result, decide_x12,
  x12_result, x12_body, correct_x12_plain, correct_x12_equipment,
}
use checkdigit.Policy.{Policy, resolve}

matches-append :
    (ps qs : List (ℕ → Bool)) (s t : Str)
    → matches ps s ≡ true
    → matches qs t ≡ true
    → matches (ps ++ qs) (s ++ t) ≡ true
unfolding matches
matches-append [] qs [] t h k = k
matches-append [] qs (c ∷ s) t h k = absurd (cc)
matches-append (p ∷ ps) qs [] t h k = absurd (cc)
matches-append (p ∷ ps) qs (c ∷ s) t h k = ground (arith, matches-append ps qs s t)

keep_digits-matches :
    (s : Str) → matches (replicate (length (keep_digits s)) is_digit) (keep_digits s) ≡ true
unfolding matches keep_digits
keep_digits-matches [] = refl
keep_digits-matches (c ∷ s) = elim (Bool-cases (is_digit c)) [
  | inl digit ↦ rw (digit) (rw digit (keep_digits-matches s))
  | inr other ↦ rw other (keep_digits-matches s)
]

zeros-matches :
    (k m n : ℕ) (num : Str)
    → matches (replicate m is_digit) num ≡ true
    → n ≡ k + m
    → matches (replicate n is_digit) (replicate k b'0' ++ num) ≡ true
unfolding matches
zeros-matches zero m n num h e =
    let same : n ≡ m = omega arith in ap (λ (x : ℕ). matches (replicate x is_digit) num) same ∙ h
zeros-matches (suc k) m zero num h e = absurd (omega arith)
zeros-matches (suc k) m (suc n) num h e = zeros-matches k m n num h (omega arith)

-- The assembled body has the shape of a container body.
x12_body-matches :
    (initial number : Str)
    → matches alpha4 (normalize initial) ≡ true
    → length (keep_digits number) ≤ 6
    → matches bic_body (x12_body initial number) ≡ true
unfolding x12_body
x12_body-matches initial number upper short =
    let num = keep_digits number in
    matches-append alpha4 (replicate 6 is_digit) (normalize initial) (zfill 6 num) upper
      (zeros-matches (6 - length num) (length num) 6 num (keep_digits-matches number) (omega arith))

-- What `correct_x12_plain` returns: a refusal that corrects nothing, or the evaluated body.
data Assembled (initial number : Str) (printed : Option Str) : CorrectionResult → Type 0 where
  refused : {r : CorrectionResult} → r.status ≢ corrected → Assembled initial number printed r
  assembled :
      (d : ℕ)
      → matches bic_body (x12_body initial number) ≡ true
      → iso6346_check_digit (x12_body initial number) ≡ ok d
      → d < 10
      → Assembled initial number printed (
          x12_result
            (slashed initial number)
            (x12_body initial number)
            printed
            (category_type (get_or (x12_body initial number) 3 0), digit_str d))

module _ (initial number : Str) (printed : Option Str) (known : Registry) where
  correct_x12_plain-Assembled :
      (r : CorrectionResult) × (correct_x12_plain initial number printed known ≡ ok r)
      × Assembled initial number printed r
  unfolding correct_x12_plain evaluate_bic
  correct_x12_plain-Assembled =
      let raw = slashed initial number in
      let whole = normalize initial ++ keep_digits number in
      elim (Bool-cases (matches alpha4 (normalize initial))) [
        | inr lower ↦
            (bad_initial_result initial raw whole, rw lower refl, refused (λ h. ground arith))
        | inl upper ↦ elim (Bool-cases (ltb 6 (length (keep_digits number)))) [
          | inl long ↦ (
            long_serial_result (length (keep_digits number)) raw whole,
            rw (upper, long) refl,
            refused (λ h. ground arith),
          )
          | inr short ↦
              let m = x12_body-matches initial number upper (ground arith) in
              let (d, check, lt) = bic_check (x12_body initial number) m in
              (_, rw (upper, short, check) refl, assembled d m check lt)
        ]
      ]

-- What a correction of the assembled body is.
module _ (raw body10 computed : Str) (t : IdentifierType) where
  decide_x12-corrected :
      (printed : Option Str)
      → (decide_x12 raw body10 t computed printed).status ≡ corrected
      → ((decide_x12 raw body10 t computed printed).corrected ≡ some (body10 ++ computed))
        × ((decide_x12 raw body10 t computed printed).id_type ≡ t)
  unfolding decide_x12
  decide_x12-corrected none h = (refl, refl)
  decide_x12-corrected (some []) h = (refl, refl)
  decide_x12-corrected (some (c ∷ cs)) h = (ground arith, ground arith)

  x12_result-corrected :
      (printed : Option Str)
      → (x12_result raw body10 printed (t, computed)).status ≡ corrected
      → ((x12_result raw body10 printed (t, computed)).corrected ≡ some (body10 ++ computed))
        × ((x12_result raw body10 printed (t, computed)).id_type ≡ t)
        × (is_nonstandard t ≡ false)
  unfolding x12_result
  x12_result-corrected printed h = (
    ground (arith, decide_x12-corrected printed),
    ground (arith, decide_x12-corrected printed),
    ground arith,
  )

module _ (initial number : Str) (printed : Option Str) (known : Registry) where
  -- A correction passed no deny list: it is that of a call without a policy.
  corrected_plain :
      (policy : Option Policy) {r : CorrectionResult}
      → correct_x12_equipment initial number printed known policy ≡ ok r
      → r.status ≡ corrected
      → (known' : Registry) × (correct_x12_plain initial number printed known' ≡ ok r)
  unfolding correct_x12_equipment
  corrected_plain none h status = (known, h)
  corrected_plain (some p) h status =
      let prefix = take 3 (normalize initial) in
      let t = resolve p prefix in
      let known' = if t.corroborated then learn known prefix else known in
      elim (Bool-cases t.force_flag) [
        | inl denied ↦
            let (base, _, e) =
              >>=-eq-ok (correct_x12_plain initial number printed known')
                (λ r. ok (force_flag prefix r)) (rw denied at h) in
            absurd (
              (force_flag-review prefix base).1
                (ap (λ (x : CorrectionResult). x.status) (ok_injective e) ∙ status))
        | inr free ↦ (known', rw free at h)
      ]

  -- For every initial, number, check digit and policy, `correct_x12_equipment` returns a verdict.
  pub correct_x12_equipment-total :
      (policy : Option Policy)
      → (r : CorrectionResult) × (correct_x12_equipment initial number printed known policy ≡ ok r)
  unfolding correct_x12_equipment
  correct_x12_equipment-total none =
      let (r, e, _) = correct_x12_plain-Assembled initial number printed known in (r, e)
  correct_x12_equipment-total (some p) =
      let prefix = take 3 (normalize initial) in
      let t = resolve p prefix in
      let known' = if t.corroborated then learn known prefix else known in
      let (r, e, _) = correct_x12_plain-Assembled initial number printed known' in
      elim (Bool-cases t.force_flag) [
        | inl denied ↦ (force_flag prefix r, rw (denied, e) refl)
        | inr free ↦ (r, rw free e)
      ]

-- A body with its check digit is accepted by `correct_identifier` in a declared field.
accepted_whole :
    (body : Str) (d : ℕ) (known : Registry)
    → d < 10
    → matches bic_body body ≡ true
    → iso6346_check_digit body ≡ ok d
    → is_nonstandard (category_type (get_or body 3 0)) ≡ false
    → AcceptedAs
        (category_type (get_or body 3 0))
        (correct_identifier (body ++ digit_str d) equipment_id known strict none)
unfolding correct_identifier
accepted_whole body d known lt m check standard =
    let whole = body ++ digit_str d in
    let plain = normalize-alnum whole (All-alnum_digit bic_body body d lt bic_body_alnum m) in
    let (r, e, is) = bic_again whole body d lt equipment_id known strict refl m check standard in
    (r, correct_plain-route whole equipment_id known strict refl ∙ rw plain e, is)

corrected_by_assembly :
    {initial number : Str} {printed : Option Str} {r : CorrectionResult} (registry : Registry)
    → Assembled initial number printed r
    → r.status ≡ corrected
    → (d : ℕ) × (r.corrected ≡ some (x12_body initial number ++ digit_str d))
      × AcceptedAs r.id_type (
          correct_identifier
            (x12_body initial number ++ digit_str d)
            equipment_id
            registry
            strict
            none)
corrected_by_assembly registry (refused h) status = absurd (h status)
corrected_by_assembly {initial} {number} {printed} registry (assembled d m check lt) status =
    let body = x12_body initial number in
    let t = category_type (get_or body 3 0) in
    let (is, same, standard) =
      x12_result-corrected (slashed initial number) body (digit_str d) t printed status in
    (d, is, rw same (accepted_whole body d registry lt m check standard))

-- What `correct_x12_equipment` corrects to is the initial and the zero-filled serial number with one
-- digit behind them, and `correct_identifier` accepts that number as VALID and of the same type in a
-- declared field, with any registry.
pub correct_x12_equipment-corrected :
    (initial number : Str) (printed : Option Str) (known : Registry) (policy : Option Policy)
    (registry : Registry) {r : CorrectionResult}
    → correct_x12_equipment initial number printed known policy ≡ ok r
    → r.status ≡ corrected
    → (d : ℕ) × (r.corrected ≡ some (x12_body initial number ++ digit_str d))
      × AcceptedAs r.id_type (
          correct_identifier
            (x12_body initial number ++ digit_str d)
            equipment_id
            registry
            strict
            none)
correct_x12_equipment-corrected initial number printed known policy registry h status =
    let (known', e) = corrected_plain initial number printed known policy h status in
    let (r', e', is) = correct_x12_plain-Assembled initial number printed known' in
    let same : r' ≡ _ = ok_injective (sym e' ∙ e) in
    corrected_by_assembly registry (subst (Assembled initial number printed) same is) status
