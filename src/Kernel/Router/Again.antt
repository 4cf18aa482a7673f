-- ===== src/Kernel/Router/Again.antt =====
-- A body with its computed check digit behind it, read by the router again.
use checkdigit.Common.{
  ℕ, ◌+◌, ◌-◌, ◌≡◌, ◌<◌, refl, sym, ap, ◌∙◌, true, false, ◌&&◌, [], ◌∷◌, ◌++◌, arith, Str, length,
  take, slice, get_or, matches, is_digit, Result, ok, length-append, length-matches, take-append,
  drop-append, str_eq_refl, ◌≤◌, str_eq, ◌≢◌, str_eq_iff,
}
use checkdigit.Kernel.Decide.{
  Registry, digit_str, category_type, evaluate_bic, is_nonstandard, decide_uic, decide_bic,
  is_rail_vehicle,
}
use checkdigit.Kernel.Digits.{iso6346_check_digit, uic_check_digit}
use checkdigit.Kernel.Router.{
  bic_result, pseudo_prefix_result, correct_bic_like, correct_container_shaped, correct_uic_shaped,
  route, is_size_type, is_trusted,
}
use checkdigit.Kernel.Router.Shapes.{matches_join, bic_body, container_body, uic_body}
use checkdigit.Kernel.Types.{
  IdentifierType, iso6346, uic, FieldContext, valid, OwnerPolicy, CorrectionResult, bic_like,
  container_shaped, is_lenient,
}

module _ (n : ℕ) (body : Str) (x : ℕ) (long : length body ≡ n) where
  take_body : take n (body ++ x ∷ []) ≡ body
  take_body = ap (λ m. take m (body ++ x ∷ [])) (sym long) ∙ take-append body (x ∷ [])

  pub last_char : slice (body ++ x ∷ []) n 1 ≡ x ∷ []
  last_char =
      ap (λ m. slice (body ++ x ∷ []) m 1) (sym long) ∙ ap (take 1) (drop-append body (x ∷ []))

pub digit_str_digit : (d : ℕ) → d < 10 → is_digit (48 + d) ≡ true
digit_str_digit d h = ground arith

-- `c` is `norm` with another last character.
pub record Repairs (norm c : Str) : Type 0 where
  pub long : 3 < length norm
  pub same_length : length c ≡ length norm
  pub same_body : take (length norm - 1) c ≡ take (length norm - 1) norm
  pub another : c ≢ norm

pub Repairs-last :
    (n : ℕ) (norm : Str) (x y : ℕ)
    → 3 ≤ n
    → length (take n norm) ≡ n
    → norm ≡ take n norm ++ x ∷ []
    → str_eq (slice norm n 1) (y ∷ []) ≡ false
    → Repairs norm (take n norm ++ y ∷ [])
Repairs-last n norm x y le long e differ =
    let whole : length norm ≡ n + 1 =
      ap length e ∙ omega (arith, length-append (take n norm) (x ∷ [])) in
    let but_last : length norm - 1 ≡ n = omega arith in
    record {
      long = omega arith;
      same_length = omega (arith, length-append (take n norm) (y ∷ []));
      same_body =
          ap (λ (m : ℕ). take m (take n norm ++ y ∷ [])) but_last
          ∙ take_body n (take n norm) y long
          ∙ ap (λ (m : ℕ). take m norm) (sym but_last);
      another = λ (same : take n norm ++ y ∷ [] ≡ norm).
          let last : slice norm n 1 ≡ y ∷ [] =
            ap (λ (t : Str). slice t n 1) (sym same) ∙ last_char n (take n norm) y long in
          let agree = (str_eq_iff (slice norm n 1) (y ∷ [])).1 last in cc;
    }

-- What the router makes of a corrected identifier, whatever the raw token is.
abbrev pub AcceptedAs : IdentifierType → Result CorrectionResult → Type 0
AcceptedAs t result =
    (r : CorrectionResult) × (result ≡ ok r) × ((r.status ≡ valid) × (r.id_type ≡ t))

module _ (raw norm printed : Str) (context : FieldContext) where
  bic_result-valid :
      (known : Registry) (t : IdentifierType)
      → is_nonstandard t ≡ false
      → ((bic_result raw norm context known printed (t, printed)).status ≡ valid)
        × ((bic_result raw norm context known printed (t, printed)).id_type ≡ t)
  unfolding bic_result decide_bic
  bic_result-valid known t h = rw (h, str_eq_refl printed) (refl, refl)

  pseudo_prefix_result-valid :
      (policy : OwnerPolicy)
      → (is_lenient policy && is_trusted context) ≡ true
      → ((pseudo_prefix_result raw norm context policy printed printed).status ≡ valid)
        × ((pseudo_prefix_result raw norm context policy printed printed).id_type ≡ iso6346)
  unfolding pseudo_prefix_result
  pseudo_prefix_result-valid policy h = rw (h, str_eq_refl printed) (refl, refl)

  decide_uic-valid :
      (whole : Str)
      → is_rail_vehicle context ≡ true
      → ((decide_uic raw norm context printed printed whole).status ≡ valid)
        × ((decide_uic raw norm context printed printed whole).id_type ≡ uic)
  unfolding decide_uic
  decide_uic-valid whole h = rw (h, str_eq_refl printed) (refl, refl)

-- A body with its check digit behind it, at the router
module _ (raw body : Str) (d : ℕ) (lt : d < 10) (context : FieldContext) (known : Registry)
    (policy : OwnerPolicy) (target : is_size_type context ≡ false) where
  pub bic_again :
      matches bic_body body ≡ true
      → iso6346_check_digit body ≡ ok d
      → is_nonstandard (category_type (get_or body 3 0)) ≡ false
      → AcceptedAs
          (category_type (get_or body 3 0))
          (route raw (body ++ digit_str d) context known policy)
  unfolding route correct_bic_like evaluate_bic
  bic_again m check standard =
      let long = length-matches bic_body body m in
      let shape = matches_join bic_body is_digit body (48 + d) m (digit_str_digit d lt) in
      let t = category_type (get_or body 3 0) in
      let whole = body ++ digit_str d in
      (
        bic_result raw whole context known (digit_str d) (t, digit_str d),
        rw (target, shape, take_body 10 body (48 + d) long, check, last_char 10 body (48 + d) long)
            refl,
        bic_result-valid raw whole (digit_str d) context known t standard,
      )

  pub container_again :
      matches container_body body ≡ true
      → matches bic_like (body ++ digit_str d) ≡ false
      → iso6346_check_digit body ≡ ok d
      → (is_lenient policy && is_trusted context) ≡ true
      → AcceptedAs iso6346 (route raw (body ++ digit_str d) context known policy)
  unfolding route correct_container_shaped
  container_again m not_bic check trusted =
      let long = length-matches container_body body m in
      let shape = matches_join container_body is_digit body (48 + d) m (digit_str_digit d lt) in
      let whole = body ++ digit_str d in
      (
        pseudo_prefix_result raw whole context policy (digit_str d) (digit_str d),
        rw
            (
              target,
              not_bic,
              shape,
              take_body 10 body (48 + d) long,
              check,
              last_char 10 body (48 + d) long,
            )
            refl,
        pseudo_prefix_result-valid raw whole (digit_str d) context policy trusted,
      )

  pub uic_again :
      matches uic_body body ≡ true
      → matches bic_like (body ++ digit_str d) ≡ false
      → matches container_shaped (body ++ digit_str d) ≡ false
      → uic_check_digit body ≡ ok d
      → is_rail_vehicle context ≡ true
      → AcceptedAs uic (route raw (body ++ digit_str d) context known policy)
  unfolding route correct_uic_shaped
  uic_again m not_bic not_container check rail =
      let long = length-matches uic_body body m in
      let shape = matches_join uic_body is_digit body (48 + d) m (digit_str_digit d lt) in
      let whole = body ++ digit_str d in
      (
        decide_uic raw whole context (digit_str d) (digit_str d) whole,
        rw
            (
              target,
              not_bic,
              not_container,
              shape,
              take_body 11 body (48 + d) long,
              check,
              last_char 11 body (48 + d) long,
            )
            refl,
        decide_uic-valid raw whole (digit_str d) context whole rail,
      )
