-- ===== src/Kernel/Router/Total.antt =====
-- The ways through the router, by the shape of the token.
use checkdigit.Common.{
  ℕ, ◌-◌, ◌%◌, ◌≡◌, ◌<◌, inl, inr, true, false, [], ◌∷◌, ◌++◌, arith, Str, length, take, get_or,
  matches, ok, Bool-cases, length-matches, reverse,
}
use checkdigit.Kernel.Decide.{Registry, digit_str, category_type, evaluate_bic, decide_uic}
use checkdigit.Kernel.Digits.{
  iso6346_check_digit, uic_check_digit, all_digits_of, all_ascii_digits, ten_to_zero, uic_total,
}
use checkdigit.Kernel.Digits.Iso6346.{weigh, iso6346_check_digit-total, iso6346_check_digit_lt}
use checkdigit.Kernel.Digits.Luhn.{uic_check_digit_lt}
use checkdigit.Kernel.Router.{
  char_str, bic_result, pseudo_prefix_result, correct_bic_like, correct_container_shaped,
  correct_uic_shaped, route, is_size_type, size_type_result, no_structure_result,
}
use checkdigit.Kernel.Router.Shapes.{
  matches-All, bic_body, container_body, uic_body, bic_body_alnum, container_body_alnum,
  matches-replicate, bic_split, container_split, uic_split,
}
use checkdigit.Kernel.Types.{
  FieldContext, OwnerPolicy, CorrectionResult, bic_like, container_shaped, uic_shaped,
}

-- Every body of a container shape has a check digit.
pub bic_check :
    (body : Str)
    → matches bic_body body ≡ true
    → (d : ℕ) × (iso6346_check_digit body ≡ ok d) × (d < 10)
bic_check body h =
    let e =
      iso6346_check_digit-total body (length-matches bic_body body h)
        (matches-All bic_body body bic_body_alnum h) in
    (ten_to_zero (weigh body % 11), e, iso6346_check_digit_lt body e)

pub container_check :
    (body : Str)
    → matches container_body body ≡ true
    → (d : ℕ) × (iso6346_check_digit body ≡ ok d) × (d < 10)
container_check body h =
    let e =
      iso6346_check_digit-total body (length-matches container_body body h)
        (matches-All container_body body container_body_alnum h) in
    (ten_to_zero (weigh body % 11), e, iso6346_check_digit_lt body e)

all_ascii_digits-of : (s : Str) → all_digits_of s ≡ true → length s ≡ 11 → all_ascii_digits s ≡ true
unfolding all_ascii_digits
all_ascii_digits-of [] h k = absurd (omega arith)
all_ascii_digits-of (c ∷ s) h k = h

uic_returns :
    (body : Str)
    → length body ≡ 11
    → all_ascii_digits body ≡ true
    → uic_check_digit body ≡ ok ((10 - uic_total 0 0 (reverse body) % 10) % 10)
unfolding uic_check_digit
uic_returns body h k = ground arith

pub uic_check :
    (body : Str) → matches uic_body body ≡ true → (d : ℕ) × (uic_check_digit body ≡ ok d) × (d < 10)
uic_check body h =
    let long = length-matches uic_body body h in
    let e = uic_returns body long (all_ascii_digits-of body (matches-replicate 11 body h) long) in
    ((10 - uic_total 0 0 (reverse body) % 10) % 10, e, uic_check_digit_lt body e)

module _ (raw norm : Str) (context : FieldContext) (known : Registry) where
  -- What the router returns for the shape of a container number.
  pub correct_bic_like_lem :
      matches bic_like norm ≡ true
      → (d : ℕ) × (d < 10)
        × (iso6346_check_digit (take 10 norm) ≡ ok d)
        × (correct_bic_like raw norm context known
            ≡ ok (
                bic_result raw norm context known
                  (char_str norm 10)
                  (category_type (get_or (take 10 norm) 3 0), digit_str d)))
  unfolding correct_bic_like evaluate_bic
  correct_bic_like_lem h =
      let (_, _, _, body) = bic_split norm h in
      let (d, e, lt) = bic_check (take 10 norm) body in (d, lt, e, rw e)

  pub correct_container_shaped_lem :
      (policy : OwnerPolicy)
      → matches container_shaped norm ≡ true
      → (d : ℕ) × (d < 10)
        × (iso6346_check_digit (take 10 norm) ≡ ok d)
        × (correct_container_shaped raw norm context policy
            ≡ ok (pseudo_prefix_result raw norm context policy (char_str norm 10) (digit_str d)))
  unfolding correct_container_shaped
  correct_container_shaped_lem policy h =
      let (_, _, _, body) = container_split norm h in
      let (d, e, lt) = container_check (take 10 norm) body in (d, lt, e, rw e)

  pub correct_uic_shaped_lem :
      matches uic_shaped norm ≡ true
      → (d : ℕ) × (d < 10)
        × (uic_check_digit (take 11 norm) ≡ ok d)
        × (correct_uic_shaped raw norm context
            ≡ ok (
                decide_uic raw norm context
                  (char_str norm 11)
                  (digit_str d)
                  (take 11 norm ++ digit_str d)))
  unfolding correct_uic_shaped
  correct_uic_shaped_lem h =
      let (_, _, _, body) = uic_split norm h in
      let (d, e, lt) = uic_check (take 11 norm) body in (d, lt, e, rw e)

-- The five ways through the router.
pub data Routed (raw norm : Str) (context : FieldContext) (known : Registry) (policy : OwnerPolicy)
    : CorrectionResult → Type 0 where
  size_type_field :
      is_size_type context ≡ true → Routed raw norm context known policy (size_type_result raw norm)
  bic :
      (d : ℕ)
      → is_size_type context ≡ false
      → matches bic_like norm ≡ true
      → iso6346_check_digit (take 10 norm) ≡ ok d
      → d < 10
      → Routed raw norm context known policy (
          bic_result raw norm context known
            (char_str norm 10)
            (category_type (get_or (take 10 norm) 3 0), digit_str d))
  pseudo_prefix :
      (d : ℕ)
      → is_size_type context ≡ false
      → matches bic_like norm ≡ false
      → matches container_shaped norm ≡ true
      → iso6346_check_digit (take 10 norm) ≡ ok d
      → d < 10
      → Routed raw norm context known policy
          (pseudo_prefix_result raw norm context policy (char_str norm 10) (digit_str d))
  uic_number :
      (d : ℕ)
      → is_size_type context ≡ false
      → matches bic_like norm ≡ false
      → matches container_shaped norm ≡ false
      → matches uic_shaped norm ≡ true
      → uic_check_digit (take 11 norm) ≡ ok d
      → d < 10
      → Routed raw norm context known policy (
          decide_uic raw norm context
            (char_str norm 11)
            (digit_str d)
            (take 11 norm ++ digit_str d))
  nothing :
      is_size_type context ≡ false
      → matches bic_like norm ≡ false
      → matches container_shaped norm ≡ false
      → matches uic_shaped norm ≡ false
      → Routed raw norm context known policy (no_structure_result raw norm)

module _ (raw norm : Str) (context : FieldContext) (known : Registry) (policy : OwnerPolicy) where
  abbrev Routes : Type 0
  Routes =
      (r : CorrectionResult) × (route raw norm context known policy ≡ ok r)
      × Routed raw norm context known policy r

  route_uic :
      is_size_type context ≡ false
      → matches bic_like norm ≡ false
      → matches container_shaped norm ≡ false
      → Routes
  unfolding route
  route_uic s b c = elim (Bool-cases (matches uic_shaped norm)) [
    | inl u ↦
        let (d, lt, check, e) = correct_uic_shaped_lem raw norm context known u in
        (_, rw (s, b, c, u) e, uic_number d s b c u check lt)
    | inr u ↦ (_, rw (s, b, c, u), nothing s b c u)
  ]

  route_shapes : is_size_type context ≡ false → Routes
  unfolding route
  route_shapes s = elim (Bool-cases (matches bic_like norm)) [
    | inl b ↦
        let (d, lt, check, e) = correct_bic_like_lem raw norm context known b in
        (_, rw (s, b) e, bic d s b check lt)
    | inr b ↦ elim (Bool-cases (matches container_shaped norm)) [
      | inl c ↦
          let (d, lt, check, e) = correct_container_shaped_lem raw norm context known policy c in
          (_, rw (s, b, c) e, pseudo_prefix d s b c check lt)
      | inr c ↦ route_uic s b c
    ]
  ]

  pub route-Routed : Routes
  route-Routed = elim (Bool-cases (is_size_type context)) [
    | inl s ↦ (size_type_result raw norm, unfold route in rw s, size_type_field s)
    | inr s ↦ route_shapes s
  ]
