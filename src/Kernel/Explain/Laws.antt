-- ===== src/Kernel/Explain/Laws.antt =====
-- `explain` beside the two check-digit functions.
use checkdigit.Common.{
  All-take, ℕ, zero, suc, ◌+◌, ◌-◌, ◌*◌, ◌%◌, ◌^◌, ◌≡◌, refl, sym, ap, Bool, true, false, ◌&&◌,
  ◌||◌, inl, inr, List, [], ◌∷◌, ◌++◌, ◌==◌, ◌⊎◌, if◌then◌else◌, length, take, length-take,
  length-matches, reverse, arith, Str, is_empty, matches, ok, >>=-eq-ok, ok_injective, All,
  Bool-cases,
}
use checkdigit.Kernel.Decide.{digit_str}
use checkdigit.Kernel.Digits.{
  digit_value, iso6346_value, iso6346_total, iso6346_check_digit, all_digits_of, all_ascii_digits,
  luhn_product, uic_total, uic_check_digit,
}
use checkdigit.Kernel.Digits.Iso6346.{weigh, iso6346_total-total}
use checkdigit.Kernel.Explain.{
  UicStep, IsoStep, IsoWork, Explanation, empty_input, wrong_shape, uic_work, iso_work, uic_steps,
  iso_steps, explain_uic, explain_iso, iso_work_of, bic_unchecked, explain,
}
use checkdigit.Kernel.Normalize.{normalize}
use checkdigit.Kernel.Router.Shapes.{matches-All, bic_body, bic_body_alnum, bic_split}
use checkdigit.Kernel.Types.{bic_like, is_alnum}

-- The products that the steps show, added up
abbrev pub iso_products : List IsoStep → ℕ
iso_products [] = 0
iso_products (step ∷ steps) = step.product + iso_products steps

abbrev pub uic_products : List UicStep → ℕ
uic_products [] = 0
uic_products (step ∷ steps) = step.product + uic_products steps

-- What an explanation says of the normalised token
abbrev pub Agrees : Str → Explanation → Type 0
Agrees norm empty_input = norm ≡ []
Agrees norm wrong_shape = matches bic_like norm ≡ false
Agrees norm (uic_work w) =
    (w.body ≡ take 11 norm)
    × (uic_check_digit w.body ≡ ok w.computed)
    × (uic_products w.steps ≡ w.sum)
    × (w.full ≡ w.body ++ digit_str w.computed)
Agrees norm (iso_work w) =
    (w.body ≡ take 10 norm)
    × (iso6346_check_digit w.body ≡ ok w.computed)
    × (iso_products w.chars ≡ w.sum)
    × (w.full ≡ w.body ++ digit_str w.computed)

iso_products-snoc :
    (steps : List IsoStep) (step : IsoStep)
    → iso_products (steps ++ (step ∷ [])) ≡ iso_products steps + step.product
iso_products-snoc [] step = omega arith
iso_products-snoc (x ∷ steps) step = omega (arith, iso_products-snoc steps step)

uic_products-snoc :
    (steps : List UicStep) (step : UicStep)
    → uic_products (steps ++ (step ∷ [])) ≡ uic_products steps + step.product
uic_products-snoc [] step = omega arith
uic_products-snoc (x ∷ steps) step = omega (arith, uic_products-snoc steps step)

iso_steps-total :
    (s : Str) (i : ℕ) (steps : List IsoStep) (t : ℕ) {x : ℕ}
    → iso6346_total i t s ≡ ok x
    → (ys : List IsoStep) × (iso_steps i steps t s ≡ ok (ys, x))
      × (iso_products ys + t ≡ iso_products steps + x)
unfolding iso6346_total iso_steps
iso_steps-total [] i steps t h =
    let same = ok_injective h in
    (steps, ap (λ (n : ℕ). ok (steps, n)) same, ap (λ (n : ℕ). iso_products steps + n) same)
iso_steps-total (c ∷ s) i steps t h =
    let (v, e, k) = >>=-eq-ok (iso6346_value c) _ h in
    let step : IsoStep = record { char = c; value = v; weight = 2 ^ i; product = v * 2 ^ i } in
    let (ys, f, sums) = iso_steps-total s (i + 1) (steps ++ (step ∷ [])) (t + v * 2 ^ i) k in
    (ys, rw e f, omega (arith, sums, iso_products-snoc steps step))

uic_steps-total :
    (s : Str) (i : ℕ) (steps : List UicStep) (t : ℕ)
    → ((uic_steps i steps t s).1 ≡ uic_total i t s)
      × (uic_products (uic_steps i steps t s).0 + t
          ≡ uic_products steps + (uic_steps i steps t s).1)
unfolding uic_total uic_steps
uic_steps-total [] i steps t = (refl, refl)
uic_steps-total (c ∷ s) i steps t =
    let product = luhn_product i (digit_value c) in
    let step : UicStep = record {
      char = c;
      weight = if i % 2 == 0 then 2 else 1;
      product = product;
    } in
    let (same, sums) = uic_steps-total s (i + 1) (steps ++ (step ∷ [])) (t + product) in
    (same, omega (arith, sums, uic_products-snoc steps step))

all_digits_of-take : (n : ℕ) (s : Str) → all_digits_of s ≡ true → all_digits_of (take n s) ≡ true
unfolding all_digits_of
all_digits_of-take zero s h = refl
all_digits_of-take (suc n) [] h = refl
all_digits_of-take (suc n) (c ∷ s) h = ground (arith, all_digits_of-take n s)

all_ascii_digits-take :
    (n : ℕ) (s : Str) → all_ascii_digits s ≡ true → all_ascii_digits (take (suc n) s) ≡ true
unfolding all_ascii_digits
all_ascii_digits-take n [] h = h
all_ascii_digits-take n (c ∷ s) h = all_digits_of-take (suc n) (c ∷ s) h

explain_uic-Agrees :
    (norm : Str)
    → all_ascii_digits norm ≡ true
    → ((length norm ≡ 11) ⊎ (length norm ≡ 12))
    → Agrees norm (uic_work (explain_uic norm))
unfolding explain_uic uic_check_digit
explain_uic-Agrees norm digits size =
    let body = take 11 norm in
    let long : length body ≡ 11 = eleven size in
    let ascii : all_ascii_digits body ≡ true = all_ascii_digits-take 10 norm digits in
    let (same, sums) = uic_steps-total (reverse body) 0 [] 0 in
    (
      refl,
      rw (long, ascii) (ap (λ (n : ℕ). ok ((10 - n % 10) % 10)) (sym same)),
      omega (arith, sums),
      refl,
    )
  where
    eleven : ((length norm ≡ 11) ⊎ (length norm ≡ 12)) → length (take 11 norm) ≡ 11
    eleven (inl e) = omega (arith, e, length-take 11 norm)
    eleven (inr e) = omega (arith, e, length-take 11 norm)

-- Ten characters that have values
explain_iso-Agrees :
    (norm : Str)
    → length (take 10 norm) ≡ 10
    → All (λ c. is_alnum c ≡ true) (take 10 norm)
    → (w : IsoWork) × (explain_iso norm ≡ ok w) × Agrees norm (iso_work w)
unfolding explain_iso iso6346_check_digit
explain_iso-Agrees norm long alnum =
    let body = take 10 norm in
    let total = iso6346_total-total body 0 0 alnum in
    let x = 0 + 2 ^ 0 * weigh body in
    let (steps, e, sums) = iso_steps-total body 0 [] 0 total in
    (
      iso_work_of norm (steps, x),
      rw e refl,
      (refl, rw (long, total) refl, omega (arith, sums), refl),
    )

either : (a b : Bool) → (a || b) ≡ true → (a ≡ true) ⊎ (b ≡ true)
either true b h = inl refl
either false b h = inr h

shape-All :
    (norm : Str)
    → ((matches bic_unchecked norm || matches bic_like norm) ≡ true)
    → (length (take 10 norm) ≡ 10) × All (λ c. is_alnum c ≡ true) (take 10 norm)
shape-All norm h = elim (either (matches bic_unchecked norm) (matches bic_like norm) h) [
  | inl short ↦ (
    omega (arith, length-take 10 norm, length-matches bic_unchecked norm short),
    All-take (λ c. is_alnum c ≡ true) 10 norm (matches-All bic_unchecked norm bic_body_alnum short),
  )
  | inr full ↦
      let (_, _, _, shape) = bic_split norm full in
      (
        length-matches bic_body (take 10 norm) shape,
        matches-All bic_body (take 10 norm) bic_body_alnum shape,
      )
]

-- `explain` never raises, and what it shows is the work of the kernel: its computed digit is that of
-- uic_check_digit or iso6346_check_digit for the body, and its sum is that of its products.
pub explain-Agrees :
    (token : Str) → (e : Explanation) × (explain token ≡ ok e) × Agrees (normalize token) e
unfolding explain
explain-Agrees token =
    let norm = normalize token in
    elim (Bool-cases (is_empty norm)) [
      | inl empty ↦ (empty_input, rw empty refl, nothing norm empty)
      | inr some_text ↦
          elim (Bool-cases (all_ascii_digits norm && (length norm == 11 || length norm == 12))) [
            | inl digits ↦ (
              uic_work (explain_uic norm),
              rw (some_text, digits) refl,
              explain_uic-Agrees norm (ground arith) (size norm (ground arith)),
            )
            | inr other ↦ elim (Bool-cases (matches bic_unchecked norm || matches bic_like norm)) [
              | inl shape ↦
                  let (long, alnum) = shape-All norm shape in
                  let (w, e, agrees) = explain_iso-Agrees norm long alnum in
                  (iso_work w, rw (some_text, other, shape, e) refl, agrees)
              | inr none_of_these ↦
                  (wrong_shape, rw (some_text, other, none_of_these) refl, ground arith)
            ]
          ]
    ]
  where
    nothing : (s : Str) → is_empty s ≡ true → s ≡ []
    nothing [] h = refl
    nothing (c ∷ s) h = absurd (cc)

    size : (s : Str) → (length s == 11 || length s == 12) ≡ true → (length s ≡ 11) ⊎ (length s ≡ 12)
    size s h = elim (either (length s == 11) (length s == 12) h) [
      | inl e ↦ inl (ground arith)
      | inr e ↦ inr (ground arith)
    ]
