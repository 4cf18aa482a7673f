-- ===== src/Kernel/Digits/Iso6346.antt =====
-- The ISO 6346 sum as a number in base 2.
use native.Mathlib.Nat.{pow-suc}
use native.Mathlib.Numerals.{add-one}
use checkdigit.Common.{
  ℕ, ◌+◌, ◌*◌, ◌%◌, ◌^◌, ◌<◌, inl, inr, ◌≡◌, refl, ap, ◌∙◌, Bool, true, false, ◌||◌, not, [], ◌∷◌,
  arith, length, Str, Result, ok, err, >>=-eq-ok, All, Bool-cases, ==_iff, ◌==◌, holds_below,
  holds_below_lem, is_digit, is_upper,
}
use checkdigit.Kernel.Digits.{iso6346_value, iso6346_total, iso6346_check_digit, ten_to_zero}

abbrev is_ok {ℓ} : {A : Type ℓ} → Result A → Bool
is_ok (ok _) = true
is_ok (err _) = false

-- The value of a character, with 0 where the code raises.
abbrev pub value_or_zero : Result ℕ → ℕ
value_or_zero (ok v) = v
value_or_zero (err _) = 0

abbrev pub value : ℕ → ℕ
value ch = value_or_zero (iso6346_value ch)

-- The sum of `value * 2 ** position`.
abbrev pub weigh : Str → ℕ
weigh [] = 0
weigh (ch ∷ rest) = value ch + 2 * weigh rest

abbrev alnum_has_value : ℕ → Bool
alnum_has_value c = not (is_upper c || is_digit c) || is_ok (iso6346_value c)

values_table : holds_below alnum_has_value 128 ≡ true
unfolding holds_below iso6346_value
values_table = refl

is_ok-eq : (r : Result ℕ) → is_ok r ≡ true → r ≡ ok (value_or_zero r)
is_ok-eq (ok v) h = refl
is_ok-eq (err e) h = cc

-- Every capital and every digit has a value.
pub iso6346_value-total :
    (c : ℕ) → (is_upper c || is_digit c) ≡ true → iso6346_value c ≡ ok (value c)
iso6346_value-total c h =
    let ascii : c < 128 = ground arith in
    let tested : alnum_has_value c ≡ true =
      holds_below_lem alnum_has_value 128 ascii values_table in
    is_ok-eq (iso6346_value c) (ground arith)

shift : (i t v w : ℕ) → t + v * 2 ^ i + 2 ^ (i + 1) * w ≡ t + 2 ^ i * (v + 2 * w)
shift i t v w = rw (add-one, pow-suc) (omega arith)

-- Where the loop returns, it has added the base-2 number.
pub iso6346_total-weigh :
    (s : Str) (i t : ℕ) {x : ℕ} → iso6346_total i t s ≡ ok x → x ≡ t + 2 ^ i * weigh s
unfolding iso6346_total
iso6346_total-weigh [] i t h = ground arith
iso6346_total-weigh (c ∷ s) i t h =
    let (v, has_value, later) = >>=-eq-ok (iso6346_value c) _ h in
    iso6346_total-weigh s (i + 1) (t + v * 2 ^ i) later ∙ rw has_value (shift i t v (weigh s))

pub iso6346_total-total :
    (s : Str) (i t : ℕ)
    → All (λ c. (is_upper c || is_digit c) ≡ true) s
    → iso6346_total i t s ≡ ok (t + 2 ^ i * weigh s)
unfolding iso6346_total
iso6346_total-total [] i t h = ap ok (omega arith)
iso6346_total-total (c ∷ s) i t (hc, hs) =
    rw (iso6346_value-total c hc) (
      iso6346_total-total s (i + 1) (t + value c * 2 ^ i) hs
      ∙ ap ok (shift i t (value c) (weigh s)))

-- The check digit is the base-2 number modulo 11, with 10 printed as 0.
pub iso6346_check_digit-weigh :
    (body : Str) {c : ℕ}
    → iso6346_check_digit body ≡ ok c
    → (length body ≡ 10) × (c ≡ ten_to_zero (weigh body % 11))
unfolding iso6346_check_digit
iso6346_check_digit-weigh body {c} h = elim (Bool-cases (length body == 10)) [
  | inl long ↦
      let h' = rw long at h in
      let (total, sums, out) = >>=-eq-ok (iso6346_total 0 0 body) _ h' in
      ((==_iff _ _).0 long, ground (arith, iso6346_total-weigh body 0 0 sums))
  | inr short ↦ absurd (ground arith)
]

-- Ten capitals and digits always have a check digit.
pub iso6346_check_digit-total :
    (body : Str)
    → length body ≡ 10
    → All (λ c. (is_upper c || is_digit c) ≡ true) body
    → iso6346_check_digit body ≡ ok (ten_to_zero (weigh body % 11))
unfolding iso6346_check_digit
iso6346_check_digit-total body long h =
    rw (iso6346_total-total body 0 0 h) (ground (arith, iso6346_total-total body 0 0 h))

pub iso6346_check_digit_lt : (body : Str) {c : ℕ} → iso6346_check_digit body ≡ ok c → c < 10
iso6346_check_digit_lt body h = ground (arith, iso6346_check_digit-weigh body h)
