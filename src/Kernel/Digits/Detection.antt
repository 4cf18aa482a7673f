-- ===== src/Kernel/Digits/Detection.antt =====
-- What the ISO 6346 check digit catches.
use checkdigit.Common.{ℕ, ◌%◌, ◌≡◌, ◌≢◌, [], ◌∷◌, ◌++◌, arith, Str, ok, ◌∙◌}
use checkdigit.Kernel.Digits.{iso6346_value, iso6346_check_digit, ten_to_zero}
use checkdigit.Kernel.Digits.Iso6346.{value, weigh, iso6346_check_digit-weigh}

weigh-substitution :
    (pre post : Str) (a b : ℕ)
    → weigh (pre ++ a ∷ post) % 11 ≡ weigh (pre ++ b ∷ post) % 11
    → value a % 11 ≡ value b % 11
weigh-substitution [] post a b h = omega arith
weigh-substitution (c ∷ pre) post a b h = weigh-substitution pre post a b (omega arith)

weigh-transposition :
    (pre post : Str) (a b : ℕ)
    → weigh (pre ++ a ∷ b ∷ post) % 11 ≡ weigh (pre ++ b ∷ a ∷ post) % 11
    → value a % 11 ≡ value b % 11
weigh-transposition [] post a b h = omega arith
weigh-transposition (c ∷ pre) post a b h = weigh-transposition pre post a b (omega arith)

ten_to_zero_injective :
    (x y c : ℕ) → c ≡ ten_to_zero (x % 11) → c ≡ ten_to_zero (y % 11) → x % 11 ≢ y % 11 → c ≡ 0
ten_to_zero_injective x y c p q h = ground arith

module _ {v w : ℕ} (a b : ℕ) (va : iso6346_value a ≡ ok v) (wb : iso6346_value b ≡ ok w)
    (differ : v % 11 ≢ w % 11) where
  values_differ : value a % 11 ≢ value b % 11
  values_differ = rw (va, wb) differ

  -- If one character of a body is replaced by one whose value differs modulo 11, the check digit
  -- changes unless it is 0: a substitution is caught everywhere but between the remainders 0 and
  -- 10, which share the digit 0.
  pub iso6346_check_digit-substitution :
      (pre post : Str) {c d : ℕ}
      → iso6346_check_digit (pre ++ a ∷ post) ≡ ok c
      → iso6346_check_digit (pre ++ b ∷ post) ≡ ok d
      → c ≢ 0
      → c ≢ d
  iso6346_check_digit-substitution pre post {c} h k nonzero same =
      let (_, p) = iso6346_check_digit-weigh (pre ++ a ∷ post) h in
      let (_, q) = iso6346_check_digit-weigh (pre ++ b ∷ post) k in
      nonzero (
        ten_to_zero_injective (weigh (pre ++ a ∷ post)) (weigh (pre ++ b ∷ post)) c p (same ∙ q)
          (λ e. values_differ (weigh-substitution pre post a b e)))

  -- If two neighbours whose values differ modulo 11 change places in a body, the check digit
  -- changes unless it is 0.
  pub iso6346_check_digit-transposition :
      (pre post : Str) {c d : ℕ}
      → iso6346_check_digit (pre ++ a ∷ b ∷ post) ≡ ok c
      → iso6346_check_digit (pre ++ b ∷ a ∷ post) ≡ ok d
      → c ≢ 0
      → c ≢ d
  iso6346_check_digit-transposition pre post {c} h k nonzero same =
      let (_, p) = iso6346_check_digit-weigh (pre ++ a ∷ b ∷ post) h in
      let (_, q) = iso6346_check_digit-weigh (pre ++ b ∷ a ∷ post) k in
      nonzero (
        ten_to_zero_injective (weigh (pre ++ a ∷ b ∷ post)) (weigh (pre ++ b ∷ a ∷ post)) c p
          (same ∙ q) (λ e. values_differ (weigh-transposition pre post a b e)))
