-- ===== src/Kernel/Digits/Luhn.antt =====
-- What the UIC check digit catches, and its range.
use mathlib.Core.List.{reverse-append, reverse-cons}
use checkdigit.Common.{
  ℕ, ◌+◌, ◌-◌, ◌%◌, ◌≤◌, ◌<◌, ◌≡◌, ◌⊎◌, ◌∙◌, [], ◌∷◌, ◌++◌, reverse, append_assoc, arith, Str, ok,
  true, is_digit, ◌≢◌, ap, sym, inl, inr,
}
use checkdigit.Kernel.Digits.{
  digit_value, luhn_product, uic_total, uic_check_digit, all_digits_of, all_ascii_digits,
}

-- The Luhn sum from position `i` on.
abbrev pub luhn : ℕ → Str → ℕ
luhn i [] = 0
luhn i (c ∷ s) = luhn_product i (digit_value c) + luhn (i + 1) s

pub uic_total-luhn : (s : Str) (i t : ℕ) → uic_total i t s ≡ t + luhn i s
unfolding uic_total
uic_total-luhn [] i t = omega arith
uic_total-luhn (c ∷ s) i t =
    omega (arith, uic_total-luhn s (i + 1) (t + luhn_product i (digit_value c)))

pub all_digits_of-middle :
    (pre post : Str) (a : ℕ) → all_digits_of (pre ++ a ∷ post) ≡ true → is_digit a ≡ true
unfolding all_digits_of
all_digits_of-middle [] post a h = ground arith
all_digits_of-middle (c ∷ pre) post a h = all_digits_of-middle pre post a (ground arith)

all_ascii_digits-all : (s : Str) → all_ascii_digits s ≡ true → all_digits_of s ≡ true
unfolding all_ascii_digits
all_ascii_digits-all [] h = cc
all_ascii_digits-all (c ∷ s) h = h

-- The function returns where the body is eleven digits, and then it returns a digit.
pub uic_check_digit-luhn :
    (body : Str) {c : ℕ}
    → uic_check_digit body ≡ ok c
    → (all_digits_of body ≡ true) × (c ≡ (10 - luhn 0 (reverse body) % 10) % 10)
unfolding uic_check_digit
uic_check_digit-luhn body h =
    (ground (arith, all_ascii_digits-all body), ground (arith, uic_total-luhn (reverse body) 0 0))

product_injective :
    (i a b : ℕ) → a ≤ 9 → b ≤ 9 → luhn_product i a % 10 ≡ luhn_product i b % 10 → a ≡ b
product_injective i a b ha hb h = ground arith

cancel_left : (p x y : ℕ) → (p + x) % 10 ≡ (p + y) % 10 → x % 10 ≡ y % 10
cancel_left p x y h = omega arith

cancel_right : (p x y : ℕ) → (x + p) % 10 ≡ (y + p) % 10 → x % 10 ≡ y % 10
cancel_right p x y h = omega arith

digit_value_injective :
    (a b : ℕ) → is_digit a ≡ true → is_digit b ≡ true → digit_value a ≡ digit_value b → a ≡ b
digit_value_injective a b ha hb h = ground arith

digit_value-le : (a : ℕ) → is_digit a ≡ true → digit_value a ≤ 9
digit_value-le a h = ground arith

-- The pair 0 9 or 9 0
abbrev pub NineZero : ℕ → ℕ → Type 0
NineZero a b = ((a ≡ b'0') × (b ≡ b'9')) ⊎ ((a ≡ b'9') × (b ≡ b'0'))

module _ (a b : ℕ) (ha : is_digit a ≡ true) (hb : is_digit b ≡ true) where
  luhn-substitution :
      (pre post : Str) (i : ℕ)
      → luhn i (pre ++ a ∷ post) % 10 ≡ luhn i (pre ++ b ∷ post) % 10
      → a ≡ b
  luhn-substitution [] post i h = digit_value_injective a b ha hb (
      product_injective i _ _ (digit_value-le a ha) (digit_value-le b hb)
        (cancel_right (luhn (i + 1) post) _ _ h))
  luhn-substitution (c ∷ pre) post i h =
      luhn-substitution pre post (i + 1) (cancel_left (luhn_product i (digit_value c)) _ _ h)

  pair_injective :
      (i x : ℕ)
      → (luhn_product i (digit_value a) + (luhn_product (i + 1) (digit_value b) + x)) % 10
        ≡ (luhn_product i (digit_value b) + (luhn_product (i + 1) (digit_value a) + x)) % 10
      → (a ≡ b) ⊎ NineZero a b
  pair_injective i x h = ground arith

  luhn-transposition :
      (pre post : Str) (i : ℕ)
      → luhn i (pre ++ a ∷ b ∷ post) % 10 ≡ luhn i (pre ++ b ∷ a ∷ post) % 10
      → (a ≡ b) ⊎ NineZero a b
  luhn-transposition [] post i h = pair_injective i (luhn (i + 1 + 1) post) h
  luhn-transposition (c ∷ pre) post i h =
      luhn-transposition pre post (i + 1) (cancel_left (luhn_product i (digit_value c)) _ _ h)

reverse-middle :
    (pre post : Str) (a : ℕ) → reverse (pre ++ a ∷ post) ≡ reverse post ++ a ∷ reverse pre
reverse-middle pre post a = simp (reverse-append, reverse-cons, append_assoc)

reverse-pair :
    (pre post : Str) (a b : ℕ) → reverse (pre ++ a ∷ b ∷ post) ≡ reverse post ++ b ∷ a ∷ reverse pre
reverse-pair pre post a b = simp (reverse-append, reverse-cons, append_assoc)

complement_injective :
    (x y c : ℕ) → c ≡ (10 - x % 10) % 10 → c ≡ (10 - y % 10) % 10 → x % 10 ≡ y % 10
complement_injective x y c p q = omega arith

-- Two bodies with one check digit that differ in one digit at most do not differ.
same_check-substitution :
    (pre post : Str) (a b : ℕ) {c : ℕ}
    → uic_check_digit (pre ++ a ∷ post) ≡ ok c
    → uic_check_digit (pre ++ b ∷ post) ≡ ok c
    → a ≡ b
same_check-substitution pre post a b {c} h k =
    let (digits_a, p) = uic_check_digit-luhn (pre ++ a ∷ post) h in
    let (digits_b, q) = uic_check_digit-luhn (pre ++ b ∷ post) k in
    luhn-substitution a b (all_digits_of-middle pre post a digits_a)
      (all_digits_of-middle pre post b digits_b) (reverse post) (reverse pre) 0
      (complement_injective _ _ c (p ∙ rw reverse-middle) (q ∙ rw reverse-middle))

-- Two neighbouring digits that may change places under one check digit are equal or 0 and 9.
same_check-transposition :
    (pre post : Str) (a b : ℕ) {c : ℕ}
    → uic_check_digit (pre ++ a ∷ b ∷ post) ≡ ok c
    → uic_check_digit (pre ++ b ∷ a ∷ post) ≡ ok c
    → (a ≡ b) ⊎ NineZero a b
same_check-transposition pre post a b {c} h k =
    let (digits_a, p) = uic_check_digit-luhn (pre ++ a ∷ b ∷ post) h in
    let (digits_b, q) = uic_check_digit-luhn (pre ++ b ∷ a ∷ post) k in
    luhn-transposition a b (all_digits_of-middle pre (b ∷ post) a digits_a)
      (all_digits_of-middle pre (a ∷ post) b digits_b) (reverse post) (reverse pre) 0
      (complement_injective _ _ c (q ∙ rw reverse-pair) (p ∙ rw reverse-pair))

-- Two bodies that differ in exactly one digit have different check digits.
pub uic_check_digit-substitution :
    (pre post : Str) (a b : ℕ) {c d : ℕ}
    → a ≢ b
    → uic_check_digit (pre ++ a ∷ post) ≡ ok c
    → uic_check_digit (pre ++ b ∷ post) ≡ ok d
    → c ≢ d
uic_check_digit-substitution pre post a b differ h k e =
    differ (same_check-substitution pre post a b h (k ∙ ap (λ (x : ℕ). ok x) (sym e)))

-- Two neighbouring digits that change places change the check digit, unless they are equal or one
-- is 0 and the other is 9.
pub uic_check_digit-transposition :
    (pre post : Str) (a b : ℕ) {c d : ℕ}
    → a ≢ b
    → ¬ NineZero a b
    → uic_check_digit (pre ++ a ∷ b ∷ post) ≡ ok c
    → uic_check_digit (pre ++ b ∷ a ∷ post) ≡ ok d
    → c ≢ d
uic_check_digit-transposition pre post a b differ free h k e =
    elim (same_check-transposition pre post a b h (k ∙ ap (λ (x : ℕ). ok x) (sym e))) [
      | inl same ↦ differ same
      | inr nine_zero ↦ free nine_zero
    ]

pub uic_check_digit_lt : (body : Str) {c : ℕ} → uic_check_digit body ≡ ok c → c < 10
uic_check_digit_lt body h = omega (arith, (uic_check_digit-luhn body h).1)
