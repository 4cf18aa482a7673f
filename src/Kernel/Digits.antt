-- ===== src/Kernel/Digits.antt =====
-- Part 1 of checkdigit/equipment_checkdigit.py: the two check-digit algorithms.
pub mod Iso6346
pub mod Detection
pub mod Luhn
use checkdigit.Common.{
  ℕ, ◌+◌, ◌-◌, ◌*◌, ◌/◌, ◌%◌, ◌^◌, Bool, ◌&&◌, List, [], ◌∷◌, reverse, Option, none, some, leb,
  ◌==◌, if◌then◌else◌, length, Str, codes, is_digit, bad_character, bad_body_length, bad_uic_body,
  Result, ok, err, ◌>>=◌, not, ◌||◌, true, false,
}

-- `zip(letters, values)`, read as a dictionary.
lookup_letter : Str → List ℕ → ℕ → Option ℕ
lookup_letter (k ∷ ks) (v ∷ vs) ch = if k == ch then some v else lookup_letter ks vs ch
lookup_letter _ _ ch = none

abbrev letters : Str
letters = codes "ABCDEFGHIJKLMNOPQRSTUVWXYZ"

abbrev letter_values : List ℕ
letter_values =
    10 ∷ 12 ∷ 13 ∷ 14 ∷ 15 ∷ 16 ∷ 17 ∷ 18 ∷ 19 ∷ 20 ∷ 21 ∷ 23 ∷ 24 ∷ 25 ∷ 26 ∷ 27 ∷ 28 ∷ 29 ∷ 30
    ∷ 31 ∷ 32 ∷ 34 ∷ 35 ∷ 36 ∷ 37 ∷ 38 ∷ []

-- `int(ch)` of an ASCII digit
abbrev pub digit_value : ℕ → ℕ
digit_value ch = ch - b'0'

value_or_raise : ℕ → Option ℕ → Result ℕ
value_or_raise ch (some v) = ok v
value_or_raise ch none = err (bad_character ch)

unfoldable pub iso6346_value : ℕ → Result ℕ
unfolding lookup_letter value_or_raise
iso6346_value ch =
    if is_digit ch
    then ok (digit_value ch)
    else value_or_raise ch (lookup_letter letters letter_values ch)

-- The loop: `total += iso6346_value(ch) * (1 << i)`.
unfoldable pub iso6346_total : ℕ → ℕ → Str → Result ℕ
iso6346_total i total [] = ok total
iso6346_total i total (ch ∷ rest) = do
  v ← iso6346_value ch
  iso6346_total (i + 1) (total + v * 2 ^ i) rest

-- `0 if remainder == 10 else remainder`
abbrev pub ten_to_zero : ℕ → ℕ
ten_to_zero remainder = if remainder == 10 then 0 else remainder

unfoldable pub iso6346_check_digit : Str → Result ℕ
iso6346_check_digit body10 =
    let checked = (do total ← iso6346_total 0 0 body10; ok (ten_to_zero (total % 11))) in
    if length body10 == 10 then checked else err (bad_body_length (length body10))

-- `_all_ascii_digits`
unfoldable pub all_digits_of : Str → Bool
all_digits_of [] = true
all_digits_of (c ∷ cs) = is_digit c && all_digits_of cs

unfoldable pub all_ascii_digits : Str → Bool
unfolding all_digits_of
all_ascii_digits [] = false
all_ascii_digits (c ∷ cs) = all_digits_of (c ∷ cs)

-- One factor of the Luhn sum: `digit * weight`, digit-summed from 10 on.
abbrev pub luhn_product : ℕ → ℕ → ℕ
luhn_product i digit =
    let product = digit * (if i % 2 == 0 then 2 else 1) in
    if leb 10 product then product / 10 + product % 10 else product

-- The loop over `enumerate(reversed(body11))`.
unfoldable pub uic_total : ℕ → ℕ → Str → ℕ
uic_total i total [] = total
uic_total i total (ch ∷ rest) = uic_total (i + 1) (total + luhn_product i (digit_value ch)) rest

unfoldable pub uic_check_digit : Str → Result ℕ
uic_check_digit body11 =
    if not (length body11 == 11) || not (all_ascii_digits body11)
    then err (bad_uic_body body11)
    else ok ((10 - uic_total 0 0 (reverse body11) % 10) % 10)
