-- ===== src/Tests/Digits.antt =====
-- The check-digit functions at the numbers of the standard.
use checkdigit.Common.{ℕ, ◌≡◌, ◌≢◌, refl, [], arith, codes, ok, err, bad_character, bad_body_length}
use checkdigit.Kernel.Digits.{
  iso6346_value, iso6346_total, iso6346_check_digit, uic_check_digit, uic_total, all_ascii_digits,
}
use checkdigit.Kernel.Digits.Detection.{
  iso6346_check_digit-substitution, iso6346_check_digit-transposition,
}
use checkdigit.Kernel.Digits.Luhn.{uic_check_digit-substitution, uic_check_digit-transposition}

iso_csqu : iso6346_check_digit (codes "CSQU305438") ≡ ok 3
unfolding iso6346_check_digit iso6346_total iso6346_value
iso_csqu = refl

iso_short : iso6346_check_digit (codes "CSQU30543") ≡ err (bad_body_length 9)
unfolding iso6346_check_digit
iso_short = refl

iso_stray : iso6346_check_digit (codes "CSQU30543?") ≡ err (bad_character b'?')
unfolding iso6346_check_digit iso6346_total iso6346_value
iso_stray = refl

-- The remainder 10 and the remainder 0 share the check digit 0.
iso_remainder_zero :
    iso6346_check_digit (codes "CSQU414839") ≡ iso6346_check_digit (codes "CSQU404839")
unfolding iso6346_check_digit iso6346_total iso6346_value
iso_remainder_zero = refl

iso_substituted : iso6346_check_digit (codes "CSQU315438") ≡ ok 2
unfolding iso6346_check_digit iso6346_total iso6346_value
iso_substituted = refl

iso_transposed : iso6346_check_digit (codes "CSQU035438") ≡ ok 7
unfolding iso6346_check_digit iso6346_total iso6346_value
iso_transposed = refl

iso_value_zero : iso6346_value b'0' ≡ ok 0
unfolding iso6346_value
iso_value_zero = refl

iso_value_one : iso6346_value b'1' ≡ ok 1
unfolding iso6346_value
iso_value_one = refl

iso_value_three : iso6346_value b'3' ≡ ok 3
unfolding iso6346_value
iso_value_three = refl

uic_vehicle : uic_check_digit (codes "21812471217") ≡ ok 3
unfolding uic_check_digit all_ascii_digits uic_total
uic_vehicle = refl

uic_substituted : uic_check_digit (codes "21812471227") ≡ ok 2
unfolding uic_check_digit all_ascii_digits uic_total
uic_substituted = refl

uic_transposed : uic_check_digit (codes "21812471271") ≡ ok 0
unfolding uic_check_digit all_ascii_digits uic_total
uic_transposed = refl

abbrev zero_digit : ℕ
zero_digit = 0

abbrev two : ℕ
two = 2

abbrev three : ℕ
three = 3

iso6346_check_digit-substitution_example : three ≢ 2
iso6346_check_digit-substitution_example =
    iso6346_check_digit-substitution b'0' b'1' iso_value_zero iso_value_one (ground arith)
      (codes "CSQU3") (codes "5438") iso_csqu iso_substituted (ground arith)

iso6346_check_digit-transposition_example : three ≢ 7
iso6346_check_digit-transposition_example =
    iso6346_check_digit-transposition b'3' b'0' iso_value_three iso_value_zero (ground arith)
      (codes "CSQU") (codes "5438") iso_csqu iso_transposed (ground arith)

uic_check_digit-substitution_example : three ≢ two
uic_check_digit-substitution_example =
    uic_check_digit-substitution (codes "218124712") (codes "7") b'1' b'2' (ground arith)
      uic_vehicle uic_substituted

uic_check_digit-transposition_example : three ≢ zero_digit
uic_check_digit-transposition_example =
    uic_check_digit-transposition (codes "218124712") [] b'1' b'7' (ground arith) (ground arith)
      uic_vehicle uic_transposed
