-- ===== src/Tests/Splicing.antt =====
-- `apply_edits`, `changed_indices` and `utf16_index` at concrete texts.
use checkdigit.Common.{
  ℕ, ◌≡◌, inl, inr, refl, List, [], ◌∷◌, arith, Str, codes, ok, err, overlapping_edit,
  verification_failed, All, EachPair, get_elem?, length, str_eq, ◌+◌, take,
}
use checkdigit.Substitution.{
  Edit, apply_edits, sort_edits, sort_into, insert_edit, splice, utf16_index, utf16_length,
}
use checkdigit.Substitution.Keeps.{apply_edits-Written, apply_edits-Outside, KeepsLength, Written}
use checkdigit.Substitution.Offsets.{supplementary, utf16_index_exact}
use checkdigit.Substitution.Order.{Apart}
use checkdigit.Substitution.Spliced.{Spliced, StartsIn}
use checkdigit.Substitution.Total.{
  apply_edits-total, apply_edits_sound, apply_edits_complete, Verified,
}

abbrev alphabet : Str
alphabet = codes "ABCDEFGHIJ"

abbrev second_edit : Edit
second_edit = record { start = 5; old = codes "FG"; new = codes "fg" }

abbrev first_edit : Edit
first_edit = record { start = 1; old = codes "BC"; new = codes "bc" }

abbrev two_edits : List Edit
two_edits = second_edit ∷ first_edit ∷ []

abbrev spliced : Str
spliced = codes "AbcDEfgHIJ"

two_edits_run : apply_edits alphabet two_edits ≡ ok spliced
unfolding apply_edits sort_into insert_edit splice str_eq
two_edits_run = refl

wrong_offset :
    apply_edits alphabet (record { start = 2; old = codes "BC"; new = [] } ∷ [])
    ≡ err (verification_failed 2 (codes "BC") (codes "CD"))
unfolding apply_edits sort_into insert_edit splice str_eq
wrong_offset = refl

overlapping : apply_edits alphabet (first_edit ∷ first_edit ∷ []) ≡ err (overlapping_edit 1 3)
unfolding apply_edits sort_into insert_edit splice str_eq
overlapping = refl

-- An insertion far behind the end of the text passes the verification and is appended.
insertion_past_end :
    apply_edits (codes "AB") (record { start = 7; old = []; new = codes "X" } ∷ [])
    ≡ ok (codes "ABX")
unfolding apply_edits sort_into insert_edit splice str_eq
insertion_past_end = refl

two_start_inside : All (StartsIn alphabet) two_edits
two_start_inside = (omega arith, (omega arith, tt))

two_keep_length : All KeepsLength two_edits
two_keep_length = (refl, (refl, tt))

two-Verified : All (Verified alphabet) two_edits
two-Verified = ((refl, omega arith), ((refl, omega arith), tt))

two-Apart : EachPair Apart two_edits
two-Apart = ((inr (omega arith), tt), (tt, tt))

two_spliced : Spliced 0 alphabet (sort_edits two_edits) spliced
two_spliced = apply_edits_sound alphabet two_edits two_start_inside two_edits_run

apply_edits-total_example : (out : Str) × (apply_edits alphabet two_edits ≡ ok out)
apply_edits-total_example = apply_edits-total alphabet two_edits two-Verified two-Apart

apply_edits_sound_example : Spliced 0 alphabet (sort_edits two_edits) spliced
apply_edits_sound_example = apply_edits_sound alphabet two_edits two_start_inside two_edits_run

apply_edits_complete_example : apply_edits alphabet two_edits ≡ ok spliced
apply_edits_complete_example = apply_edits_complete alphabet two_edits two_spliced

apply_edits-Written_example :
    (length spliced ≡ length alphabet) × All (Written 0 spliced) (sort_edits two_edits)
apply_edits-Written_example =
    apply_edits-Written alphabet two_edits two_start_inside two_keep_length two_edits_run

apply_edits-Outside_example : get_elem? spliced 3 ≡ get_elem? alphabet 3
apply_edits-Outside_example =
    apply_edits-Outside alphabet two_edits two_start_inside two_keep_length two_edits_run 3
      (inl (omega arith), (inr (omega arith), tt))

-- A character outside the Basic Multilingual Plane between two inside it
abbrev with_emoji : Str
with_emoji = b'A' ∷ 0x1f6a2 ∷ b'B' ∷ []

emoji_index : utf16_index with_emoji 2 ≡ ok 3
unfolding utf16_index utf16_length
emoji_index = refl

basic_index : utf16_index with_emoji 1 ≡ ok 1
unfolding utf16_index utf16_length
basic_index = refl

utf16_index_exact_example : utf16_index with_emoji 2 ≡ ok (2 + supplementary (take 2 with_emoji))
utf16_index_exact_example = utf16_index_exact with_emoji 2 (omega arith)

abbrev one : ℕ
one = 1
