-- ===== src/Kernel/Normalize/Closed.antt =====
-- The upper cases of the tables are their own upper cases.
use mathlib.Core.Path.{subst}
use checkdigit.Common.{
  ℕ, ◌+◌, ◌-◌, ◌*◌, ◌/◌, ◌≡◌, refl, Bool, true, false, ◌||◌, ◌&&◌, not, [], ◌∷◌, arith, ◌==◌, Str,
  All, is_space, all, all_lem, str_eq, str_eq_iff, holds_below, holds_below_lem, Bool-cases, List,
  ◌⊎◌, inl, inr, ◌≤◌, &&-true, Option, none, some, leb, ◌%◌, sym, ap, ◌∙◌, All-imp, ◌<◌, length,
}
use checkdigit.Kernel.Normalize.{upper_char, wide_upper, special_in, shifted_in, alternate_in}
use checkdigit.Kernel.Normalize.Casing.{shifted, alternating, special}

-- What `normalize` takes out
abbrev pub is_separator : ℕ → Bool
is_separator c = is_space c || c == b'-'

-- A character that `normalize` keeps as it is
abbrev pub IsPlain : ℕ → Type 0
IsPlain c = (is_separator c ≡ false) × (upper_char c ≡ c ∷ [])

-- The test of `IsPlain`
abbrev is_plain : ℕ → Bool
is_plain c = not (is_separator c) && str_eq (upper_char c) (c ∷ [])

is_plain-IsPlain : (c : ℕ) → is_plain c ≡ true → IsPlain c
is_plain-IsPlain c h =
    let (kept, same) = &&-true (not (is_separator c)) (str_eq (upper_char c) (c ∷ [])) h in
    (ground arith, (str_eq_iff (upper_char c) (c ∷ [])).0 same)

is_closed_run : ℕ × ℕ × ℕ → Bool
is_closed_run (first, last, capital) = holds_below (λ k. is_plain (capital + k)) (last - first + 1)

is_closed_alternation : ℕ × ℕ → Bool
is_closed_alternation (first, last) =
    holds_below (λ k. is_plain (first + 2 * k - 1)) ((last - first) / 2 + 1)

shifted-closed : all is_closed_run shifted ≡ true
unfolding is_closed_run all holds_below is_space upper_char wide_upper special_in shifted_in
    alternate_in str_eq
shifted-closed = refl

alternating-closed : all is_closed_alternation alternating ≡ true
unfolding is_closed_alternation all holds_below is_space upper_char wide_upper special_in shifted_in
    alternate_in str_eq
alternating-closed = refl

special-closed : all (λ (entry : ℕ × Str). all is_plain entry.1) special ≡ true
unfolding all holds_below is_space upper_char wide_upper special_in shifted_in alternate_in str_eq
special-closed = refl

-- No upper case is empty.
special-filled : all (λ (entry : ℕ × Str). leb 1 (length entry.1)) special ≡ true
unfolding all
special-filled = refl

module _ (c : ℕ) where
  alternate_in-cases :
      (runs : List (ℕ × ℕ))
      → All (λ run. is_closed_alternation run ≡ true) runs
      → (alternate_in runs c ≡ c) ⊎ (is_plain (alternate_in runs c) ≡ true)
  unfolding alternate_in is_closed_alternation
  alternate_in-cases [] h = inl refl
  alternate_in-cases ((first, last) ∷ runs) (h, hs) =
      elim (Bool-cases (leb first c && leb c last && (c - first) % 2 == 0)) [
        | inl hit ↦
            let k = (c - first) / 2 in
            let from : first ≤ c = ground arith in
            let to : c ≤ last = ground arith in
            let even : (c - first) % 2 ≡ 0 = ground arith in
            let below : k < (last - first) / 2 + 1 = omega arith in
            let same : first + 2 * k - 1 ≡ c - 1 = omega arith in
            rw hit (
              inr (
                ap is_plain (sym same)
                ∙ holds_below_lem (λ k. is_plain (first + 2 * k - 1)) ((last - first) / 2 + 1) below
                    h))
        | inr miss ↦ rw miss (alternate_in-cases runs hs)
      ]

  shifted_in-cases :
      (runs : List (ℕ × ℕ × ℕ))
      → All (λ run. is_closed_run run ≡ true) runs
      → (shifted_in runs c ≡ c) ⊎ (is_plain (shifted_in runs c) ≡ true)
  unfolding shifted_in is_closed_run
  shifted_in-cases [] h =
      alternate_in-cases alternating (all_lem is_closed_alternation alternating alternating-closed)
  shifted_in-cases ((first, last, capital) ∷ runs) (h, hs) =
      elim (Bool-cases (leb first c && leb c last)) [
        | inl hit ↦
            let below : c - first < last - first + 1 = ground arith in
            rw hit (inr (holds_below_lem (λ k. is_plain (capital + k)) (last - first + 1) below h))
        | inr miss ↦ rw miss (shifted_in-cases runs hs)
      ]

  special_in-all :
      (test : Str → Bool) (table : List (ℕ × Str)) {s : Str}
      → All (λ (entry : ℕ × Str). test entry.1 ≡ true) table
      → special_in table c ≡ some s
      → test s ≡ true
  unfolding special_in
  special_in-all test [] h e = absurd (cc)
  special_in-all test ((k, t) ∷ table) {s} (h, hs) e = elim (Bool-cases (k == c)) [
    | inl hit ↦ let found = rw hit at e in let is : t ≡ s = cc in subst (λ x. test x ≡ true) is h
    | inr miss ↦ special_in-all test table hs (rw miss at e)
  ]

  all-IsPlain : (s : Str) → all is_plain s ≡ true → All IsPlain s
  all-IsPlain s h =
      All-imp (λ x. is_plain x ≡ true) IsPlain s is_plain-IsPlain (all_lem is_plain s h)

  wide_upper-cases :
      (found : Option Str)
      → special_in special c ≡ found
      → (wide_upper c ≡ c ∷ []) ⊎ All IsPlain (wide_upper c)
  unfolding wide_upper
  wide_upper-cases (some s) e = rw e (
      inr (
        all-IsPlain s (
          special_in-all (all is_plain) special
            (all_lem (λ (entry : ℕ × Str). all is_plain entry.1) special special-closed) e)))
  wide_upper-cases none e =
      elim (shifted_in-cases shifted (all_lem is_closed_run shifted shifted-closed)) [
        | inl same ↦ rw (e, same) (inl refl)
        | inr plain ↦ rw e (inr (is_plain-IsPlain _ plain, tt))
      ]

  -- A character is its own upper case, or its upper case is plain.
  pub wide_upper-settled : (wide_upper c ≡ c ∷ []) ⊎ All IsPlain (wide_upper c)
  wide_upper-settled = wide_upper-cases (special_in special c) refl

  filled : (found : Option Str) → special_in special c ≡ found → 1 ≤ length (wide_upper c)
  unfolding wide_upper
  filled none e = rw e (omega arith)
  filled (some s) e =
      let long : leb 1 (length s) ≡ true =
        special_in-all (λ x. leb 1 (length x)) special
          (all_lem (λ (entry : ℕ × Str). leb 1 (length entry.1)) special special-filled) e in
      rw e (ground arith)

  pub wide_upper-filled : 1 ≤ length (wide_upper c)
  wide_upper-filled = filled (special_in special c) refl
