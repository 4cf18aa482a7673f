-- ===== src/Kernel/Normalize/Laws.antt =====
-- Laws of `normalize`.
use checkdigit.Common.{
  if◌then◌else◌, ◌&&◌, ◌+◌, suc, ℕ, ◌≡◌, ◌⊎◌, ◌-◌, refl, ap, true, false, [], ◌∷◌, arith, Str, All,
  is_space, Bool-cases, inl, ◌≤◌, inr, ◌∙◌, All-append, leb, length, ◌≢◌, ◌<◌, All-imp,
  length-append,
}
use checkdigit.Kernel.Normalize.{upper_char, wide_upper, upper, strip_separators, normalize}
use checkdigit.Kernel.Normalize.Closed.{
  is_separator, IsPlain, wide_upper-settled, wide_upper-filled,
}
use checkdigit.Kernel.Types.{is_alnum}

pub is_alnum-IsPlain : (c : ℕ) → is_alnum c ≡ true → IsPlain c
unfolding is_space upper_char
is_alnum-IsPlain c h = (ground arith, ground arith)

pub strip_separators-IsPlain : (s : Str) → All IsPlain s → strip_separators s ≡ s
unfolding strip_separators
strip_separators-IsPlain [] h = refl
strip_separators-IsPlain (c ∷ s) ((h, _), hs) = rw h (ap (◌∷◌ c) (strip_separators-IsPlain s hs))

pub upper-IsPlain : (s : Str) → All IsPlain s → upper s ≡ s
unfolding upper
upper-IsPlain [] h = refl
upper-IsPlain (c ∷ s) ((_, h), hs) = rw h (ap (◌∷◌ c) (upper-IsPlain s hs))

pub normalize-IsPlain : (s : Str) → All IsPlain s → normalize s ≡ s
unfolding normalize
normalize-IsPlain s h = rw (strip_separators-IsPlain s h) (upper-IsPlain s h)

IsPlain-case : (c : ℕ) → is_separator c ≡ false → upper_char c ≡ c ∷ [] → All IsPlain (c ∷ [])
IsPlain-case c h e = ((h, e), tt)

capital-IsPlain : (c : ℕ) → (0x41 ≤ c) × (c ≤ 0x5a) → IsPlain c
unfolding is_space upper_char
capital-IsPlain c h = (ground arith, ground arith)

module _ (c : ℕ) where
  wide_char-IsPlain :
      is_separator c ≡ false → upper_char c ≡ wide_upper c → All IsPlain (wide_upper c)
  wide_char-IsPlain h e = elim (wide_upper-settled c) [
    | inl same ↦ rw same ((h, e ∙ same), tt)
    | inr plain ↦ plain
  ]

  -- The branches of `upper_char`
  upper_char-cases :
      (upper_char c ≡ c ∷ [])
      ⊎ ((upper_char c ≡ (c - 32) ∷ []) × ((0x41 ≤ c - 32) × (c - 32 ≤ 0x5a)))
      ⊎ (upper_char c ≡ wide_upper c)
  unfolding upper_char
  upper_char-cases = ground arith

  -- No character that is kept becomes a separator, or anything that upper-casing changes again.
  pub upper_char-IsPlain : is_separator c ≡ false → All IsPlain (upper_char c)
  upper_char-IsPlain h = elim upper_char-cases [
    | inl same ↦ rw same (IsPlain-case c h same)
    | inr (inl (capital, range)) ↦ rw capital (capital-IsPlain (c - 32) range, tt)
    | inr (inr wide) ↦ rw wide (wide_char-IsPlain h wide)
  ]

pub normalize-All-IsPlain : (s : Str) → All IsPlain (normalize s)
unfolding normalize upper strip_separators
normalize-All-IsPlain [] = tt
normalize-All-IsPlain (c ∷ s) = elim (Bool-cases (is_separator c)) [
  | inl gone ↦ rw gone (normalize-All-IsPlain s)
  | inr kept ↦ rw kept (
      All-append IsPlain (upper_char c) (normalize s) (upper_char-IsPlain c kept)
        (normalize-All-IsPlain s))
]

-- The separators of a text, counted
abbrev pub separators : Str → ℕ
separators [] = 0
separators (c ∷ s) = if is_separator c then suc (separators s) else separators s

-- Neither a space nor a hyphen nor a small letter of ASCII
abbrev pub IsClean : ℕ → Type 0
IsClean c = (is_space c ≡ false) × (c ≢ b'-') × ((c < b'a') ⊎ (b'z' < c))

plain-IsClean : (c : ℕ) → IsPlain c → IsClean c
unfolding upper_char
plain-IsClean c (kept, same) =
    (ground arith, ground arith, small (Bool-cases (leb b'a' c && leb c b'z')))
  where
    small :
        ((leb b'a' c && leb c b'z') ≡ true) ⊎ ((leb b'a' c && leb c b'z') ≡ false)
        → (c < b'a') ⊎ (b'z' < c)
    small (inl is_small) =
        let bad : (c - 32) ∷ [] ≡ c ∷ [] = rw is_small at same in
        let less : c - 32 ≡ c = cc in absurd (ground arith)
    small (inr other) = ground arith

upper_char-filled : (c : ℕ) → 1 ≤ length (upper_char c)
unfolding upper_char
upper_char-filled c = ground (arith, wide_upper-filled c)

length-normalize : (s : Str) → length s ≤ length (normalize s) + separators s
unfolding normalize upper strip_separators
length-normalize [] = omega arith
length-normalize (c ∷ s) = elim (Bool-cases (is_separator c)) [
  | inl gone ↦ rw gone (omega (arith, length-normalize s))
  | inr kept ↦ rw kept (
      omega (
        arith,
        length-normalize s,
        upper_char-filled c,
        length-append (upper_char c) (normalize s),
      ))
]

-- A normalised token holds no space, no hyphen and no small ASCII letter, normalising it again
-- changes nothing, and it is shorter than the token by no more than the token's spaces and hyphens.
pub normalize-IsNormal :
    (s : Str)
    → All IsClean (normalize s)
      × (normalize (normalize s) ≡ normalize s)
      × (length s ≤ length (normalize s) + separators s)
normalize-IsNormal s = (
  All-imp IsPlain IsClean (normalize s) plain-IsClean (normalize-All-IsPlain s),
  normalize-IsPlain (normalize s) (normalize-All-IsPlain s),
  length-normalize s,
)
