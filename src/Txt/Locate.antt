-- ===== src/Txt/Locate.antt =====
-- The scanner of checkdigit/txt_locator.py and its matches.
use checkdigit.Common.{
  ℕ, zero, suc, ◌+◌, ◌≤◌, ◌<◌, ◌≡◌, ◌⊎◌, inl, inr, refl, sym, ap, ◌∙◌, true, List, [], ◌∷◌, arith,
  Str, All, EachPair, take, drop, slice, drop-drop, matches, matches_prefix, matches-take,
  Bool-cases, Any,
}
use checkdigit.Grouped.{Located}
use checkdigit.Kernel.Types.{bic_like}
use checkdigit.Txt.{find_from, find_bic, refs_of, locate_equipment}

-- A match of the scanner: its text stands at its offset, and has the container shape.
abbrev pub IsMatch : Str → ℕ × Str → Type 0
IsMatch text f = (slice text f.0 11 ≡ f.1) × (matches bic_like f.1 ≡ true)

-- One match ends before the other begins.
abbrev pub Before : ℕ × Str → ℕ × Str → Type 0
Before f g = f.0 + 11 ≤ g.0

next_drop : (text : Str) (o c : ℕ) (cs : Str) → c ∷ cs ≡ drop o text → cs ≡ drop (o + 1) text
next_drop text o c cs h = ap (drop 1) h ∙ drop-drop 1 o (o + 1) text refl

pub find_from-IsMatch :
    (text : Str) (s : Str) (skip o : ℕ) → s ≡ drop o text → All (IsMatch text) (find_from skip o s)
unfolding find_from
find_from-IsMatch text [] skip o h = tt
find_from-IsMatch text (c ∷ cs) (suc skip) o h =
    find_from-IsMatch text cs skip (o + 1) (next_drop text o c cs h)
find_from-IsMatch text (c ∷ cs) zero o h = elim (Bool-cases (matches_prefix bic_like (c ∷ cs))) [
  | inl found ↦ rw found (
    (ap (take 11) (sym h), matches-take bic_like (c ∷ cs) found),
    find_from-IsMatch text cs 10 (o + 1) (next_drop text o c cs h),
  )
  | inr missed ↦ rw missed (find_from-IsMatch text cs 0 (o + 1) (next_drop text o c cs h))
]

-- Nothing is found before the characters that are skipped.
find_from-after : (s : Str) (skip o b : ℕ) → b ≤ o + skip → All (λ f. b ≤ f.0) (find_from skip o s)
unfolding find_from
find_from-after [] skip o b h = tt
find_from-after (c ∷ cs) (suc skip) o b h = find_from-after cs skip (o + 1) b (omega arith)
find_from-after (c ∷ cs) zero o b h = elim (Bool-cases (matches_prefix bic_like (c ∷ cs))) [
  | inl found ↦ rw found (omega arith, find_from-after cs 10 (o + 1) b (omega arith))
  | inr missed ↦ rw missed (find_from-after cs 0 (o + 1) b (omega arith))
]

pub find_from-Before : (s : Str) (skip o : ℕ) → EachPair Before (find_from skip o s)
unfolding find_from
find_from-Before [] skip o = tt
find_from-Before (c ∷ cs) (suc skip) o = find_from-Before cs skip (o + 1)
find_from-Before (c ∷ cs) zero o = elim (Bool-cases (matches_prefix bic_like (c ∷ cs))) [
  | inl found ↦
      rw found
        (find_from-after cs 10 (o + 1) (o + 11) (omega arith), find_from-Before cs 10 (o + 1))
  | inr missed ↦ rw missed (find_from-Before cs 0 (o + 1))
]

-- A reference whose token stands at its offset and has the container shape
abbrev pub IsToken : Str → Located → Type 0
IsToken text ref = (slice text ref.offset 11 ≡ ref.eqid) × (matches bic_like ref.eqid ≡ true)

abbrev pub RefBefore : Located → Located → Type 0
RefBefore a b = a.offset + 11 ≤ b.offset

refs_of-IsToken :
    (text : Str) (found : List (ℕ × Str))
    → All (IsMatch text) found
    → All (IsToken text) (refs_of text found)
unfolding refs_of
refs_of-IsToken text [] h = tt
refs_of-IsToken text ((o, s) ∷ found) (h, hs) = (h, refs_of-IsToken text found hs)

refs_of-after :
    (text : Str) (found : List (ℕ × Str)) (b : ℕ)
    → All (λ f. b ≤ f.0) found
    → All (λ ref. b ≤ ref.offset) (refs_of text found)
unfolding refs_of
refs_of-after text [] b h = tt
refs_of-after text ((o, s) ∷ found) b (h, hs) = (h, refs_of-after text found b hs)

refs_of-Before :
    (text : Str) (found : List (ℕ × Str))
    → EachPair Before found
    → EachPair RefBefore (refs_of text found)
unfolding refs_of
refs_of-Before text [] h = tt
refs_of-Before text ((o, s) ∷ found) (h, hs) =
    (refs_of-after text found (o + 11) h, refs_of-Before text found hs)

-- Every reference that `locate_equipment` returns is a number of the container shape that stands
-- at its offset in the text, and each reference ends before the next one begins.
pub locate_equipment_sound :
    (text : Str)
    → All (IsToken text) (locate_equipment text) × EachPair RefBefore (locate_equipment text)
unfolding locate_equipment
locate_equipment_sound text = (
  refs_of-IsToken text (find_bic text) (find_from-IsMatch text text 0 0 refl),
  refs_of-Before text (find_bic text) (find_from-Before text 0 0),
)

-- A match that covers offset `k`
abbrev pub Covers : ℕ → ℕ × Str → Type 0
Covers k f = (f.0 ≤ k) × (k < f.0 + 11)

find_from_complete :
    (s : Str) (skip o i k : ℕ)
    → k ≡ o + i
    → matches_prefix bic_like (drop i s) ≡ true
    → (i < skip) ⊎ Any (Covers k) (find_from skip o s)
unfolding find_from
find_from_complete [] skip o zero k e h = absurd (unfold matches_prefix in ground arith)
find_from_complete [] skip o (suc i) k e h = absurd (unfold matches_prefix in ground arith)
find_from_complete (c ∷ cs) (suc skip) o zero k e h = inl (omega arith)
find_from_complete (c ∷ cs) (suc skip) o (suc i) k e h =
    elim (find_from_complete cs skip (o + 1) i k (omega arith) h) [
      | inl under ↦ inl (omega arith)
      | inr found ↦ inr found
    ]
find_from_complete (c ∷ cs) zero o zero k e h = rw h (inr (inl (omega arith, omega arith)))
find_from_complete (c ∷ cs) zero o (suc i) k e h =
    elim (Bool-cases (matches_prefix bic_like (c ∷ cs))) [
      | inl here ↦ rw here (
          inr (elim (find_from_complete cs 10 (o + 1) i k (omega arith) h) [
            | inl under ↦ inl (omega arith, omega arith)
            | inr found ↦ inr found
          ]))
      | inr missed ↦ rw missed (
          inr (elim (find_from_complete cs 0 (o + 1) i k (omega arith) h) [
            | inl under ↦ absurd (omega arith)
            | inr found ↦ found
          ]))
    ]

-- No number is overlooked: wherever the text holds the container shape, a match covers the place.
pub find_bic_complete :
    (text : Str) (k : ℕ)
    → matches_prefix bic_like (drop k text) ≡ true
    → Any (Covers k) (find_bic text)
find_bic_complete text k h = elim (find_from_complete text 0 0 k k (omega arith) h) [
  | inl under ↦ absurd (omega arith)
  | inr found ↦ found
]
