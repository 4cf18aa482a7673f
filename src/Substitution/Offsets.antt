-- ===== src/Substitution/Offsets.antt =====
-- `utf16_index` and `changed_indices`.
use checkdigit.Common.{
  if◌then◌else◌, ℕ, zero, suc, ◌+◌, ◌≤◌, ◌≡◌, ◌≢◌, ◌↔◌, refl, ap, true, List, [], ◌∷◌, arith,
  length, take, get_elem?, Str, ok, All, contains, ltb, false, leb,
}
use checkdigit.Substitution.{differing, changed_indices, utf16_length, utf16_index}

-- The characters outside the Basic Multilingual Plane, counted
abbrev pub supplementary : Str → ℕ
supplementary [] = 0
supplementary (c ∷ s) = if leb 0x10000 c then suc (supplementary s) else supplementary s

utf16_length-supplementary : (s : Str) → utf16_length s ≡ length s + supplementary s
unfolding utf16_length
utf16_length-supplementary [] = refl
utf16_length-supplementary (c ∷ s) = let rest = utf16_length-supplementary s in ground arith

utf16_length-basic : (s : Str) → All (λ c. c ≤ 0xffff) s → utf16_length s ≡ length s
unfolding utf16_length
utf16_length-basic [] h = refl
utf16_length-basic (c ∷ s) (h, hs) = ground (arith, utf16_length-basic s hs)

length-take_le : (n : ℕ) (s : Str) → n ≤ length s → length (take n s) ≡ n
length-take_le zero s h = refl
length-take_le (suc n) [] h = absurd (omega arith)
length-take_le (suc n) (c ∷ s) h = ap suc (length-take_le n s (omega arith))

-- Where the index lies in the text or at its end, `utf16_index` returns the index and one more for
-- each character before it that lies outside the Basic Multilingual Plane.
pub utf16_index_exact :
    (text : Str) (i : ℕ)
    → i ≤ length text
    → utf16_index text i ≡ ok (i + supplementary (take i text))
unfolding utf16_index
utf16_index_exact text i h =
    let n = length-take_le i text h in
    let b = utf16_length-supplementary (take i text) in
    let sum : utf16_length (take i text) ≡ i + supplementary (take i text) = omega arith in
    let inside : ltb (length text) i ≡ false = ground arith in rw inside (ap ok sum)

-- What `utf16_index` returns is the code-point index itself where all characters before it lie in
-- the Basic Multilingual Plane.
pub utf16_index_basic :
    (text : Str) (i : ℕ) {u : ℕ}
    → utf16_index text i ≡ ok u
    → All (λ c. c ≤ 0xffff) (take i text)
    → u ≡ i
unfolding utf16_index
utf16_index_basic text i h basic =
    let same = utf16_length-basic (take i text) basic in
    let le : i ≤ length text = ground arith in ground (arith, length-take_le i text le)

differing-from : (a b : Str) (o k : ℕ) → contains k (differing o a b) ≡ true → o ≤ k
unfolding differing contains
differing-from [] b o k h = absurd (ground arith)
differing-from (x ∷ a) [] o k h = absurd (ground arith)
differing-from (x ∷ a) (y ∷ b) o k h = ground (arith, differing-from a b (o + 1) k)

differing_sound :
    (a b : Str) (o i k : ℕ)
    → k ≡ o + i
    → contains k (differing o a b) ≡ true
    → get_elem? a i ≢ get_elem? b i
unfolding differing contains
differing_sound [] b o i k e h = absurd (ground arith)
differing_sound (x ∷ a) [] o i k e h = absurd (ground arith)
differing_sound (x ∷ a) (y ∷ b) o zero k e h = ground (arith, differing-from a b (o + 1) k)
differing_sound (x ∷ a) (y ∷ b) o (suc i) k e h = ground (arith, differing_sound a b (o + 1) i k)

differing_complete :
    (a b : Str) (o i k : ℕ)
    → length a ≡ length b
    → k ≡ o + i
    → get_elem? a i ≢ get_elem? b i
    → contains k (differing o a b) ≡ true
unfolding differing contains
differing_complete [] [] o i k l e h = absurd (h refl)
differing_complete [] (y ∷ b) o i k l e h = absurd (omega arith)
differing_complete (x ∷ a) [] o i k l e h = absurd (omega arith)
differing_complete (x ∷ a) (y ∷ b) o zero k l e h = ground arith
differing_complete (x ∷ a) (y ∷ b) o (suc i) k l e h =
    ground (arith, differing_complete a b (o + 1) i k)

-- On texts of one length `changed_indices` returns exactly the indices at which they differ.
pub changed_indices_iff :
    (a b : Str) (i : ℕ)
    → length a ≡ length b
    → (indices : List ℕ) × (changed_indices a b ≡ ok indices)
      × ((contains i indices ≡ true) ↔ (get_elem? a i ≢ get_elem? b i))
unfolding changed_indices
changed_indices_iff a b i h = (
  differing 0 a b,
  ground arith,
  (differing_sound a b 0 i i (omega arith), differing_complete a b 0 i i h (omega arith)),
)
