-- ===== src/Kernel/Router/Shapes.antt =====
-- Texts of one character class for each place, and what changing the last character keeps.
use checkdigit.Common.{
  ℕ, zero, suc, ◌≡◌, refl, ap, Bool, true, List, [], ◌∷◌, ◌++◌, arith, Str, All, length, take,
  matches, is_upper, is_digit, replicate, All-append, All-replicate, false,
}
use checkdigit.Kernel.Digits.{all_digits_of}
use checkdigit.Kernel.Normalize.{normalize}
use checkdigit.Kernel.Normalize.Closed.{IsPlain}
use checkdigit.Kernel.Normalize.Laws.{is_alnum-IsPlain, normalize-IsPlain}
use checkdigit.Kernel.Types.{is_alnum, bic_like, container_shaped, uic_shaped}

-- A text of the shape `ps p` is its first characters and one that `p` takes.
pub matches_split :
    (ps : List (ℕ → Bool)) (p : ℕ → Bool) (s : Str)
    → matches (ps ++ p ∷ []) s ≡ true
    → (c : ℕ) × (s ≡ take (length ps) s ++ c ∷ [])
      × (p c ≡ true)
      × (matches ps (take (length ps) s) ≡ true)
unfolding matches
matches_split [] p [] h = absurd (ground arith)
matches_split [] p (c ∷ []) h = (c, refl, ground arith, refl)
matches_split [] p (c ∷ d ∷ s) h = absurd (ground arith)
matches_split (q ∷ ps) p [] h = absurd (ground arith)
matches_split (q ∷ ps) p (d ∷ s) h =
    let (c, e, pc, m) = matches_split ps p s (ground arith) in (c, ap (◌∷◌ d) e, pc, ground arith)

pub matches_join :
    (ps : List (ℕ → Bool)) (p : ℕ → Bool) (s : Str) (c : ℕ)
    → matches ps s ≡ true
    → p c ≡ true
    → matches (ps ++ p ∷ []) (s ++ c ∷ []) ≡ true
unfolding matches
matches_join [] p [] c h k = ground arith
matches_join [] p (d ∷ s) c h k = absurd (ground arith)
matches_join (q ∷ ps) p [] c h k = absurd (ground arith)
matches_join (q ∷ ps) p (d ∷ s) c h k = ground (arith, matches_join ps p s c)

-- Every class of the pattern holds capitals and digits only.
abbrev pub AlnumClasses : List (ℕ → Bool) → Type 0
AlnumClasses = All (λ p. (c : ℕ) → p c ≡ true → is_alnum c ≡ true)

pub matches-All :
    (ps : List (ℕ → Bool)) (s : Str)
    → AlnumClasses ps
    → matches ps s ≡ true
    → All (λ c. is_alnum c ≡ true) s
unfolding matches
matches-All [] [] a h = tt
matches-All [] (c ∷ s) a h = absurd (ground arith)
matches-All (p ∷ ps) [] a h = absurd (ground arith)
matches-All (p ∷ ps) (c ∷ s) (a, as') h = (a c (ground arith), matches-All ps s as' (ground arith))

alnum-IsPlain : (s : Str) → All (λ c. is_alnum c ≡ true) s → All IsPlain s
alnum-IsPlain [] h = tt
alnum-IsPlain (c ∷ s) (h, hs) = (is_alnum-IsPlain c h, alnum-IsPlain s hs)

-- Capitals and digits are their own normal form.
pub normalize-alnum : (s : Str) → All (λ c. is_alnum c ≡ true) s → normalize s ≡ s
normalize-alnum s h = normalize-IsPlain s (alnum-IsPlain s h)

pub matches-replicate :
    (n : ℕ) (s : Str) → matches (replicate n is_digit) s ≡ true → all_digits_of s ≡ true
unfolding matches all_digits_of
matches-replicate n [] h = refl
matches-replicate zero (c ∷ s) h = absurd (ground arith)
matches-replicate (suc n) (c ∷ s) h = ground (arith, matches-replicate n s)

upper_alnum : (c : ℕ) → is_upper c ≡ true → is_alnum c ≡ true
upper_alnum c h = ground arith

digit_alnum : (c : ℕ) → is_digit c ≡ true → is_alnum c ≡ true
digit_alnum c h = ground arith

same_alnum : (c : ℕ) → is_alnum c ≡ true → is_alnum c ≡ true
same_alnum c h = h

-- The first ten classes of the two container patterns, and the first eleven of the UIC pattern
abbrev pub bic_body : List (ℕ → Bool)
bic_body = replicate 4 is_upper ++ replicate 6 is_digit

abbrev pub container_body : List (ℕ → Bool)
container_body = replicate 4 is_alnum ++ replicate 6 is_digit

abbrev pub uic_body : List (ℕ → Bool)
uic_body = replicate 11 is_digit

-- A class of capitals and digits only
abbrev IsAlnumClass : (ℕ → Bool) → Type 0
IsAlnumClass p = (c : ℕ) → p c ≡ true → is_alnum c ≡ true

pub bic_body_alnum : AlnumClasses bic_body
bic_body_alnum =
    All-append IsAlnumClass (replicate 4 is_upper) (replicate 6 is_digit)
      (All-replicate IsAlnumClass 4 is_upper upper_alnum)
      (All-replicate IsAlnumClass 6 is_digit digit_alnum)

pub container_body_alnum : AlnumClasses container_body
container_body_alnum =
    All-append IsAlnumClass (replicate 4 is_alnum) (replicate 6 is_digit)
      (All-replicate IsAlnumClass 4 is_alnum same_alnum)
      (All-replicate IsAlnumClass 6 is_digit digit_alnum)

pub uic_body_alnum : AlnumClasses uic_body
uic_body_alnum = All-replicate IsAlnumClass 11 is_digit digit_alnum

-- A full number of one of the three shapes: a body and a last digit.
pub bic_split :
    (s : Str)
    → matches bic_like s ≡ true
    → (c : ℕ) × (s ≡ take 10 s ++ c ∷ [])
      × (is_digit c ≡ true)
      × (matches bic_body (take 10 s) ≡ true)
bic_split s h = matches_split bic_body is_digit s h

pub container_split :
    (s : Str)
    → matches container_shaped s ≡ true
    → (c : ℕ) × (s ≡ take 10 s ++ c ∷ [])
      × (is_digit c ≡ true)
      × (matches container_body (take 10 s) ≡ true)
container_split s h = matches_split container_body is_digit s h

pub uic_split :
    (s : Str)
    → matches uic_shaped s ≡ true
    → (c : ℕ) × (s ≡ take 11 s ++ c ∷ [])
      × (is_digit c ≡ true)
      × (matches uic_body (take 11 s) ≡ true)
uic_split s h = matches_split uic_body is_digit s h

matches-snoc_nil : (ps : List (ℕ → Bool)) (p : ℕ → Bool) → matches (ps ++ p ∷ []) [] ≡ false
unfolding matches
matches-snoc_nil [] p = refl
matches-snoc_nil (q ∷ ps) p = refl

-- Whether a text has a shape does not depend on which of the last class's characters it ends in.
pub matches_change_last :
    (ps : List (ℕ → Bool)) (p : ℕ → Bool) (body : Str) (x y : ℕ)
    → p x ≡ true
    → p y ≡ true
    → matches (ps ++ p ∷ []) (body ++ x ∷ []) ≡ matches (ps ++ p ∷ []) (body ++ y ∷ [])
unfolding matches
matches_change_last [] p [] x y hx hy = ground arith
matches_change_last [] p (c ∷ []) x y hx hy = ground arith
matches_change_last [] p (c ∷ d ∷ body) x y hx hy = ground arith
matches_change_last (q ∷ ps) p [] x y hx hy = ground (arith, matches-snoc_nil ps p)
matches_change_last (q ∷ ps) p (c ∷ body) x y hx hy =
    ground (arith, matches_change_last ps p body x y hx hy)
