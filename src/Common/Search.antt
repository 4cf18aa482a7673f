-- ===== src/Common/Search.antt =====
-- What `str.find` finds.
use Prim.Native.Nat.{ℕ, ◌+◌, ◌≤◌}
use mathlib.Core.Bool.{true}
use mathlib.Core.Logic.{inl, inr}
use mathlib.Core.Option.{some}
use mathlib.Core.Path.{◌≡◌, refl, sym, ap, ◌∙◌}
use mathlib.Core.List.{[], ◌∷◌, ◌++◌, append_assoc, reverse, reverse-append, reverse-reverse}
use native.Mathlib.Omega.{arith}
use checkdigit.Common.Lists.{
  length, take, drop, drop-drop, drop-append, take-append, length-append, take-append-drop,
}
use checkdigit.Common.Tests.{Bool-cases}
use checkdigit.Common.Text.{Str, slice, starts_with, find_at, lstrip, strip, is_space}
use checkdigit.Common.Scanning.{StandsAt}

-- `s` stands in `t` behind `j` characters.
pub record IsAt (s t : Str) (j : ℕ) : Type 0 where
  pub pre : Str
  pub post : Str
  pub whole : t ≡ pre ++ (s ++ post)
  pub index : j ≡ length pre

pub starts_with_lem : (s t : Str) → starts_with s t ≡ true → (post : Str) × (t ≡ s ++ post)
unfolding starts_with
starts_with_lem [] t h = (t, refl)
starts_with_lem (p ∷ s) [] h = absurd (cc)
starts_with_lem (p ∷ s) (c ∷ t) h =
    let (post, e) = starts_with_lem s t (ground arith) in
    let same : c ≡ p = ground arith in (post, rw (same, e) refl)

starts_with-IsAt : (s t : Str) → starts_with s t ≡ true → IsAt s t 0
starts_with-IsAt s t h =
    let (post, e) = starts_with_lem s t h in
    record { pre = []; post = post; whole = e; index = refl }

IsAt-behind : {s t : Str} {j : ℕ} (c : ℕ) → IsAt s t j → IsAt s (c ∷ t) (j + 1)
IsAt-behind c h = record {
  pre = c ∷ h.pre;
  post = h.post;
  whole = ap (λ (x : Str). c ∷ x) h.whole;
  index = omega (arith, h.index);
}

pub find_at-IsAt :
    (i : ℕ) (s t : Str) {k : ℕ} → find_at i s t ≡ some k → (j : ℕ) × (k ≡ i + j) × IsAt s t j
unfolding find_at
find_at-IsAt i s [] h = elim (Bool-cases (starts_with s [])) [
  | inl here ↦ (0, ground arith, starts_with-IsAt s [] here)
  | inr missed ↦ absurd (ground arith)
]
find_at-IsAt i s (c ∷ t) {k} h = elim (Bool-cases (starts_with s (c ∷ t))) [
  | inl here ↦ (0, ground arith, starts_with-IsAt s (c ∷ t) here)
  | inr missed ↦
      let (j, e, is) = find_at-IsAt (i + 1) s t {k = k} (ground arith) in
      (j + 1, omega arith, IsAt-behind c is)
]

-- What stands in a piece that stands in the text stands in the text.
pub IsAt-slice :
    (text raw s : Str) (start j : ℕ)
    → StandsAt text (raw, start)
    → IsAt s raw j
    → (slice text (start + j) (length s) ≡ s) × (start + j + length s ≤ start + length raw)
IsAt-slice text raw s start j stands is =
    let tail = drop (length raw) (drop start text) in
    let here : drop start text ≡ is.pre ++ ((s ++ is.post) ++ tail) =
      sym (take-append-drop (length raw) (drop start text))
      ∙ ap (λ (x : Str). x ++ tail) (stands ∙ is.whole)
      ∙ append_assoc is.pre (s ++ is.post) tail in
    let there : drop (start + j) text ≡ s ++ (is.post ++ tail) =
      sym (drop-drop j start (start + j) text (omega arith))
      ∙ ap (drop j) here
      ∙ ap (λ (n : ℕ). drop n (is.pre ++ ((s ++ is.post) ++ tail))) is.index
      ∙ drop-append is.pre ((s ++ is.post) ++ tail)
      ∙ append_assoc s is.post tail in
    (
      ap (take (length s)) there ∙ take-append s (is.post ++ tail),
      omega (
        arith,
        is.index,
        ap length is.whole,
        length-append is.pre (s ++ is.post),
        length-append s is.post,
      ),
    )

starts_with-append : (s t : Str) → starts_with s (s ++ t) ≡ true
unfolding starts_with
starts_with-append [] t = refl
starts_with-append (c ∷ s) t = let rest = starts_with-append s t in ground arith

find_at-here : (i : ℕ) (s t : Str) → starts_with s t ≡ true → find_at i s t ≡ some i
unfolding find_at
find_at-here i s [] h = rw h refl
find_at-here i s (c ∷ t) h = rw h refl

-- What stands in a text is found.
pub find_at_complete :
    (i : ℕ) (pre s post : Str) → (k : ℕ) × (find_at i s (pre ++ (s ++ post)) ≡ some k)
unfolding find_at
find_at_complete i [] s post = (i, find_at-here i s (s ++ post) (starts_with-append s post))
find_at_complete i (c ∷ pre) s post =
    let (k, e) = find_at_complete (i + 1) pre s post in
    elim (Bool-cases (starts_with s (c ∷ (pre ++ (s ++ post))))) [
      | inl here ↦ (i, rw here refl)
      | inr missed ↦ (k, rw missed e)
    ]

lstrip-whole : (s : Str) → (pre : Str) × (s ≡ pre ++ lstrip s)
unfolding lstrip
lstrip-whole [] = ([], refl)
lstrip-whole (c ∷ cs) = elim (Bool-cases (is_space c)) [
  | inl space ↦ let (pre, e) = lstrip-whole cs in (c ∷ pre, rw space (ap (λ (x : Str). c ∷ x) e))
  | inr other ↦ ([], rw other refl)
]

-- A stripped text is a part of the text, so it is found there.
pub find_at-strip : (s : Str) → (k : ℕ) × (find_at 0 (strip s) s ≡ some k)
unfolding strip
find_at-strip s =
    let (pre, e) = lstrip-whole s in
    let (post, f) = lstrip-whole (reverse (lstrip s)) in
    let inner : lstrip s ≡ strip s ++ reverse post =
      sym (reverse-reverse (lstrip s))
      ∙ ap reverse f
      ∙ reverse-append post (lstrip (reverse (lstrip s))) in
    let whole : s ≡ pre ++ (strip s ++ reverse post) = e ∙ ap (λ (x : Str). pre ++ x) inner in
    let (k, g) = find_at_complete 0 pre (strip s) (reverse post) in
    (k, ap (find_at 0 (strip s)) whole ∙ g)
