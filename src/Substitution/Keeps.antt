-- ===== src/Substitution/Keeps.antt =====
-- Edits that keep the length: nothing outside their spans changes.
use mathlib.Core.Path.{subst}
use native.Mathlib.Decide.{dec_lt}
use checkdigit.Common.{
  ℕ, ◌+◌, ◌-◌, ◌≤◌, ◌<◌, ◌≡◌, ◌⊎◌, refl, sym, ap, ◌∙◌, List, [], ◌∷◌, ◌++◌, arith, length, take,
  drop, get_elem?, get_elem?-left, get_elem?-right, length-append, Str, slice, ok, All, drop-append,
  take-append, drop-drop, append_assoc,
}
use checkdigit.Substitution.{Edit, end, sort_edits, apply_edits}
use checkdigit.Substitution.Order.{All-sort_edits}
use checkdigit.Substitution.Spliced.{Spliced, done, edit, StartsIn}
use checkdigit.Substitution.Total.{apply_edits_sound}

-- An edit that keeps the length
abbrev pub KeepsLength : Edit → Type 0
KeepsLength e = length e.new ≡ length e.old

Spliced-length :
    {o : ℕ} {text : Str} {es : List Edit} {out : Str}
    → Spliced o text es out
    → All KeepsLength es
    → length out ≡ length text
Spliced-length done h = refl
Spliced-length (edit gap rest e cut at {out'} out_is tail) (h, hs) =
    rw (cut, out_is)
      (omega (
        arith,
        Spliced-length tail hs,
        length-append gap (e.old ++ rest),
        length-append e.old rest,
        length-append gap (e.new ++ out'),
        length-append e.new out',
      ))

-- Index `i` is in no edit's span.
abbrev pub Outside : ℕ → Edit → Type 0
Outside i e = (i < e.start) ⊎ (end e ≤ i)

Outside-shift : (i j : ℕ) (es : List Edit) → i ≡ j → All (Outside i) es → All (Outside j) es
Outside-shift i j es e h = rw e at h

Spliced-Outside :
    {o : ℕ} {text : Str} {es : List Edit} {out : Str} (j : ℕ)
    → Spliced o text es out
    → All KeepsLength es
    → All (Outside (o + j)) es
    → get_elem? out j ≡ get_elem? text j
Spliced-Outside j done k h = refl
Spliced-Outside {o} j (edit {es} gap rest e cut at {out'} out_is tail) (k, ks) (h, hs) =
    elim (dec_lt j (length gap)) [
      | yes before ↦ rw (cut, out_is) (get_elem?-left j gap (e.new ++ out') (e.old ++ rest) before)
      | no behind ↦
          let n = j - length gap in
          let m = n - length e.old in
          let j_is : j ≡ length gap + n = omega arith in
          let n_new : n ≡ length e.new + m = omega arith in
          let n_old : n ≡ length e.old + m = omega arith in
          let here : o + j ≡ end e + m = omega arith in
          rw (cut, out_is)
            (get_elem?-right gap (e.new ++ out') j n j_is
              ∙ get_elem?-right e.new out' n m n_new
              ∙ Spliced-Outside m tail ks (Outside-shift (o + j) (end e + m) es here hs)
              ∙ sym (get_elem?-right e.old rest n m n_old)
              ∙ sym (get_elem?-right gap (e.old ++ rest) j n j_is))
    ]

-- The new part stands where the edit says, `o` being the offset of `out`.
abbrev pub Written : ℕ → Str → Edit → Type 0
Written o out e = slice out (e.start - o) (length e.new) ≡ e.new

-- What is written behind a prefix of length `n` is written behind it at the same place.
Written-behind :
    (o p : ℕ) (front out : Str) (es : List Edit)
    → p ≡ o + length front
    → All (λ e. p ≤ e.start) es
    → All (Written p out) es
    → All (Written o (front ++ out)) es
Written-behind o p front out [] e le h = tt
Written-behind o p front out (f ∷ fs) e (le, les) (h, hs) = (
  ap (take (length f.new)) (
        sym (drop-drop (f.start - p) (length front) (f.start - o) (front ++ out) (omega arith))
        ∙ ap (drop (f.start - p)) (drop-append front out))
      ∙ h,
  Written-behind o p front out fs e les hs,
)

Spliced-after :
    {o : ℕ} {text : Str} {es : List Edit} {out : Str} (q : ℕ)
    → q ≤ o
    → Spliced o text es out
    → All (λ e. q ≤ e.start) es
Spliced-after q le done = tt
Spliced-after q le (edit gap rest e cut at out_is tail) =
    (omega arith, Spliced-after q (omega arith) tail)

Spliced-Written :
    {o : ℕ} {text : Str} {es : List Edit} {out : Str}
    → Spliced o text es out
    → All KeepsLength es
    → All (Written o out) es
Spliced-Written done k = tt
Spliced-Written {o} (edit {es} gap rest e cut at {out'} out_is tail) (k, ks) =
    let n : e.start - o ≡ length gap = omega arith in
    let here : slice (gap ++ (e.new ++ out')) (e.start - o) (length e.new) ≡ e.new =
      ap (λ (m : ℕ). slice (gap ++ (e.new ++ out')) m (length e.new)) n
      ∙ ap (take (length e.new)) (drop-append gap (e.new ++ out'))
      ∙ take-append e.new out' in
    let le : end e ≤ end e = omega arith in
    let behind =
      Written-behind o (end e) (gap ++ e.new) out' es (omega (arith, length-append gap e.new))
        (Spliced-after (end e) le tail) (Spliced-Written tail ks) in
    subst (λ (z : Str). All (Written o z) (e ∷ es)) (sym out_is) (here, rw append_assoc at behind)

module _ (text : Str) (edits : List Edit) {out : Str} (fit : All (StartsIn text) edits)
    (keep : All KeepsLength edits) (h : apply_edits text edits ≡ ok out) where
  keep_sorted : All KeepsLength (sort_edits edits)
  keep_sorted = All-sort_edits KeepsLength edits keep

  -- If every edit starts inside the text or at its end and keeps the length, then what
  -- `apply_edits` returns has the text's length and holds the new part of every edit at the edit's
  -- offset.
  pub apply_edits-Written : (length out ≡ length text) × All (Written 0 out) (sort_edits edits)
  apply_edits-Written =
      let s = apply_edits_sound text edits fit h in
      (Spliced-length s keep_sorted, Spliced-Written s keep_sorted)

  -- If every edit starts inside the text or at its end and keeps the length, then what
  -- `apply_edits` returns agrees with the text at every index that is in no edit's span.
  pub apply_edits-Outside : (i : ℕ) → All (Outside i) edits → get_elem? out i ≡ get_elem? text i
  apply_edits-Outside i out_of =
      Spliced-Outside i (apply_edits_sound text edits fit h) keep_sorted
        (Outside-shift i (0 + i) _ (omega arith) (All-sort_edits (Outside i) edits out_of))
