-- ===== src/Substitution/Spliced.antt =====
-- What a successful splice means, without cursor and loop: the text is cut into gaps and old
-- parts, and the output has the same gaps with the new parts between them.
use checkdigit.Common.{
  ℕ, ◌+◌, ◌-◌, ◌≤◌, ◌≡◌, refl, sym, ap, ◌∙◌, List, [], ◌∷◌, ◌++◌, append_assoc, arith, length, take,
  drop, take-append-drop, length-take, length-drop, take-append, drop-append, drop-drop, Str,
  str_eq_iff, slice, ok, All,
}
use checkdigit.Substitution.{Edit, end, splice}

-- `text` is the source from offset `o` on.
pub data Spliced : (o : ℕ) (text : Str) → List Edit → Str → Type 0 where
  done : {o : ℕ} {text : Str} → Spliced o text [] text
  edit :
      {o : ℕ} {text out : Str} {es : List Edit} (gap rest : Str) (e : Edit)
      → text ≡ gap ++ (e.old ++ rest)
      → e.start ≡ o + length gap
      → {out' : Str} → out ≡ gap ++ (e.new ++ out')
      → Spliced (end e) rest es out'
      → Spliced o text (e ∷ es) out

-- One round of the loop that raises nothing.
pub splice_step :
    (text : Str) (cursor : ℕ) (parts : Str) (e : Edit) (es : List Edit) {out : Str}
    → splice text cursor parts (e ∷ es) ≡ ok out
    → (cursor ≤ e.start)
      × (slice text e.start (length e.old) ≡ e.old)
      × (splice text (end e) (parts ++ (slice text cursor (e.start - cursor) ++ e.new)) es ≡ ok out)
unfolding splice
splice_step text cursor parts e es h =
    let same = str_eq_iff (slice text e.start (length e.old)) e.old in
    (ground arith, ground (arith, same), ground arith)

cut_three {ℓ} :
    {A : Type ℓ} (n m : ℕ) (xs : List A) → xs ≡ take n xs ++ (take m (drop n xs) ++ drop (n + m) xs)
cut_three n m xs =
    sym (take-append-drop n xs)
    ∙ ap (λ ys. take n xs ++ ys)
        (sym (take-append-drop m (drop n xs))
          ∙ ap (λ ys. take m (drop n xs) ++ ys) (drop-drop m n (n + m) xs refl))

-- The text behind the cursor: the gap, the old part, and what is behind the edit.
drop_cursor :
    (text : Str) (cursor : ℕ) (e : Edit)
    → cursor ≤ e.start
    → slice text e.start (length e.old) ≡ e.old
    → drop cursor text ≡ slice text cursor (e.start - cursor) ++ (e.old ++ drop (end e) text)
drop_cursor text cursor e le same =
    let n = e.start - cursor in
    let m = length e.old in
    let at_start : drop n (drop cursor text) ≡ drop e.start text =
      drop-drop n cursor e.start text (omega arith) in
    let at_end : drop (n + m) (drop cursor text) ≡ drop (end e) text =
      drop-drop (n + m) cursor (end e) text (omega arith) in
    cut_three n m (drop cursor text)
    ∙ ap (λ ys. take n (drop cursor text) ++ ys)
        (ap (λ ys. take m ys ++ drop (n + m) (drop cursor text)) at_start
          ∙ (ap (λ ys. ys ++ drop (n + m) (drop cursor text)) same ∙ ap (λ ys. e.old ++ ys) at_end))

gap_length :
    (text : Str) (cursor : ℕ) (e : Edit)
    → cursor ≤ e.start
    → e.start ≤ length text
    → e.start ≡ cursor + length (slice text cursor (e.start - cursor))
gap_length text cursor e le fits =
    omega (arith, length-take (e.start - cursor) (drop cursor text), length-drop cursor text)

-- An edit that starts inside the text or at its end
abbrev pub StartsIn : Str → Edit → Type 0
StartsIn text e = e.start ≤ length text

-- `splice` returns what is done and the output of the rest.
pub splice_sound :
    (text : Str) (es : List Edit) (cursor : ℕ) (parts : Str) {out : Str}
    → All (StartsIn text) es
    → splice text cursor parts es ≡ ok out
    → (out' : Str) × (out ≡ parts ++ out') × Spliced cursor (drop cursor text) es out'
splice_sound text [] cursor parts _ h = (drop cursor text, unfold splice in ground arith, done)
splice_sound text (e ∷ es) cursor parts (fits, fit) h =
    let (le, same, later) = splice_step text cursor parts e es h in
    let gap = slice text cursor (e.start - cursor) in
    let (out', eq, tail) = splice_sound text es (end e) (parts ++ (gap ++ e.new)) fit later in
    (
      gap ++ (e.new ++ out'),
      eq ∙ simp append_assoc,
      edit gap (drop (end e) text) e (drop_cursor text cursor e le same)
          (gap_length text cursor e le fits) refl tail,
    )

-- One round of the loop, where its two tests pass.
pub splice_round :
    (text : Str) (cursor : ℕ) (parts : Str) (e : Edit) (es : List Edit)
    → cursor ≤ e.start
    → slice text e.start (length e.old) ≡ e.old
    → splice text cursor parts (e ∷ es)
      ≡ splice text (end e) (parts ++ (slice text cursor (e.start - cursor) ++ e.new)) es
unfolding splice
splice_round text cursor parts e es le same =
    ground (arith, str_eq_iff (slice text e.start (length e.old)) e.old)

-- What stands at an edit of a cut text.
module _ (o : ℕ) {rest : Str} (text gap behind : Str) (e : Edit)
    (cut : rest ≡ gap ++ (e.old ++ behind)) (at : e.start ≡ o + length gap)
    (here : rest ≡ drop o text) where
  drop_start : drop e.start text ≡ e.old ++ behind
  drop_start =
      sym (drop-drop (length gap) o e.start text at)
      ∙ ap (drop (length gap)) (sym here ∙ cut)
      ∙ drop-append gap (e.old ++ behind)

  slice_old : slice text e.start (length e.old) ≡ e.old
  slice_old = ap (take (length e.old)) drop_start ∙ take-append e.old behind

  drop-end : behind ≡ drop (end e) text
  drop-end =
      sym (drop-append e.old behind)
      ∙ ap (drop (length e.old)) (sym drop_start)
      ∙ drop-drop (length e.old) e.start (end e) text refl

  slice_gap : slice text o (e.start - o) ≡ gap
  slice_gap =
      let n : e.start - o ≡ length gap = omega arith in
      rw n (ap (take (length gap)) (sym here ∙ cut) ∙ take-append gap (e.old ++ behind))

-- The loop succeeds wherever the text is cut like that.
pub splice_complete :
    {o : ℕ} {rest : Str} {es : List Edit} {out' : Str} (text parts : Str)
    → Spliced o rest es out'
    → rest ≡ drop o text
    → splice text o parts es ≡ ok (parts ++ out')
splice_complete text parts done e = unfold splice in rw e
splice_complete {o} text parts (edit {es} gap behind e cut at {out'} out_is tail) h =
    splice_round text o parts e es (omega arith) (slice_old o text gap behind e cut at h)
    ∙ rw (slice_gap o text gap behind e cut at h) (
        splice_complete text (parts ++ (gap ++ e.new)) tail (drop-end o text gap behind e cut at h)
        ∙ ap ok (rw out_is (simp append_assoc)))
