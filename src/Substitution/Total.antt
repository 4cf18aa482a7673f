-- ===== src/Substitution/Total.antt =====
-- When `apply_edits` returns, and what it leaves alone.
use checkdigit.Common.{
  ℕ, ◌-◌, ◌≤◌, ◌<◌, ◌≡◌, refl, ◌∙◌, List, [], ◌∷◌, ◌++◌, arith, length, drop, Str, slice, ok, All,
  EachPair,
}
use checkdigit.Substitution.{Edit, end, sort_edits, splice, apply_edits}
use checkdigit.Substitution.Order.{
  Apart, IsSorted, All-sort_edits, sort_edits-IsSorted, sort_edits-Apart,
}
use checkdigit.Substitution.Spliced.{Spliced, splice_round, splice_sound, splice_complete, StartsIn}

-- The text holds the old part where the edit says, and the old part is not empty.
abbrev pub Verified : Str → Edit → Type 0
Verified text e = (slice text e.start (length e.old) ≡ e.old) × (0 < length e.old)

After : ℕ → Edit → Type 0
After cursor e = cursor ≤ e.start

After-end :
    (text : Str) (e : Edit) (fs : List Edit)
    → All (λ f. e.start ≤ f.start) fs
    → All (Apart e) fs
    → All (Verified text) fs
    → All (After (end e)) fs
unfolding After
After-end text e [] h k v = tt
After-end text e (f ∷ fs) (h, hs) (k, ks) (v, vs) = (omega arith, After-end text e fs hs ks vs)

splice-total :
    (text : Str) (es : List Edit) (cursor : ℕ) (parts : Str)
    → IsSorted es
    → EachPair Apart es
    → All (Verified text) es
    → All (After cursor) es
    → (out : Str) × (splice text cursor parts es ≡ ok out)
unfolding After
splice-total text [] cursor parts s a v c = (parts ++ drop cursor text, unfold splice in refl)
splice-total text (e ∷ es) cursor parts (s, ss) (a, as') (v, vs) (c, cs) =
    let parts' = parts ++ (slice text cursor (e.start - cursor) ++ e.new) in
    let (out, h) = splice-total text es (end e) parts' ss as' vs (After-end text e es s a vs) in
    (out, splice_round text cursor parts e es c v.0 ∙ h)

All-After-zero : (es : List Edit) → All (After 0) es
unfolding After
All-After-zero [] = tt
All-After-zero (e ∷ es) = (omega arith, All-After-zero es)

-- If every edit finds its old part, which is not empty, and no edit reaches into another, then
-- `apply_edits` returns, in whatever order the edits are given.
pub apply_edits-total :
    (text : Str) (edits : List Edit)
    → All (Verified text) edits
    → EachPair Apart edits
    → (out : Str) × (apply_edits text edits ≡ ok out)
unfolding apply_edits
apply_edits-total text edits v a =
    splice-total text (sort_edits edits) 0 [] (sort_edits-IsSorted edits) (sort_edits-Apart edits a)
      (All-sort_edits (Verified text) edits v) (All-After-zero (sort_edits edits))

-- If every edit starts inside the text or at its end, what `apply_edits` returns is the text with
-- the old parts of the sorted edits replaced and the gaps between them kept.
pub apply_edits_sound :
    (text : Str) (edits : List Edit) {out : Str}
    → All (StartsIn text) edits
    → apply_edits text edits ≡ ok out
    → Spliced 0 text (sort_edits edits) out
unfolding apply_edits
apply_edits_sound text edits fit h =
    let fits = All-sort_edits (StartsIn text) edits fit in
    let (out', eq, s) = splice_sound text (sort_edits edits) 0 [] fits h in rw eq s

-- Wherever the text is cut by the sorted edits, `apply_edits` returns it with the new parts.
pub apply_edits_complete :
    (text : Str) (edits : List Edit) {out : Str}
    → Spliced 0 text (sort_edits edits) out
    → apply_edits text edits ≡ ok out
unfolding apply_edits
apply_edits_complete text edits s = splice_complete text [] s refl
