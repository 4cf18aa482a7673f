-- ===== src/Substitution/Ordered.antt =====
-- Edits that are given in the order of the text, where an edit may insert into an empty place.
use checkdigit.Common.{
  ℕ, ◌-◌, ◌≤◌, ◌≡◌, refl, sym, ap, ◌∙◌, List, [], ◌∷◌, ◌++◌, append_assoc, append-nil, arith, ltb,
  length, drop, Str, slice, ok, All, EachPair, All-imp, All-append, false,
}
use checkdigit.Substitution.{Edit, end, insert_edit, sort_into, splice, apply_edits}
use checkdigit.Substitution.Spliced.{splice_round}

-- The text holds the old part, which may be empty, where the edit says.
abbrev pub Found : Str → Edit → Type 0
Found text e = slice text e.start (length e.old) ≡ e.old

-- The first edit ends before the second starts, or just there.
abbrev pub Follows : Edit → Edit → Type 0
Follows e f = end e ≤ f.start

insert_edit-last :
    (e : Edit) (es : List Edit) → All (λ f. Follows f e) es → insert_edit e es ≡ es ++ (e ∷ [])
unfolding insert_edit
insert_edit-last e [] h = refl
insert_edit-last e (f ∷ es) (h, hs) =
    let later : ltb e.start f.start ≡ false = ground arith in
    rw later (ap (λ (x : List Edit). f ∷ x) (insert_edit-last e es hs))

sort_into-ordered :
    (done es : List Edit)
    → All (λ e. All (λ f. Follows f e) done) es
    → EachPair Follows es
    → sort_into done es ≡ done ++ es
unfolding sort_into
sort_into-ordered done [] h k = sym (append-nil done)
sort_into-ordered done (e ∷ es) (h, hs) (k, ks) =
    rw (insert_edit-last e done h)
      (sort_into-ordered (done ++ (e ∷ [])) es (behind es hs k) ks ∙ append_assoc done (e ∷ []) es)
  where
    behind :
        (fs : List Edit)
        → All (λ f. All (λ g. Follows g f) done) fs
        → All (Follows e) fs
        → All (λ f. All (λ g. Follows g f) (done ++ (e ∷ []))) fs
    behind [] p q = tt
    behind (f ∷ fs) (p, ps) (q, qs) =
        (All-append (λ g. Follows g f) done (e ∷ []) p (q, tt), behind fs ps qs)

All-nothing : (es : List Edit) → All (λ e. All (λ f. Follows f e) []) es
All-nothing [] = tt
All-nothing (e ∷ es) = (tt, All-nothing es)

splice-ordered :
    (text : Str) (es : List Edit) (cursor : ℕ) (parts : Str)
    → All (Found text) es
    → EachPair Follows es
    → All (λ e. cursor ≤ e.start) es
    → (out : Str) × (splice text cursor parts es ≡ ok out)
splice-ordered text [] cursor parts v a c = (parts ++ drop cursor text, unfold splice in refl)
splice-ordered text (e ∷ es) cursor parts (v, vs) (a, as') (c, cs) =
    let parts' = parts ++ (slice text cursor (e.start - cursor) ++ e.new) in
    let (out, h) = splice-ordered text es (end e) parts' vs as' a in
    (out, splice_round text cursor parts e es c v ∙ h)

-- If every edit finds its old part and ends no later than the next one starts, `apply_edits`
-- returns.
pub apply_edits-ordered :
    (text : Str) (edits : List Edit)
    → All (Found text) edits
    → EachPair Follows edits
    → (out : Str) × (apply_edits text edits ≡ ok out)
unfolding apply_edits
apply_edits-ordered text edits v a =
    rw (sort_into-ordered [] edits (All-nothing edits) a)
      (splice-ordered text edits 0 [] v a (from_zero edits))
  where
    from_zero : (es : List Edit) → All (λ e. 0 ≤ e.start) es
    from_zero [] = tt
    from_zero (e ∷ es) = (omega arith, from_zero es)

-- The edits made so far are found, in order, and end before the bound.
pub record IsOrdered (text : Str) (b : ℕ) (edits : List Edit) : Type 0 where
  pub found : All (Found text) edits
  pub order : EachPair Follows edits
  pub below : All (λ e. end e ≤ b) edits

EachPair-snoc :
    (es : List Edit) (e : Edit)
    → All (λ f. Follows f e) es
    → EachPair Follows es
    → EachPair Follows (es ++ (e ∷ []))
EachPair-snoc [] e h k = (tt, tt)
EachPair-snoc (f ∷ es) e (h, hs) (k, ks) =
    (All-append (Follows f) es (e ∷ []) k (h, tt), EachPair-snoc es e hs ks)

module _ (text : Str) (b b' : ℕ) (es : List Edit) (le : b ≤ b') (h : IsOrdered text b es) where
  pub IsOrdered-later : IsOrdered text b' es
  IsOrdered-later = record {
    found = h.found;
    order = h.order;
    below =
        All-imp (λ e. end e ≤ b) (λ e. end e ≤ b') es (λ e (k : end e ≤ b). omega arith) h.below;
  }

  pub IsOrdered-snoc :
      (e : Edit) → Found text e → b ≤ e.start → end e ≤ b' → IsOrdered text b' (es ++ (e ∷ []))
  IsOrdered-snoc e f start stop = record {
    found = All-append (Found text) es (e ∷ []) h.found (f, tt);
    order =
        EachPair-snoc es e
          (All-imp (λ g. end g ≤ b) (λ g. Follows g e) es (λ g (k : end g ≤ b). omega arith)
            h.below)
          h.order;
    below = All-append (λ g. end g ≤ b') es (e ∷ []) IsOrdered-later.below (stop, tt);
  }
