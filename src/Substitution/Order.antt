-- ===== src/Substitution/Order.antt =====
-- The stable sort of the edits: what holds of all edits, or between any two, holds after sorting.
use checkdigit.Common.{
  ◌≤◌, ◌⊎◌, inl, inr, List, [], ◌∷◌, arith, ltb, Bool-cases, All, [], All-imp, EachPair,
}
use checkdigit.Substitution.{Edit, end, insert_edit, sort_into, sort_edits}

-- Offsets never fall.
abbrev pub NoLater : Edit → Edit → Type 0
NoLater e f = e.start ≤ f.start

abbrev pub IsSorted : List Edit → Type 0
IsSorted = EachPair NoLater

-- Neither edit reaches into the other.
abbrev pub Apart : Edit → Edit → Type 0
Apart e f = (end e ≤ f.start) ⊎ (end f ≤ e.start)

module _ (P : Edit → Type 0) where
  All-insert_edit : (e : Edit) (es : List Edit) → P e → All P es → All P (insert_edit e es)
  unfolding insert_edit
  All-insert_edit e [] h hs = (h, tt)
  All-insert_edit e (f ∷ fs) h (hf, hs) = elim (Bool-cases (ltb e.start f.start)) [
    | inl before ↦ rw before (h, (hf, hs))
    | inr behind ↦ rw behind (hf, All-insert_edit e fs h hs)
  ]

  All-sort_into : (done es : List Edit) → All P done → All P es → All P (sort_into done es)
  unfolding sort_into
  All-sort_into done [] h hs = h
  All-sort_into done (e ∷ es) h (he, hs) =
      All-sort_into (insert_edit e done) es (All-insert_edit e done he h) hs

-- What holds of every edit holds of every sorted edit.
pub All-sort_edits : (P : Edit → Type 0) (es : List Edit) → All P es → All P (sort_edits es)
All-sort_edits P es h = All-sort_into P [] es tt h

insert_edit-IsSorted : (e : Edit) (es : List Edit) → IsSorted es → IsSorted (insert_edit e es)
unfolding insert_edit
insert_edit-IsSorted e [] h = (tt, tt)
insert_edit-IsSorted e (f ∷ fs) (hf, hs) = elim (Bool-cases (ltb e.start f.start)) [
  | inl before ↦
      let le : e.start ≤ f.start = ground arith in
      rw before (
        (le, All-imp (NoLater f) (NoLater e) fs (λ g (k : f.start ≤ g.start). omega arith) hf),
        (hf, hs),
      )
  | inr behind ↦
      let le : f.start ≤ e.start = ground arith in
      rw behind (All-insert_edit (NoLater f) e fs le hf, insert_edit-IsSorted e fs hs)
]

sort_into-IsSorted : (done es : List Edit) → IsSorted done → IsSorted (sort_into done es)
unfolding sort_into
sort_into-IsSorted done [] h = h
sort_into-IsSorted done (e ∷ es) h =
    sort_into-IsSorted (insert_edit e done) es (insert_edit-IsSorted e done h)

pub sort_edits-IsSorted : (es : List Edit) → IsSorted (sort_edits es)
sort_edits-IsSorted es = sort_into-IsSorted [] es tt

Apart-symm : (e f : Edit) → Apart e f → Apart f e
Apart-symm e f (inl h) = inr h
Apart-symm e f (inr h) = inl h

insert_edit-Apart :
    (e : Edit) (es : List Edit)
    → All (Apart e) es
    → EachPair Apart es
    → EachPair Apart (insert_edit e es)
unfolding insert_edit
insert_edit-Apart e [] h hs = (tt, tt)
insert_edit-Apart e (f ∷ fs) (hf, h) (kf, ks) = elim (Bool-cases (ltb e.start f.start)) [
  | inl before ↦ rw before ((hf, h), (kf, ks))
  | inr behind ↦
      rw behind (All-insert_edit (Apart f) e fs (Apart-symm e f hf) kf, insert_edit-Apart e fs h ks)
]

-- Every edit of the first list is apart from every edit of the second.
abbrev AllApart : List Edit → List Edit → Type 0
AllApart done es = All (λ e. All (Apart e) done) es

AllApart-insert_edit :
    (e : Edit) (done es : List Edit)
    → All (Apart e) es
    → AllApart done es
    → AllApart (insert_edit e done) es
AllApart-insert_edit e done [] h hs = tt
AllApart-insert_edit e done (f ∷ fs) (hf, h) (kf, ks) =
    (All-insert_edit (Apart f) e done (Apart-symm e f hf) kf, AllApart-insert_edit e done fs h ks)

sort_into-Apart :
    (done es : List Edit)
    → EachPair Apart done
    → AllApart done es
    → EachPair Apart es
    → EachPair Apart (sort_into done es)
unfolding sort_into
sort_into-Apart done [] h k l = h
sort_into-Apart done (e ∷ es) h (ke, k) (le, l) =
    sort_into-Apart (insert_edit e done) es (insert_edit-Apart e done ke h)
      (AllApart-insert_edit e done es le k) l

AllApart-nil : (es : List Edit) → AllApart [] es
AllApart-nil [] = tt
AllApart-nil (e ∷ es) = (tt, AllApart-nil es)

-- Sorting keeps the edits apart.
pub sort_edits-Apart : (es : List Edit) → EachPair Apart es → EachPair Apart (sort_edits es)
sort_edits-Apart es h = sort_into-Apart [] es tt (AllApart-nil es) h
