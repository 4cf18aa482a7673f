-- ===== src/Grouped/Edits.antt =====
-- The edits of the grouped corrector: they are among the located spans, so what holds of the
-- spans holds of the edits.
use mathlib.Core.Path.{subst}
use mathlib.Core.List.{map-append}
use checkdigit.Common.{
  ◌≡◌, inl, inr, refl, sym, ap, ◌∙◌, List, [], ◌∷◌, ◌++◌, map, append_assoc, append-nil, Str,
  str_eq, str_eq_iff, Bool-cases, All, EachPair, Inserted, here, All-Inserted, EachPair-Inserted,
  Inserted-front, Inserted-behind, Omits, nil, Omits-refl, Omits-append, Omits-none, All-append,
}
use checkdigit.Grouped.{
  Item, Group, Tally, empty_tally, by_status, add_item, group_items, edit_of, tally_group,
  tally_groups, empty_tally,
}
use checkdigit.Kernel.Types.{Status, valid, corrected, flagged, not_a_target, invalid_structure}
use checkdigit.Substitution.{Edit}

abbrev pub items_of : List Group → List Item
items_of [] = []
items_of ((k, xs) ∷ gs) = xs ++ items_of gs

-- Every item stands in the group of its token.
abbrev pub Keyed : List Group → Type 0
Keyed [] = Unit
Keyed ((k, xs) ∷ gs) = All (λ x. x.0.eqid ≡ k) xs × Keyed gs

add_item-Inserted :
    (x : Item) (gs : List Group) → Inserted x (items_of gs) (items_of (add_item x gs))
unfolding add_item
add_item-Inserted x [] = here
add_item-Inserted x ((k, xs) ∷ gs) = elim (Bool-cases (str_eq k x.0.eqid)) [
  | inl same ↦ rw same (Inserted-front x xs (items_of gs))
  | inr other ↦ rw other (Inserted-behind xs (add_item-Inserted x gs))
]

add_item-Keyed : (x : Item) (gs : List Group) → Keyed gs → Keyed (add_item x gs)
unfolding add_item
add_item-Keyed x [] h = ((refl, tt), tt)
add_item-Keyed x ((k, xs) ∷ gs) (h, hs) = elim (Bool-cases (str_eq k x.0.eqid)) [
  | inl same ↦
      let e = (str_eq_iff k x.0.eqid).0 same in
      rw same (All-append (λ y. y.0.eqid ≡ k) xs (x ∷ []) h (sym e, tt), hs)
  | inr other ↦ rw other (h, add_item-Keyed x gs hs)
]

pub group_items-Keyed : (xs : List Item) (gs : List Group) → Keyed gs → Keyed (group_items xs gs)
unfolding group_items
group_items-Keyed [] gs h = h
group_items-Keyed (x ∷ xs) gs h = group_items-Keyed xs (add_item x gs) (add_item-Keyed x gs h)

module _ (P : Item → Type 0) where
  pub group_items-All :
      (xs : List Item) (gs : List Group)
      → All P (items_of gs)
      → All P xs
      → All P (items_of (group_items xs gs))
  unfolding group_items
  group_items-All [] gs h hs = h
  group_items-All (x ∷ xs) gs h (k, ks) =
      group_items-All xs (add_item x gs) (All-Inserted P (add_item-Inserted x gs) k h) ks

-- Every item of the first list is related to every item of the second.
abbrev Across : (Item → Item → Type 0) → List Item → List Item → Type 0
Across R xs ys = All (λ y. All (R y) xs) ys

module _ (R : Item → Item → Type 0) (symm : (x y : Item) → R x y → R y x) where
  Across-Inserted :
      (x : Item) {xs ys : List Item} (zs : List Item)
      → Inserted x xs ys
      → All (R x) zs
      → Across R xs zs
      → Across R ys zs
  Across-Inserted x [] i h hs = tt
  Across-Inserted x (z ∷ zs) i (h, hs) (k, ks) =
      (All-Inserted (R z) i (symm x z h) k, Across-Inserted x zs i hs ks)

  group_items-EachPair :
      (xs : List Item) (gs : List Group)
      → EachPair R (items_of gs)
      → Across R (items_of gs) xs
      → EachPair R xs
      → EachPair R (items_of (group_items xs gs))
  unfolding group_items
  group_items-EachPair [] gs h a hs = h
  group_items-EachPair (x ∷ xs) gs h (a, as') (k, ks) =
      let i = add_item-Inserted x gs in
      group_items-EachPair xs (add_item x gs) (EachPair-Inserted R symm i a h)
        (Across-Inserted x xs i k as') ks

  Across-none : (xs : List Item) → Across R [] xs
  Across-none [] = tt
  Across-none (x ∷ xs) = (tt, Across-none xs)

  -- Grouping keeps a symmetric relation between the items.
  pub grouped-EachPair :
      (xs : List Item) → EachPair R xs → EachPair R (items_of (group_items xs []))
  grouped-EachPair xs h = group_items-EachPair xs [] tt (Across-none xs) h

-- The edit of an item, by its own token
abbrev pub item_edit : Item → Edit
item_edit x = edit_of x.0.eqid x

map-edit_of :
    (k : Str) (xs : List Item) → All (λ x. x.0.eqid ≡ k) xs → map (edit_of k) xs ≡ map item_edit xs
map-edit_of k [] h = refl
map-edit_of k (x ∷ xs) (h, hs) = rw (h, map-edit_of k xs hs)

-- The edits that the loop adds for a group
abbrev added : Status → Str → Item → List Item → List Edit
added s k x xs = (by_status s k x xs empty_tally).edits

by_status-edits :
    (s : Status) (k : Str) (x : Item) (xs : List Item) (t : Tally)
    → (by_status s k x xs t).edits ≡ t.edits ++ added s k x xs
unfolding by_status
by_status-edits valid k x xs t = sym (append-nil t.edits)
by_status-edits invalid_structure k x xs t = sym (append-nil t.edits)
by_status-edits flagged k x xs t = sym (append-nil t.edits)
by_status-edits corrected k x xs t = refl
by_status-edits not_a_target k x xs t = refl

added-Omits :
    (s : Status) (k : Str) (x : Item) (xs : List Item) → Omits (added s k x xs) (map (edit_of k) xs)
unfolding by_status
added-Omits valid k x xs = Omits-none (map (edit_of k) xs)
added-Omits invalid_structure k x xs = Omits-none (map (edit_of k) xs)
added-Omits flagged k x xs = Omits-none (map (edit_of k) xs)
added-Omits corrected k x xs = Omits-refl (map (edit_of k) xs)
added-Omits not_a_target k x xs = Omits-refl (map (edit_of k) xs)

pub edits_of : List Group → List Edit
edits_of [] = []
edits_of ((k, []) ∷ gs) = edits_of gs
edits_of ((k, x ∷ xs) ∷ gs) = added x.1.status k x (x ∷ xs) ++ edits_of gs

pub tally_groups-edits :
    (gs : List Group) (t : Tally) → (tally_groups gs t).edits ≡ t.edits ++ edits_of gs
unfolding tally_groups tally_group edits_of
tally_groups-edits [] t = sym (append-nil t.edits)
tally_groups-edits ((k, []) ∷ gs) t = tally_groups-edits gs t
tally_groups-edits ((k, x ∷ xs) ∷ gs) t =
    tally_groups-edits gs (by_status x.1.status k x (x ∷ xs) t)
    ∙ ap (λ (es : List Edit). es ++ edits_of gs) (by_status-edits x.1.status k x (x ∷ xs) t)
    ∙ append_assoc t.edits (added x.1.status k x (x ∷ xs)) (edits_of gs)

-- The edits are edits of the items, some of them left out.
pub edits_of-Omits :
    (gs : List Group) → Keyed gs → Omits (edits_of gs) (map item_edit (items_of gs))
unfolding edits_of
edits_of-Omits [] h = nil
edits_of-Omits ((k, []) ∷ gs) (h, hs) = edits_of-Omits gs hs
edits_of-Omits ((k, x ∷ xs) ∷ gs) (h, hs) = rw (map-append item_edit (x ∷ xs) (items_of gs)) (
    Omits-append
      (subst (λ (es : List Edit). Omits (added x.1.status k x (x ∷ xs)) es)
        (map-edit_of k (x ∷ xs) h) (added-Omits x.1.status k x (x ∷ xs)))
      (edits_of-Omits gs hs))
