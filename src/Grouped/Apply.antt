-- ===== src/Grouped/Apply.antt =====
-- When the grouped corrector returns a report, and what the report says of the corrected text.
use checkdigit.Common.{
  ◌≡◌, inl, inr, refl, sym, ap, ◌∙◌, List, [], ◌∷◌, ◌++◌, map, append_assoc, append-nil, Str, All,
  EachPair, All-Omits, EachPair-Omits, All-map, EachPair-map, some, Result, ok, ◌>>=◌, >>=-eq-ok,
  ok_injective,
}
use checkdigit.Grouped.{
  Item, Group, Tally, empty_tally, by_status, tally_group, tally_groups, group_items, edit_of,
  occurrence_of, correct_grouped, report_of, change_of,
}
use checkdigit.Grouped.Edits.{
  items_of, group_items-Keyed, group_items-All, grouped-EachPair, item_edit, edits_of,
  tally_groups-edits, edits_of-Omits,
}
use checkdigit.Kernel.Types.{
  Status, valid, corrected, flagged, not_a_target, invalid_structure, OwnerPolicy,
}
use checkdigit.Report.{Occurrence, Change, CorrectionReport}
use checkdigit.Substitution.{Edit, apply_edits}
use checkdigit.Substitution.Order.{Apart}
use checkdigit.Substitution.Total.{Verified, apply_edits-total}

-- The item's token stands at its offset.
abbrev pub Anchored : Str → Item → Type 0
Anchored text x = Verified text (item_edit x)

abbrev pub ItemsApart : Item → Item → Type 0
ItemsApart x y = Apart (item_edit x) (item_edit y)

ItemsApart-symm : (x y : Item) → ItemsApart x y → ItemsApart y x
ItemsApart-symm x y (inl h) = inr h
ItemsApart-symm x y (inr h) = inl h

-- Tokens that stand at their offsets and apart from one another make edits that all apply: the
-- corrector returns a report.
pub correct_grouped-total :
    (text : Str) (owner_policy : OwnerPolicy) (pairs : List Item)
    → All (Anchored text) pairs
    → EachPair ItemsApart pairs
    → (report : CorrectionReport) × (correct_grouped text owner_policy pairs ≡ ok report)
unfolding correct_grouped
correct_grouped-total text owner_policy pairs here apart =
    let groups = group_items pairs [] in
    let keyed = group_items-Keyed pairs [] tt in
    let edits = (tally_groups groups empty_tally).edits in
    let omits = edits_of-Omits groups keyed in
    let all : All (Verified text) (edits_of groups) = All-Omits (Verified text) omits (
      All-map item_edit (Verified text) (items_of groups)
        (group_items-All (Anchored text) pairs [] tt here)) in
    let each : EachPair Apart (edits_of groups) = EachPair-Omits Apart omits (
      EachPair-map item_edit Apart (items_of groups)
        (grouped-EachPair ItemsApart ItemsApart-symm pairs apart)) in
    let is : edits ≡ edits_of groups = tally_groups-edits groups empty_tally in
    let (out, e) = apply_edits-total text (edits_of groups) all each in
    (
      report_of owner_policy pairs out,
      ap (λ (m : Result Str). m >>= λ s. ok (report_of owner_policy pairs s))
          (ap (apply_edits text) is ∙ e),
    )

-- The edits that a report lists: one for each occurrence of each change.
abbrev pub occurrence_edit : Occurrence → Edit
occurrence_edit o = record { start = o.offset; old = o.before; new = o.after }

abbrev pub change_edits : List Change → List Edit
change_edits [] = []
change_edits (c ∷ cs) = map occurrence_edit c.occurrences ++ change_edits cs

change_edits-append :
    (cs ds : List Change) → change_edits (cs ++ ds) ≡ change_edits cs ++ change_edits ds
change_edits-append [] ds = refl
change_edits-append (c ∷ cs) ds =
    ap (λ (es : List Edit). map occurrence_edit c.occurrences ++ es) (change_edits-append cs ds)
    ∙ sym (append_assoc (map occurrence_edit c.occurrences) (change_edits cs) (change_edits ds))

map-occurrence_of :
    (k : Str) (xs : List Item) → map occurrence_edit (map (occurrence_of k) xs) ≡ map (edit_of k) xs
map-occurrence_of k [] = refl
map-occurrence_of k ((ref, r) ∷ xs) = ap (◌∷◌ (edit_of k (ref, r))) (map-occurrence_of k xs)

module _ (k : Str) (x : Item) (xs : List Item) (t : Tally) where
  listed :
      t.edits ≡ change_edits t.changes
      → t.edits ++ map (edit_of k) xs ≡ change_edits (t.changes ++ change_of k x xs ∷ [])
  listed h =
      ap (λ (es : List Edit). es ++ map (edit_of k) xs) h
      ∙ ap (λ (es : List Edit). change_edits t.changes ++ es)
          (sym (map-occurrence_of k xs) ∙ sym (append-nil _))
      ∙ sym (change_edits-append t.changes (change_of k x xs ∷ []))

by_status_listed :
    (s : Status) (k : Str) (x : Item) (xs : List Item) (t : Tally)
    → t.edits ≡ change_edits t.changes
    → (by_status s k x xs t).edits ≡ change_edits (by_status s k x xs t).changes
unfolding by_status
by_status_listed valid k x xs t h = h
by_status_listed invalid_structure k x xs t h = h
by_status_listed flagged k (ref, r) xs t h = h
by_status_listed corrected k x xs t h = listed k x xs t h
by_status_listed not_a_target k x xs t h = listed k x xs t h

tally_groups_listed :
    (gs : List Group) (t : Tally)
    → t.edits ≡ change_edits t.changes
    → (tally_groups gs t).edits ≡ change_edits (tally_groups gs t).changes
unfolding tally_groups tally_group
tally_groups_listed [] t h = h
tally_groups_listed ((k, []) ∷ gs) t h = tally_groups_listed gs t h
tally_groups_listed ((k, x ∷ xs) ∷ gs) t h =
    tally_groups_listed gs (by_status x.1.status k x (x ∷ xs) t)
      (by_status_listed x.1.status k x (x ∷ xs) t h)

-- The report tells the whole change: its corrected text is the source with exactly the listed
-- occurrences replaced, each by its `after`.
pub correct_grouped-report :
    (text : Str) (owner_policy : OwnerPolicy) (pairs : List Item) {report : CorrectionReport}
    → correct_grouped text owner_policy pairs ≡ ok report
    → (out : Str) × (report.corrected_text ≡ some out)
      × (apply_edits text (change_edits report.corrected) ≡ ok out)
unfolding correct_grouped
correct_grouped-report text owner_policy pairs h =
    let t = tally_groups (group_items pairs []) empty_tally in
    let (out, e, f) = >>=-eq-ok (apply_edits text t.edits) _ h in
    let is = ok_injective (sym f) in
    (
      out,
      ap (λ (r : CorrectionReport). r.corrected_text) is,
      ap (λ (r : CorrectionReport). apply_edits text (change_edits r.corrected)) is
          ∙ ap (apply_edits text)
              (sym (tally_groups_listed (group_items pairs []) empty_tally refl))
          ∙ e,
    )
