-- ===== src/Grouped/Evaluate.antt =====
-- The evaluation loop of the locators: one verdict for each reference.
use mathlib.Core.Path.{subst}
use checkdigit.Common.{
  ◌≡◌, refl, sym, List, [], ◌∷◌, Option, All, EachPair, Result, ok, ◌>>=◌, >>=-eq-ok, ok_injective,
}
use checkdigit.Grouped.{Located, Item}
use checkdigit.Kernel.Decide.{Registry}
use checkdigit.Kernel.Router.{correct_identifier}
use checkdigit.Kernel.Router.Verdicts.{AcceptsPolicy, correct_identifier-total}
use checkdigit.Kernel.Types.{FieldContext, OwnerPolicy}
use checkdigit.Policy.{Policy}

module _ (context : FieldContext) (known : Registry) (owner_policy : OwnerPolicy)
    (policy : Option Policy) where
  unfoldable pub evaluate_all : List Located → Result (List Item)
  evaluate_all [] = ok []
  evaluate_all (ref ∷ refs) = do
    r ← correct_identifier ref.eqid context known owner_policy policy
    rest ← evaluate_all refs
    ok ((ref, r) ∷ rest)

  -- The verdict of an item is that of its token.
  abbrev pub Judged : Item → Type 0
  Judged x = correct_identifier x.0.eqid context known owner_policy policy ≡ ok x.1

  pub evaluate_all-total :
      (refs : List Located)
      → AcceptsPolicy owner_policy policy
      → (items : List Item) × (evaluate_all refs ≡ ok items)
  unfolding evaluate_all
  evaluate_all-total [] h = ([], refl)
  evaluate_all-total (ref ∷ refs) h =
      let (r, e) = correct_identifier-total ref.eqid context known owner_policy policy h in
      let (items, f) = evaluate_all-total refs h in ((ref, r) ∷ items, rw (e, f) refl)

  evaluate_all-nil : {items : List Item} → evaluate_all [] ≡ ok items → [] ≡ items
  unfolding evaluate_all
  evaluate_all-nil h = ok_injective h

  evaluate_all-cons :
      (ref : Located) (refs : List Located) {items : List Item}
      → evaluate_all (ref ∷ refs) ≡ ok items
      → (x : Item) × (rest : List Item) × (items ≡ x ∷ rest)
        × (x.0 ≡ ref)
        × Judged x
        × (evaluate_all refs ≡ ok rest)
  unfolding evaluate_all
  evaluate_all-cons ref refs h =
      let (r, e, k) =
        >>=-eq-ok (correct_identifier ref.eqid context known owner_policy policy) _ h in
      let (rest, f, l) = >>=-eq-ok (evaluate_all refs) _ k in
      ((ref, r), rest, ok_injective (sym l), refl, e, f)

  pub evaluate_all-Judged :
      (refs : List Located) {items : List Item} → evaluate_all refs ≡ ok items → All Judged items
  evaluate_all-Judged [] {items} h = subst (All Judged) (evaluate_all-nil h) tt
  evaluate_all-Judged (ref ∷ refs) {items} h =
      let (x, rest, is, _, judged, k) = evaluate_all-cons ref refs h in
      subst (All Judged) (sym is) (judged, evaluate_all-Judged refs k)

  -- What holds of the references holds of the items' references.
  pub evaluate_all-All :
      (P : Located → Type 0) (refs : List Located) {items : List Item}
      → All P refs
      → evaluate_all refs ≡ ok items
      → All (λ x. P x.0) items
  evaluate_all-All P [] {items} p h = subst (All (λ x. P x.0)) (evaluate_all-nil h) tt
  evaluate_all-All P (ref ∷ refs) {items} (p, ps) h =
      let (x, rest, is, same, _, k) = evaluate_all-cons ref refs h in
      subst (All (λ x. P x.0)) (sym is) (subst P (sym same) p, evaluate_all-All P refs ps k)

  pub evaluate_all-EachPair :
      (R : Located → Located → Type 0) (refs : List Located) {items : List Item}
      → EachPair R refs
      → evaluate_all refs ≡ ok items
      → EachPair (λ x y. R x.0 y.0) items
  evaluate_all-EachPair R [] {items} p h =
      subst (EachPair (λ x y. R x.0 y.0)) (evaluate_all-nil h) tt
  evaluate_all-EachPair R (ref ∷ refs) {items} (p, ps) h =
      let (x, rest, is, same, _, k) = evaluate_all-cons ref refs h in
      subst (EachPair (λ x y. R x.0 y.0)) (sym is) (
        subst (λ a. All (λ y. R a y.0) rest) (sym same) (evaluate_all-All (R ref) refs p k),
        evaluate_all-EachPair R refs ps k,
      )
