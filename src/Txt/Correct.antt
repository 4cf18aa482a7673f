-- ===== src/Txt/Correct.antt =====
-- The plain-text corrector as a whole.
use checkdigit.Common.{
  ◌≡◌, inl, Bool, true, List, [], ◌∷◌, arith, Str, All, EachPair, All-imp, length, Option, some, ok,
  >>=-eq-ok, length-matches,
}
use checkdigit.Grouped.{Item}
use checkdigit.Grouped.Apply.{
  Anchored, ItemsApart, correct_grouped-total, correct_grouped-report, change_edits,
}
use checkdigit.Grouped.Evaluate.{evaluate_all-total, evaluate_all-All, evaluate_all-EachPair}
use checkdigit.Kernel.Decide.{Registry}
use checkdigit.Kernel.Router.Verdicts.{AcceptsPolicy}
use checkdigit.Kernel.Types.{OwnerPolicy, is_owner_policy, bic_like}
use checkdigit.Policy.{Policy}
use checkdigit.Report.{CorrectionReport}
use checkdigit.Substitution.{apply_edits}
use checkdigit.Txt.{context_of, locate_equipment, evaluate_text, correct_txt}
use checkdigit.Txt.Locate.{IsToken, RefBefore, locate_equipment_sound}

pub token-Anchored : (text : Str) (x : Item) → IsToken text x.0 → Anchored text x
token-Anchored text x (stands, shape) =
    let long : length x.0.eqid ≡ 11 = length-matches bic_like x.0.eqid shape in
    (rw long stands, omega arith)

module _ (text : Str) where
  -- Both are tokens of the text, and the first ends before the second begins.
  abbrev TokenBefore : Item → Item → Type 0
  TokenBefore x y = IsToken text x.0 × RefBefore x.0 y.0

  pub tokens_before :
      (xs : List Item)
      → All (λ x. IsToken text x.0) xs
      → EachPair (λ x y. RefBefore x.0 y.0) xs
      → EachPair ItemsApart xs
  tokens_before [] h k = tt
  tokens_before (x ∷ xs) ((stands, shape), hs) (k, ks) =
      let long : length x.0.eqid ≡ 11 = length-matches bic_like x.0.eqid shape in
      (
        All-imp (λ y. RefBefore x.0 y.0) (ItemsApart x) xs
            (λ y (b : RefBefore x.0 y.0). inl (omega arith)) k,
        tokens_before xs hs ks,
      )

module _ (text : Str) (trust : Bool) (owner_policy : OwnerPolicy) (known : Registry)
    (policy : Option Policy) where
  evaluate_text-total :
      is_owner_policy owner_policy ≡ true
      → AcceptsPolicy owner_policy policy
      → (items : List Item) × (evaluate_text text trust owner_policy known policy ≡ ok items)
        × All (Anchored text) items
        × EachPair ItemsApart items
  unfolding evaluate_text
  evaluate_text-total accepted accepts =
      let context = context_of trust in
      let refs = locate_equipment text in
      let (tokens, before) = locate_equipment_sound text in
      let (items, e) = evaluate_all-total context known owner_policy policy refs accepts in
      let on_tokens =
        evaluate_all-All context known owner_policy policy (IsToken text) refs tokens e in
      let apart = evaluate_all-EachPair context known owner_policy policy RefBefore refs before e in
      (
        items,
        rw accepted e,
        All-imp (λ x. IsToken text x.0) (Anchored text) items (token-Anchored text) on_tokens,
        tokens_before text items on_tokens apart,
      )

  -- With an accepted owner policy and, where a policy is given, a constructed one, `correct_txt`
  -- returns a report for every text; it raises no exception.
  pub correct_txt-total :
      is_owner_policy owner_policy ≡ true
      → AcceptsPolicy owner_policy policy
      → (report : CorrectionReport) × (correct_txt text trust owner_policy known policy ≡ ok report)
  unfolding correct_txt
  correct_txt-total accepted accepts =
      let (items, e, here, apart) = evaluate_text-total accepted accepts in
      let (report, f) = correct_grouped-total text owner_policy items here apart in (report, rw e f)

  -- The report of `correct_txt` tells the whole change: its corrected text is the source with
  -- exactly the occurrences that it lists replaced, each by its `after`.
  pub correct_txt-report :
      {report : CorrectionReport}
      → correct_txt text trust owner_policy known policy ≡ ok report
      → (out : Str) × (report.corrected_text ≡ some out)
        × (apply_edits text (change_edits report.corrected) ≡ ok out)
  unfolding correct_txt
  correct_txt-report h =
      let (items, _, f) = >>=-eq-ok (evaluate_text text trust owner_policy known policy) _ h in
      correct_grouped-report text owner_policy items f
