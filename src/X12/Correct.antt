-- ===== src/X12/Correct.antt =====
-- The X12 corrector as a whole.
use mathlib.Core.Path.{subst}
use checkdigit.Common.{
  ℕ, ◌+◌, ◌≤◌, ◌≡◌, refl, sym, ap, ◌∙◌, Bool, true, false, List, [], ◌∷◌, map, arith, length, Str,
  All, EachPair, All-imp, Option, some, none, Result, ok, ok_injective, if◌then◌else◌, matches, ◌≢◌,
}
use checkdigit.Kernel.Normalize.{normalize, upper, strip_separators}
use checkdigit.Kernel.Router.{correct_identifier, route, force_flag, no_structure_result}
use checkdigit.Kernel.Router.Verdicts.{
  AcceptsPolicy, correct_identifier-eq-ok, correct_identifier-total, correct_plain-route,
  correct_plain-accepted, is_denied, effective_policy, effective_registry,
}
use checkdigit.Kernel.Types.{
  Status, valid, corrected, flagged, not_a_target, invalid_structure, CorrectionResult, OwnerPolicy,
  is_owner_policy, equipment_id,
}
use checkdigit.Kernel.X12.Laws.{correct_x12_equipment-total}
use checkdigit.Policy.{Policy}
use checkdigit.Report.{or_empty}
use checkdigit.Substitution.{apply_edits}
use checkdigit.Substitution.Ordered.{
  Found, Follows, IsOrdered, IsOrdered-later, IsOrdered-snoc, apply_edits-ordered,
}
use checkdigit.X12.{CharTests, Kind, n7, n9_eq, X12Ref, locate_equipment, detect_delims}
use checkdigit.X12.Corrector.{
  Item, transmitted, judge, judge_all, evaluate_text, Tally, empty_tally, tally_corrected,
  target_offset, by_status, tally_all, report_of, correct_x12,
}
use checkdigit.X12.Located.{Fits, RefBefore, IsLocated, locate_equipment-IsLocated}

-- An empty token is no identifier.
empty_token :
    (policy : Option Policy) (owner_policy : OwnerPolicy) {r : CorrectionResult}
    → correct_identifier [] equipment_id none owner_policy policy ≡ ok r
    → r.status ≡ invalid_structure
unfolding route normalize upper strip_separators force_flag matches
empty_token policy owner_policy {r} h =
    let (base, e, f) = correct_identifier-eq-ok [] equipment_id none owner_policy policy h in
    let known = effective_registry [] none policy in
    let accepted' = effective_policy [] owner_policy policy in
    let accepted = correct_plain-accepted [] equipment_id known accepted' e in
    let is : no_structure_result [] [] ≡ base =
      ok_injective (sym (correct_plain-route [] equipment_id known accepted' accepted) ∙ e) in
    let same : r ≡ (
        if is_denied [] policy
        then force_flag [] (no_structure_result [] [])
        else no_structure_result [] []) =
      f
      ∙ ap (λ (x : CorrectionResult). if is_denied [] policy then force_flag [] x else x)
          (sym is) in
    invalid (is_denied [] policy) same
  where
    invalid :
        (denied : Bool)
        → r ≡ (
            if denied then force_flag [] (no_structure_result [] []) else no_structure_result [] [])
        → r.status ≡ invalid_structure
    invalid true e = ap (λ (x : CorrectionResult). x.status) e
    invalid false e = ap (λ (x : CorrectionResult). x.status) e

-- A reference with nowhere to write is a flagged N7 or an invalid token.
abbrev Sure : Kind → Option ℕ → Status → Type 0
Sure n7 offset s = Unit
Sure n9_eq (some o) s = Unit
Sure n9_eq none s = s ≡ invalid_structure

module _ (text : Str) (owner_policy : OwnerPolicy) (policy : Option Policy) where
  judge-Sure :
      (kind : Kind) (offset : Option ℕ) (ref : X12Ref) {r : CorrectionResult}
      → Fits text ref kind offset
      → judge kind ref owner_policy policy ≡ ok r
      → Sure kind offset r.status
  unfolding judge
  judge-Sure n7 offset ref fits h = tt
  judge-Sure n9_eq (some o) ref fits h = tt
  judge-Sure n9_eq none ref fits h = empty_token policy owner_policy (rw fits at h)

  judge-total :
      (kind : Kind) (ref : X12Ref)
      → AcceptsPolicy owner_policy policy
      → (r : CorrectionResult) × (judge kind ref owner_policy policy ≡ ok r)
  unfolding judge
  judge-total n7 ref h =
      correct_x12_equipment-total (or_empty ref.initial) (or_empty ref.number)
        (transmitted ref.check_value) none policy
  judge-total n9_eq ref h =
      correct_identifier-total (or_empty ref.token) equipment_id none owner_policy policy h

  abbrev Ready : Item → Type 0
  Ready x = IsLocated text x.0 × Sure (x.0.kind) (target_offset x.0) (x.1.status)

  abbrev ItemBefore : Item → Item → Type 0
  ItemBefore x y = RefBefore x.0 y.0

  judge_all-total :
      (refs : List X12Ref)
      → AcceptsPolicy owner_policy policy
      → All (IsLocated text) refs
      → (items : List Item) × (judge_all owner_policy policy refs ≡ ok items)
        × All Ready items
        × (map (λ (x : Item). x.0) items ≡ refs)
  unfolding judge_all
  judge_all-total [] h l = ([], refl, tt, refl)
  judge_all-total (ref ∷ refs) h (l, ls) =
      let (r, e) = judge-total ref.kind ref h in
      let (items, f, ready, same) = judge_all-total refs h ls in
      (
        (ref, r) ∷ items,
        rw (e, f) refl,
        ((l, judge-Sure ref.kind (target_offset ref) ref l e), ready),
        ap (λ (xs : List X12Ref). ref ∷ xs) same,
      )

All-of_map {ℓ κ} :
    {A : Type ℓ} {B : Type κ} (P : B → Type 0) (f : A → B) (xs : List A)
    → All P (map f xs)
    → All (λ x. P (f x)) xs
All-of_map P f [] h = tt
All-of_map P f (x ∷ xs) (h, hs) = (h, All-of_map P f xs hs)

EachPair-of_map {ℓ κ} :
    {A : Type ℓ} {B : Type κ} (R : B → B → Type 0) (f : A → B) (xs : List A)
    → EachPair R (map f xs)
    → EachPair (λ x y. R (f x) (f y)) xs
EachPair-of_map R f [] h = tt
EachPair-of_map R f (x ∷ xs) (h, hs) = (All-of_map (R (f x)) f xs h, EachPair-of_map R f xs hs)

-- The bound behind a reference's segment
abbrev past : X12Ref → ℕ
past ref = ref.seg_start + length ref.raw_segment

module _ (tests : CharTests) (text : Str) (ele : ℕ) where
  -- A step of the loop goes well: its edit lies in the reference's segment.
  abbrev StepsTo : X12Ref → Result Tally → Type 0
  StepsTo ref out = (t' : Tally) × (out ≡ ok t') × IsOrdered text (past ref) t'.edits

  tally_corrected-IsOrdered :
      (kind : Kind) (offset : Option ℕ) (ref : X12Ref) (r : CorrectionResult) (t : Tally)
      (s : Status)
      → Fits text ref kind offset
      → Sure kind offset s
      → s ≢ invalid_structure
      → IsOrdered text ref.seg_start t.edits
      → StepsTo ref (tally_corrected tests ele kind offset ref r t)
  unfolding tally_corrected
  tally_corrected-IsOrdered n7 none ref r t s fits sure other h =
      (_, refl, IsOrdered-later text ref.seg_start (past ref) t.edits (omega arith) h)
  tally_corrected-IsOrdered n9_eq none ref r t s fits sure other h = elim (other sure) [ ]
  tally_corrected-IsOrdered n7 (some o) ref r t s (at_o, from, to) sure other h =
      (_, refl, IsOrdered-snoc text ref.seg_start (past ref) t.edits (omega arith) h _ at_o from to)
  tally_corrected-IsOrdered n9_eq (some o) ref r t s (at_o, from, to) sure other h =
      (_, refl, IsOrdered-snoc text ref.seg_start (past ref) t.edits (omega arith) h _ at_o from to)

  by_status-IsOrdered :
      (s : Status) (x : Item) (t : Tally)
      → Fits text x.0 (x.0.kind) (target_offset x.0)
      → Sure (x.0.kind) (target_offset x.0) s
      → IsOrdered text x.0.seg_start t.edits
      → StepsTo x.0 (by_status tests ele s x t)
  unfolding by_status
  by_status-IsOrdered valid (ref, r) t fits sure h =
      (_, refl, IsOrdered-later text ref.seg_start (past ref) t.edits (omega arith) h)
  by_status-IsOrdered invalid_structure (ref, r) t fits sure h =
      (_, refl, IsOrdered-later text ref.seg_start (past ref) t.edits (omega arith) h)
  by_status-IsOrdered flagged (ref, r) t fits sure h =
      (_, refl, IsOrdered-later text ref.seg_start (past ref) t.edits (omega arith) h)
  by_status-IsOrdered corrected (ref, r) t fits sure h =
      tally_corrected-IsOrdered ref.kind (target_offset ref) ref r t corrected fits sure (λ e. cc) h
  by_status-IsOrdered not_a_target (ref, r) t fits sure h =
      tally_corrected-IsOrdered ref.kind (target_offset ref) ref r t not_a_target fits sure
        (λ e. cc) h

  tally_all-IsOrdered :
      (xs : List Item) (b : ℕ) (t : Tally)
      → All (λ x. IsLocated text x.0 × Sure (x.0.kind) (target_offset x.0) (x.1.status)) xs
      → EachPair (λ x y. RefBefore x.0 y.0) xs
      → All (λ x. b ≤ x.0.seg_start) xs
      → IsOrdered text b t.edits
      → (t' : Tally) × (tally_all tests ele xs t ≡ ok t') × (b' : ℕ) × IsOrdered text b' t'.edits
  unfolding tally_all
  tally_all-IsOrdered [] b t ready apart behind h = (t, refl, b, h)
  tally_all-IsOrdered (x ∷ xs) b t ((fits, sure), ready) (before, apart) (from, behind) h =
      let (t1, e, h1) =
        by_status-IsOrdered (x.1.status) x t fits sure
          (IsOrdered-later text b (x.0.seg_start) t.edits from h) in
      let after : All (λ y. past x.0 ≤ y.0.seg_start) xs =
        All-imp (λ y. RefBefore x.0 y.0) (λ y. past x.0 ≤ y.0.seg_start) xs
          (λ y (k : RefBefore x.0 y.0). omega arith) before in
      let (t2, f, b2, h2) = tally_all-IsOrdered xs (past x.0) t1 ready apart after h1 in
      (t2, rw e f, b2, h2)

All-any : {A : Type 0} (P : A → Type 0) (xs : List A) → ((x : A) → P x) → All P xs
All-any P [] h = tt
All-any P (x ∷ xs) h = (h x, All-any P xs h)

module _ (tests : CharTests) (text : Str) (owner_policy : OwnerPolicy)
    (policy : Option Policy) where
  -- A run of `correct_x12` to its end: every reference gets its result, the edits of the loop are
  -- found where they say and stand in the order of the text, and the report has the text with them.
  abbrev pub Succeeds : Type 0
  Succeeds =
      (pairs : List Item) × (t : Tally) × (out : Str) × (evaluate_text tests text owner_policy
          policy
        ≡ ok pairs)
      × (map (λ (x : Item). x.0) pairs ≡ locate_equipment tests text)
      × (tally_all tests (detect_delims tests text).element pairs empty_tally ≡ ok t)
      × All (Found text) t.edits
      × EachPair Follows t.edits
      × (apply_edits text t.edits ≡ ok out)
      × (correct_x12 tests text owner_policy policy ≡ ok (report_of owner_policy pairs t out))

  -- With an accepted owner policy and, where a policy is given, a constructed one, `correct_x12`
  -- returns a report for every text: each reference that is located gets a result, every corrected
  -- one has a place to write, and the edits are found in the text and lie in its order.
  pub correct_x12-total :
      is_owner_policy owner_policy ≡ true → AcceptsPolicy owner_policy policy → Succeeds
  unfolding correct_x12 evaluate_text
  correct_x12-total accepted accepts =
      let ele = (detect_delims tests text).element in
      let (located, _, before) = locate_equipment-IsLocated tests text in
      let refs = locate_equipment tests text in
      let (items, e, ready, same) = judge_all-total text owner_policy policy refs accepts located in
      let apart : EachPair (λ x y. RefBefore x.0 y.0) items =
        EachPair-of_map RefBefore (λ x. x.0) items (subst (EachPair RefBefore) (sym same) before) in
      let none_yet : IsOrdered text 0 [] = record { found = tt; order = tt; below = tt } in
      let (t, f, b, ordered) =
        tally_all-IsOrdered tests text ele items 0 empty_tally ready apart
          (All-any (λ x. 0 ≤ x.0.seg_start) items (λ x. omega arith)) none_yet in
      let (out, g) = apply_edits-ordered text t.edits ordered.found ordered.order in
      (
        items,
        t,
        out,
        rw accepted e,
        same,
        f,
        ordered.found,
        ordered.order,
        g,
        rw (accepted, e, f, g) refl,
      )
