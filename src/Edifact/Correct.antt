-- ===== src/Edifact/Correct.antt =====
-- The EDIFACT corrector as a whole.
use mathlib.Core.Path.{subst}
use checkdigit.Common.{
  EachPair, ℕ, ◌+◌, ◌≤◌, ◌≡◌, inl, inr, refl, sym, ap, ◌∙◌, true, false, List, [], ◌∷◌, arith,
  length, length-append, Str, Option, none, some, Result, ok, >>=-eq-ok, ok_injective, All,
  Bool-cases, str_eq, codes, is_empty, find_at, slice,
}
use checkdigit.Edifact.{EquipmentRef, locate_equipment}
use checkdigit.Edifact.Corrector.{
  Item, judge, judge_all, evaluate_text, Tally, empty_tally, tally_corrected, by_status, tally_item,
  tally_all, report_of, correct_edifact,
}
use checkdigit.Kernel.Types.{
  Status, valid, corrected, flagged, not_a_target, invalid_structure, OwnerPolicy, is_owner_policy,
  CorrectionResult, equipment_id,
}
use checkdigit.Policy.{Policy}
use checkdigit.Report.{Offset, at, minus_one, CorrectionReport}
use checkdigit.Substitution.{apply_edits}
use checkdigit.Substitution.Ordered.{
  Found, Follows, IsOrdered, IsOrdered-later, IsOrdered-snoc, apply_edits-ordered,
}
use checkdigit.Edifact.Refs.{
  IsPlaced, past, RefsFrom, locate_equipment-IsPlaced, locate_equipment-RefsFrom,
}
use checkdigit.Kernel.Router.Verdicts.{AcceptsPolicy, correct_identifier-total}

-- The sum of what the loop has counted
abbrev counted : Tally → ℕ
counted t = length t.changes + length t.flags + t.valid + t.empty + t.invalid

tally_corrected-counted :
    (offset : Option Offset) (ref : EquipmentRef) (r : CorrectionResult) (t : Tally) {t' : Tally}
    → tally_corrected offset ref r t ≡ ok t'
    → counted t' ≡ counted t + 1
unfolding tally_corrected
tally_corrected-counted none ref r t h = absurd (cc)
tally_corrected-counted (some minus_one) ref r t h = absurd (cc)
tally_corrected-counted (some (at offset)) ref r t h =
    ap counted (sym (ok_injective h)) ∙ omega (arith, length-append t.changes _)

by_status-counted :
    (s : Status) (ref : EquipmentRef) (r : CorrectionResult) (t : Tally) {t' : Tally}
    → by_status s ref r t ≡ ok t'
    → counted t' ≡ counted t + 1
unfolding by_status
by_status-counted corrected ref r t h = tally_corrected-counted ref.eqid_offset ref r t h
by_status-counted valid ref r t h = ap counted (sym (ok_injective h)) ∙ omega arith
by_status-counted flagged ref r t h =
    ap counted (sym (ok_injective h)) ∙ omega (arith, length-append t.flags _)
by_status-counted not_a_target ref r t h = ap counted (sym (ok_injective h)) ∙ omega arith
by_status-counted invalid_structure ref r t h = ap counted (sym (ok_injective h)) ∙ omega arith

tally_item-counted :
    (x : Item) (t : Tally) {t' : Tally} → tally_item x t ≡ ok t' → counted t' ≡ counted t + 1
unfolding tally_item
tally_item-counted (ref, none) t h = ap counted (sym (ok_injective h)) ∙ omega arith
tally_item-counted (ref, some r) t h = by_status-counted r.status ref r t h

tally_all-counted :
    (xs : List Item) (t : Tally) {t' : Tally}
    → tally_all xs t ≡ ok t'
    → counted t' ≡ counted t + length xs
unfolding tally_all
tally_all-counted [] t h = ap counted (sym (ok_injective h)) ∙ omega arith
tally_all-counted (x ∷ xs) t h =
    let (t1, e, k) = >>=-eq-ok (tally_item x t) _ h in
    omega (arith, tally_item-counted x t e, tally_all-counted xs t1 k)

-- The id of the reference is found in its segment as it is written there.
abbrev pub IsVerbatim : EquipmentRef → Type 0
IsVerbatim ref = (i : ℕ) × (find_at 0 ref.eqid ref.raw_segment ≡ some i)

module _ (text : Str) where
  -- A place for the reference's edit, in its segment
  abbrev HasPlace : EquipmentRef → Type 0
  HasPlace ref =
      (o : ℕ) × (ref.eqid_offset ≡ some (at o))
      × (ref.seg_start ≤ o)
      × (slice text o (length ref.eqid) ≡ ref.eqid)
      × (o + length ref.eqid ≤ past ref)

  -- The items that have a result have a place, and their segments follow one another.
  abbrev IsReady : ℕ → List Item → Type 0
  IsReady b [] = Unit
  IsReady b ((ref, none) ∷ xs) = (b ≤ ref.seg_start) × IsReady (past ref) xs
  IsReady b ((ref, some r) ∷ xs) = (b ≤ ref.seg_start) × HasPlace ref × IsReady (past ref) xs

  IsReady-weaken : (a b : ℕ) (xs : List Item) → a ≤ b → IsReady b xs → IsReady a xs
  IsReady-weaken a b [] le h = tt
  IsReady-weaken a b ((ref, none) ∷ xs) le (h, hs) = (omega arith, hs)
  IsReady-weaken a b ((ref, some r) ∷ xs) le (h, p, hs) = (omega arith, p, hs)

  verbatim-HasPlace :
      (ref : EquipmentRef)
      → is_empty ref.eqid ≡ false
      → IsPlaced text ref
      → IsVerbatim ref
      → HasPlace ref
  verbatim-HasPlace ref other (inl (empty, _)) v = absurd (let bad = rw empty at other in cc)
  verbatim-HasPlace ref other (inr (inl missed)) (i, found) = absurd (cc)
  verbatim-HasPlace ref other (inr (inr place)) v = place

  module _ (owner_policy : OwnerPolicy) (policy : Option Policy)
      (accepts : AcceptsPolicy owner_policy policy) where
    judge_all-total :
        (refs : List EquipmentRef) (b : ℕ)
        → All (IsPlaced text) refs
        → All IsVerbatim refs
        → RefsFrom b refs
        → (items : List Item) × (judge_all owner_policy policy refs ≡ ok items) × IsReady b items
    unfolding judge_all judge
    judge_all-total [] b p v h = ([], refl, tt)
    judge_all-total (ref ∷ refs) b (p, ps) (v, vs) (h, hs) =
        let (items, e, ready) = judge_all-total refs (past ref) ps vs hs in
        elim (Bool-cases (str_eq ref.qualifier (codes "CN"))) [
          | inr other ↦ (items, rw other e, IsReady-weaken b (past ref) items (omega arith) ready)
          | inl container ↦ elim (Bool-cases (is_empty ref.eqid)) [
            | inl empty ↦ ((ref, none) ∷ items, rw (container, empty, e) refl, (h, ready))
            | inr named ↦
                let (r, f) =
                  correct_identifier-total ref.eqid equipment_id none owner_policy policy accepts in
                (
                  (ref, some r) ∷ items,
                  rw (container, named, f, e) refl,
                  (h, verbatim-HasPlace ref named p v, ready),
                )
          ]
        ]

  -- A step of the loop goes well: its edit lies in the reference's segment.
  abbrev StepsTo : EquipmentRef → Result Tally → Type 0
  StepsTo ref out = (t' : Tally) × (out ≡ ok t') × IsOrdered text (past ref) t'.edits

  module _ (ref : EquipmentRef) (t : Tally) (h : IsOrdered text ref.seg_start t.edits) where
    unchanged : IsOrdered text (past ref) t.edits
    unchanged = IsOrdered-later text ref.seg_start (past ref) t.edits (omega arith) h

    tally_corrected-total :
        (offset : Option Offset) (r : CorrectionResult)
        → ref.eqid_offset ≡ offset
        → HasPlace ref
        → StepsTo ref (tally_corrected offset ref r t)
    unfolding tally_corrected
    tally_corrected-total none r e (o, f, _, _, _) = absurd (cc)
    tally_corrected-total (some minus_one) r e (o, f, _, _, _) = absurd (cc)
    tally_corrected-total (some (at i)) r e (o, f, from, here, to) =
        let same : o ≡ i = cc in
        (
          _,
          refl,
          IsOrdered-snoc text ref.seg_start (past ref) t.edits (omega arith) h _
              (subst (λ j. slice text j (length ref.eqid) ≡ ref.eqid) same here) (omega arith)
              (omega arith),
        )

    by_status-total :
        (s : Status) (r : CorrectionResult) → HasPlace ref → StepsTo ref (by_status s ref r t)
    unfolding by_status
    by_status-total corrected r p = tally_corrected-total ref.eqid_offset r refl p
    by_status-total valid r p = (_, refl, unchanged)
    by_status-total flagged r p = (_, refl, unchanged)
    by_status-total not_a_target r p = (_, refl, unchanged)
    by_status-total invalid_structure r p = (_, refl, unchanged)

  tally_all-total :
      (xs : List Item) (b : ℕ) (t : Tally)
      → IsReady b xs
      → IsOrdered text b t.edits
      → (t' : Tally) × (tally_all xs t ≡ ok t') × (b' : ℕ) × IsOrdered text b' t'.edits
  unfolding tally_all tally_item
  tally_all-total [] b t ready h = (t, refl, b, h)
  tally_all-total ((ref, none) ∷ xs) b t (from, ready) h =
      tally_all-total xs (past ref) (record t { empty = t.empty + 1 }) ready
        (IsOrdered-later text b (past ref) t.edits (omega arith) h)
  tally_all-total ((ref, some r) ∷ xs) b t (from, place, ready) h =
      let (t1, e, h1) =
        by_status-total ref t (IsOrdered-later text b ref.seg_start t.edits from h) r.status r
          place in
      let (t2, f, b2, h2) = tally_all-total xs (past ref) t1 ready h1 in (t2, rw e f, b2, h2)

module _ (text : Str) (owner_policy : OwnerPolicy) (policy : Option Policy) where
  -- Every container of the message is counted once: it is corrected, flagged, valid, without an id,
  -- or of invalid structure.
  pub correct_edifact-counted :
      {report : CorrectionReport}
      → correct_edifact text owner_policy policy ≡ ok report
      → length report.corrected
          + length report.flagged
          + report.valid
          + report.empty_id
          + report.invalid
        ≡ report.total_containers
  unfolding correct_edifact
  correct_edifact-counted h =
      let (pairs, e, k) = >>=-eq-ok (evaluate_text text owner_policy policy) _ h in
      let (t, f, l) = >>=-eq-ok (tally_all pairs empty_tally) _ k in
      let (out, g, m) = >>=-eq-ok (apply_edits text t.edits) _ l in
      let is = ok_injective m in
      ap
        (λ (r : CorrectionReport).
          length r.corrected + length r.flagged + r.valid + r.empty_id + r.invalid)
        (sym is)
      ∙ tally_all-counted pairs empty_tally f
      ∙ omega arith
      ∙ ap (λ (r : CorrectionReport). r.total_containers) is

  -- A run of `correct_edifact` to its end: the edits of the loop are found where they say and stand
  -- in the order of the text, and the report has the text with them.
  abbrev pub Succeeds : Type 0
  Succeeds =
      (pairs : List Item) × (t : Tally) × (out : Str) × (evaluate_text text owner_policy policy
        ≡ ok pairs)
      × (tally_all pairs empty_tally ≡ ok t)
      × All (Found text) t.edits
      × EachPair Follows t.edits
      × (apply_edits text t.edits ≡ ok out)
      × (correct_edifact text owner_policy policy ≡ ok (report_of owner_policy pairs t out))

  -- With an accepted owner policy and, where a policy is given, a constructed one, `correct_edifact`
  -- returns a report for every message in whose segments the ids are found as they are written; its
  -- edits are found in the text and lie in its order.
  pub correct_edifact-total :
      is_owner_policy owner_policy ≡ true
      → AcceptsPolicy owner_policy policy
      → All IsVerbatim (locate_equipment text)
      → Succeeds
  unfolding correct_edifact evaluate_text
  correct_edifact-total accepted accepts verbatim =
      let refs = locate_equipment text in
      let (items, e, ready) =
        judge_all-total text owner_policy policy accepts refs 0 (locate_equipment-IsPlaced text)
          verbatim (locate_equipment-RefsFrom text) in
      let none_yet : IsOrdered text 0 [] = record { found = tt; order = tt; below = tt } in
      let (t, f, b, ordered) = tally_all-total text items 0 empty_tally ready none_yet in
      let (out, g) = apply_edits-ordered text t.edits ordered.found ordered.order in
      (
        items,
        t,
        out,
        rw accepted e,
        f,
        ordered.found,
        ordered.order,
        g,
        rw (accepted, e, f, g) refl,
      )
