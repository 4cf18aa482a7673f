-- ===== src/Edifact/Refs.antt =====
-- Where the equipment ids of an EDIFACT message stand.
use checkdigit.Common.{
  find_at-IsAt, IsAt-slice, ℕ, ◌+◌, ◌≤◌, ◌≡◌, ◌⊎◌, refl, List, [], ◌∷◌, arith, length, Str, slice,
  All, Bool-cases, inl, inr, Option, none, some, str_eq, codes, if◌then◌else◌,
}
use checkdigit.Common.{find_at, is_empty}
use checkdigit.Report.{at}
use checkdigit.Edifact.{
  Separators, EquipmentRef, offset_from, ref_of, refs_in, first_component, parse_segment, parse_all,
  iter_segments, locate_equipment, detect_separators, split_segments,
}
use checkdigit.Common.{StandsAt, PieceBefore, EachPair, All-imp}
use checkdigit.Edifact.Segments.{split_segments_sound}

-- The reference has no id and no offset; or its id does not occur in its segment as it is written
-- there; or its id stands at its offset, inside its segment.
abbrev pub IsPlaced : Str → EquipmentRef → Type 0
IsPlaced text ref =
    ((ref.eqid ≡ []) × (ref.eqid_offset ≡ none))
    ⊎ (find_at 0 ref.eqid ref.raw_segment ≡ none)
    ⊎ ((o : ℕ) × (ref.eqid_offset ≡ some (at o))
        × (ref.seg_start ≤ o)
        × (slice text o (length ref.eqid) ≡ ref.eqid)
        × (o + length ref.eqid ≤ ref.seg_start + length ref.raw_segment))

Option-cases {ℓ} : {A : Type ℓ} (o : Option A) → (o ≡ none) ⊎ ((a : A) × (o ≡ some a))
Option-cases none = inl refl
Option-cases (some a) = inr (a, refl)

-- The reference that `ref_of` makes of an id and its segment
abbrev ref_with : (eqid qualifier size_type raw : Str) → ℕ → EquipmentRef
ref_with eqid qualifier size_type raw start = record {
  eqid = eqid;
  qualifier = qualifier;
  size_type = size_type;
  raw_segment = raw;
  seg_start = start;
  eqid_offset = if is_empty eqid then none else some (offset_from start (find_at 0 eqid raw));
}

ref_with-IsPlaced :
    (text eqid qualifier size_type raw : Str) (start : ℕ)
    → StandsAt text (raw, start)
    → IsPlaced text (ref_with eqid qualifier size_type raw start)
unfolding offset_from
ref_with-IsPlaced text [] qualifier size_type raw start h = inl (refl, refl)
ref_with-IsPlaced text (c ∷ cs) qualifier size_type raw start h =
    elim (Option-cases (find_at 0 (c ∷ cs) raw)) [
      | inl missed ↦ inr (inl missed)
      | inr (k, found) ↦
          let (j, e, is) = find_at-IsAt 0 (c ∷ cs) raw found in
          let same : k ≡ j = omega arith in
          let (stands, inside) = IsAt-slice text raw (c ∷ cs) start j h is in
          inr (inr (start + j, rw (found, same) refl, omega arith, stands, inside))
    ]

refs_of-IsPlaced :
    (text : Str) (sep : Separators) (found : List (Str × ℕ))
    → All (StandsAt text) found
    → All (IsPlaced text) (refs_in (parse_all sep found))
unfolding refs_in parse_all parse_segment ref_of
refs_of-IsPlaced text sep [] h = tt
refs_of-IsPlaced text sep ((raw, start) ∷ found) (h, hs) =
    let seg = parse_segment raw start sep in
    elim (Bool-cases (str_eq seg.tag (codes "EQD"))) [
      | inl eqd ↦
          let id = first_component 2 seg.elements in
          let qualifier = first_component 1 seg.elements in
          let size_type = first_component 3 seg.elements in
          rw eqd (
            ref_with-IsPlaced text id qualifier size_type raw start h,
            refs_of-IsPlaced text sep found hs,
          )
      | inr other ↦ rw other (refs_of-IsPlaced text sep found hs)
    ]

-- Every reference of `locate_equipment` has no id and no offset, or an id that its segment does not
-- hold as it is written there, or an id that stands in the text at the reference's offset and inside
-- its own segment.
pub locate_equipment-IsPlaced : (text : Str) → All (IsPlaced text) (locate_equipment text)
unfolding locate_equipment iter_segments
locate_equipment-IsPlaced text =
    let sep = detect_separators text in
    refs_of-IsPlaced text sep (split_segments text sep) (split_segments_sound text sep).0

-- The bound behind a reference's segment
abbrev pub past : EquipmentRef → ℕ
past ref = ref.seg_start + length ref.raw_segment

-- The references' segments follow one another from an offset on.
abbrev pub RefsFrom : ℕ → List EquipmentRef → Type 0
RefsFrom b [] = Unit
RefsFrom b (ref ∷ refs) = (b ≤ ref.seg_start) × RefsFrom (past ref) refs

pub RefsFrom-weaken :
    (a b : ℕ) (refs : List EquipmentRef) → a ≤ b → RefsFrom b refs → RefsFrom a refs
RefsFrom-weaken a b [] le h = tt
RefsFrom-weaken a b (ref ∷ refs) le (h, hs) = (omega arith, hs)

refs_in-RefsFrom :
    (sep : Separators) (b : ℕ) (found : List (Str × ℕ))
    → All (λ x. b ≤ x.1) found
    → EachPair PieceBefore found
    → RefsFrom b (refs_in (parse_all sep found))
unfolding refs_in parse_all parse_segment ref_of
refs_in-RefsFrom sep b [] h k = tt
refs_in-RefsFrom sep b ((raw, start) ∷ found) (h, hs) (k, ks) =
    let rest =
      refs_in-RefsFrom sep (start + length raw) found
        (All-imp (PieceBefore (raw, start)) (λ x. start + length raw ≤ x.1) found
          (λ x (before : PieceBefore (raw, start) x). omega arith) k)
        ks in
    let seg = parse_segment raw start sep in
    elim (Bool-cases (str_eq seg.tag (codes "EQD"))) [
      | inl eqd ↦ rw eqd (h, rest)
      | inr other ↦ rw other (RefsFrom-weaken b (start + length raw) _ (omega arith) rest)
    ]

pub locate_equipment-RefsFrom : (text : Str) → RefsFrom 0 (locate_equipment text)
unfolding locate_equipment iter_segments
locate_equipment-RefsFrom text =
    let sep = detect_separators text in
    let found = split_segments text sep in
    refs_in-RefsFrom sep 0 found (from_zero found) (split_segments_sound text sep).1
  where
    from_zero : (found : List (Str × ℕ)) → All (λ x. 0 ≤ x.1) found
    from_zero [] = tt
    from_zero (x ∷ found) = (omega arith, from_zero found)
