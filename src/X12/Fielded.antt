-- ===== src/X12/Fielded.antt =====
-- Which field of its segment a reference of an X12 message has recorded.
use checkdigit.Common.{
  ℕ, zero, suc, ◌+◌, ◌-◌, ◌<◌, ◌≡◌, inl, inr, refl, sym, ap, ◌∙◌, ◌&&◌, List, [], ◌∷◌, ◌++◌, arith,
  take, Str, All, Option, some, none, get_elem?, Bool-cases, str_eq, codes, if◌then◌else◌, ◌==◌,
  true,
}
use checkdigit.Report.{or_empty}
use checkdigit.X12.{
  Kind, n7, n9_eq, X12Ref, split_from, with_fields, Segment, value_of, offset_of, value_at, n7_ref,
  n9_ref, refs_in,
}

-- The field delimiters of a text, counted
abbrev pub delimiters : ℕ → Str → ℕ
delimiters ele [] = 0
delimiters ele (c ∷ s) = if c == ele then suc (delimiters ele s) else delimiters ele s

abbrev pub fields_of : ℕ → X12Ref → List (Str × ℕ)
fields_of ele ref = split_from ele ref.seg_start ref.seg_start [] ref.raw_segment

-- The value and the offset are those of the reference's field with that number: as many delimiters
-- stand before the offset. There is no offset only where the segment has fewer fields, and then
-- there is no value either.
abbrev pub IsField : ℕ → ℕ → X12Ref → Option Str → Option ℕ → Type 0
IsField ele n ref value none = (delimiters ele ref.raw_segment < n) × (or_empty value ≡ [])
IsField ele n ref value (some o) =
    (delimiters ele (take (o - ref.seg_start) ref.raw_segment) ≡ n)
    × (get_elem? (fields_of ele ref) n ≡ some (or_empty value, o))

-- An N7 has recorded N7-18, an N9 has recorded N9-02.
abbrev IsRecorded : ℕ → X12Ref → Kind → Type 0
IsRecorded ele ref n7 = IsField ele 18 ref ref.check_value ref.check_offset
IsRecorded ele ref n9_eq = IsField ele 2 ref ref.token ref.token_offset

abbrev pub IsFielded : ℕ → X12Ref → Type 0
IsFielded ele ref = IsRecorded ele ref ref.kind

module _ (ele : ℕ) where
  first-start :
      (o start : ℕ) (buf rest s : Str) (p : ℕ)
      → get_elem? (split_from ele o start buf rest) 0 ≡ some (s, p)
      → p ≡ start
  unfolding split_from
  first-start o start buf [] s p h = cc
  first-start o start buf (c ∷ cs) s p h = elim (Bool-cases (c == ele)) [
    | inl hit ↦ let k = rw hit at h in cc
    | inr miss ↦ first-start (o + 1) start (buf ++ (c ∷ [])) cs s p (rw miss at h)
  ]

  -- As many delimiters stand before a field as its number says.
  field-delimiters :
      (i o start : ℕ) (buf rest s : Str) (p : ℕ)
      → get_elem? (split_from ele o start buf rest) (suc i) ≡ some (s, p)
      → (j : ℕ) × (p ≡ o + j) × (delimiters ele (take j rest) ≡ suc i)
  unfolding split_from
  field-delimiters i o start buf [] s p h = absurd (cc)
  field-delimiters i o start buf (c ∷ cs) s p h = elim (Bool-cases (c == ele)) [
    | inr miss ↦
        let (j, e, k) = field-delimiters i (o + 1) start (buf ++ (c ∷ [])) cs s p (rw miss at h) in
        (suc j, omega arith, rw miss k)
    | inl hit ↦ behind (λ k. field-delimiters k (o + 1) (o + 1) [] cs s p) i hit (rw hit at h)
  ]
    where
      behind :
          ((k : ℕ)
            → get_elem? (split_from ele (o + 1) (o + 1) [] cs) (suc k) ≡ some (s, p)
            → (j : ℕ) × (p ≡ o + 1 + j) × (delimiters ele (take j cs) ≡ suc k))
          → (i' : ℕ) → c == ele ≡ true
          → get_elem? (split_from ele (o + 1) (o + 1) [] cs) i' ≡ some (s, p)
          → (j : ℕ) × (p ≡ o + j) × (delimiters ele (take j (c ∷ cs)) ≡ suc i')
      behind again zero hit k = (1, first-start (o + 1) (o + 1) [] cs s p k, rw hit refl)
      behind again (suc i') hit k =
          let (j, e, l) = again i' k in (suc j, omega arith, rw hit (ap suc l))

  -- A segment without the field has fewer delimiters.
  missing-delimiters :
      (n o start : ℕ) (buf rest : Str)
      → get_elem? (split_from ele o start buf rest) n ≡ none
      → delimiters ele rest < n
  unfolding split_from
  missing-delimiters zero o start buf [] h = absurd (cc)
  missing-delimiters (suc n) o start buf [] h = omega arith
  missing-delimiters n o start buf (c ∷ cs) h = elim (Bool-cases (c == ele)) [
    | inr miss ↦ rw miss (missing-delimiters n (o + 1) start (buf ++ (c ∷ [])) cs (rw miss at h))
    | inl hit ↦ rw hit (after (λ k. missing-delimiters k (o + 1) (o + 1) [] cs) n (rw hit at h))
  ]
    where
      after :
          ((k : ℕ)
            → get_elem? (split_from ele (o + 1) (o + 1) [] cs) k ≡ none
            → delimiters ele cs < k)
          → (n' : ℕ) → get_elem? ((buf, start) ∷ split_from ele (o + 1) (o + 1) [] cs) n' ≡ none
          → suc (delimiters ele cs) < n'
      after again zero k = absurd (cc)
      after again (suc n') k = let rest = again n' k in omega arith

  module _ (ref : X12Ref) (n : ℕ) where
    taken-IsField :
        (f : Option (Str × ℕ))
        → get_elem? (fields_of ele ref) (suc n) ≡ f
        → IsField ele (suc n) ref (value_of f) (offset_of f)
    unfolding value_of offset_of
    taken-IsField none e =
        (missing-delimiters (suc n) ref.seg_start ref.seg_start [] ref.raw_segment e, refl)
    taken-IsField (some (s, o)) e =
        let (j, at_j, count) =
          field-delimiters n ref.seg_start ref.seg_start [] ref.raw_segment s o e in
        let same : j ≡ o - ref.seg_start = omega arith in
        (ap (λ m. delimiters ele (take m ref.raw_segment)) (sym same) ∙ count, e)

  -- The value of N9-02 is recorded as a text, empty where the field is missing.
  token-IsField :
      (ref : X12Ref) (f : Option (Str × ℕ))
      → get_elem? (fields_of ele ref) 2 ≡ f
      → IsField ele 2 ref (some (or_empty (value_of f))) (offset_of f)
  unfolding value_of offset_of
  token-IsField ref none e = taken-IsField ref 1 none e
  token-IsField ref (some f) e = taken-IsField ref 1 (some f) e

  pub refs_in-IsFielded :
      (found : List (Str × ℕ)) → All (IsFielded ele) (refs_in (with_fields ele found))
  unfolding refs_in with_fields n7_ref n9_ref
  refs_in-IsFielded [] = tt
  refs_in-IsFielded ((raw, start) ∷ found) =
      let rest = refs_in-IsFielded found in
      let fields = split_from ele start start [] raw in
      let seg : Segment = record { raw = raw; start = start; fields = fields } in
      let tag = value_at 0 fields in
      elim (Bool-cases (str_eq tag (codes "N7"))) [
        | inl is_n7 ↦ rw is_n7 (taken-IsField (n7_ref seg) 17 (get_elem? fields 18) refl, rest)
        | inr other ↦
            elim (Bool-cases (str_eq tag (codes "N9") && str_eq (value_at 1 fields) (codes "EQ"))) [
              | inl is_n9 ↦
                  rw (other, is_n9) (token-IsField (n9_ref seg) (get_elem? fields 2) refl, rest)
              | inr neither ↦ rw (other, neither) rest
            ]
      ]
