-- ===== src/X12/Located.antt =====
-- Where the references of an X12 message stand.
use checkdigit.Common.{
  ℕ, zero, suc, ◌+◌, ◌≤◌, ◌<◌, ◌≡◌, inl, inr, refl, sym, ap, ◌∙◌, ◌&&◌, List, [], ◌∷◌, ◌++◌, arith,
  length, drop, Str, slice, All, EachPair, All-imp, StandsAt, PieceBefore, Reads, Option, some,
  none, get_elem?, Bool-cases, str_eq, codes, take-append-drop,
}
use checkdigit.Report.{or_empty}
use checkdigit.X12.Fielded.{IsFielded, refs_in-IsFielded}
use checkdigit.X12.{
  between, segments_from, CharTests, Segment, Kind, n7, n9_eq, X12Ref, split_from, with_fields,
  iter_segments, value_of, offset_of, value_at, n7_ref, n9_ref, refs_in, locate_equipment,
  detect_delims,
}
use checkdigit.X12.Corrector.{target_offset}
use checkdigit.X12.Segments.{FieldWithin, split_from-FieldWithin, segments-standing}

-- What is to be replaced stands at the offset, inside the reference's segment.
abbrev pub Spot : Str → X12Ref → ℕ → Str → Type 0
Spot text ref o old =
    (slice text o (length old) ≡ old)
    × (ref.seg_start ≤ o)
    × (o + length old ≤ ref.seg_start + length ref.raw_segment)

-- The offset of a reference, by its kind: a flagged N7-18 may have none, an N9 has none only for an
-- empty token.
abbrev pub Fits : Str → X12Ref → Kind → Option ℕ → Type 0
Fits text ref n7 none = Unit
Fits text ref n7 (some o) = Spot text ref o (or_empty ref.check_value)
Fits text ref n9_eq none = or_empty ref.token ≡ []
Fits text ref n9_eq (some o) = Spot text ref o (or_empty ref.token)

abbrev pub RefBefore : X12Ref → X12Ref → Type 0
RefBefore a b = a.seg_start + length a.raw_segment < b.seg_start

-- A field that was looked up, or none
abbrev Within : Str → ℕ → ℕ → Option (Str × ℕ) → Type 0
Within text from to none = Unit
Within text from to (some f) = FieldWithin text from to f

get_elem?-Within :
    (text : Str) (from to : ℕ) (fields : List (Str × ℕ)) (i : ℕ)
    → All (FieldWithin text from to) fields
    → Within text from to (get_elem? fields i)
get_elem?-Within text from to [] i h = tt
get_elem?-Within text from to (f ∷ fields) zero (h, hs) = h
get_elem?-Within text from to (f ∷ fields) (suc i) (h, hs) =
    get_elem?-Within text from to fields i hs

module _ (text : Str) (seg : Segment) where
  abbrev SegmentFields : Type 0
  SegmentFields = All (FieldWithin text seg.start (seg.start + length seg.raw)) seg.fields

  check-Fits :
      (f : Option (Str × ℕ))
      → Within text seg.start (seg.start + length seg.raw) f
      → get_elem? seg.fields 18 ≡ f
      → Fits text (n7_ref seg) n7 (n7_ref seg).check_offset
  unfolding n7_ref value_of offset_of
  check-Fits none h e = rw e tt
  check-Fits (some (s, o)) (h, k, l) e = rw e (h, k, l)

  token-Fits :
      (f : Option (Str × ℕ))
      → Within text seg.start (seg.start + length seg.raw) f
      → get_elem? seg.fields 2 ≡ f
      → Fits text (n9_ref seg) n9_eq (n9_ref seg).token_offset
  unfolding n9_ref value_of offset_of
  token-Fits none h e = rw e refl
  token-Fits (some (s, o)) (h, k, l) e = rw e (h, k, l)

-- A reference that the locator returned
abbrev pub IsLocated : Str → X12Ref → Type 0
IsLocated text ref = Fits text ref ref.kind (target_offset ref)

with_fields-Fields :
    (text : Str) (ele : ℕ) (found : List (Str × ℕ))
    → All (StandsAt text) found
    → All (SegmentFields text) (with_fields ele found)
unfolding with_fields
with_fields-Fields text ele [] h = tt
with_fields-Fields text ele ((raw, start) ∷ found) (h, hs) = (
  split_from-FieldWithin text (drop (length raw) (drop start text)) ele start (start + length raw)
      start start [] raw (reads raw start h) (omega arith) refl,
  with_fields-Fields text ele found hs,
)
  where
    reads :
        (raw' : Str) (start' : ℕ)
        → StandsAt text (raw', start')
        → Reads text (drop (length raw') (drop start' text)) start' start' [] raw'
    reads raw' start' stands =
        let whole : raw' ++ drop (length raw') (drop start' text) ≡ drop start' text =
          ap (λ (x : Str). x ++ drop (length raw') (drop start' text)) (sym stands)
          ∙ take-append-drop (length raw') (drop start' text) in
        record { ahead = whole; behind = sym whole; place = omega arith }

refs_in-IsLocated :
    (text : Str) (segs : List Segment)
    → All (SegmentFields text) segs
    → All (IsLocated text) (refs_in segs)
unfolding refs_in n7_ref n9_ref
refs_in-IsLocated text [] h = tt
refs_in-IsLocated text (seg ∷ segs) (h, hs) =
    let rest = refs_in-IsLocated text segs hs in
    let tag = value_at 0 seg.fields in
    let from = seg.start in
    let to = seg.start + length seg.raw in
    elim (Bool-cases (str_eq tag (codes "N7"))) [
      | inl is_n7 ↦
          let f =
            check-Fits text seg (get_elem? seg.fields 18)
              (get_elem?-Within text from to seg.fields 18 h) refl in
          rw is_n7 (unfold n7_ref in f, rest)
      | inr other ↦
          elim (Bool-cases
            (str_eq tag (codes "N9") && str_eq (value_at 1 seg.fields) (codes "EQ"))) [
              | inl is_n9 ↦
                  let f =
                    token-Fits text seg (get_elem? seg.fields 2)
                      (get_elem?-Within text from to seg.fields 2 h) refl in
                  rw (other, is_n9) (unfold n9_ref in f, rest)
              | inr neither ↦ rw (other, neither) rest
            ]
    ]

-- The references begin behind the bound.
abbrev Beyond : ℕ → X12Ref → Type 0
Beyond b ref = b < ref.seg_start

refs_in-Beyond :
    (ele b : ℕ) (found : List (Str × ℕ))
    → All (λ x. b < x.1) found
    → All (Beyond b) (refs_in (with_fields ele found))
unfolding refs_in with_fields n7_ref n9_ref
refs_in-Beyond ele b [] h = tt
refs_in-Beyond ele b ((raw, start) ∷ found) (h, hs) =
    let rest = refs_in-Beyond ele b found hs in
    let fields = split_from ele start start [] raw in
    let tag = value_at 0 fields in
    elim (Bool-cases (str_eq tag (codes "N7"))) [
      | inl is_n7 ↦ rw is_n7 (h, rest)
      | inr other ↦
          elim (Bool-cases (str_eq tag (codes "N9") && str_eq (value_at 1 fields) (codes "EQ"))) [
            | inl is_n9 ↦ rw (other, is_n9) (h, rest)
            | inr neither ↦ rw (other, neither) rest
          ]
    ]

refs_in-RefBefore :
    (ele : ℕ) (found : List (Str × ℕ))
    → EachPair PieceBefore found
    → EachPair RefBefore (refs_in (with_fields ele found))
unfolding refs_in with_fields n7_ref n9_ref
refs_in-RefBefore ele [] h = tt
refs_in-RefBefore ele ((raw, start) ∷ found) (h, hs) =
    let rest = refs_in-RefBefore ele found hs in
    let after = refs_in-Beyond ele (start + length raw) found h in
    let fields = split_from ele start start [] raw in
    let tag = value_at 0 fields in
    elim (Bool-cases (str_eq tag (codes "N7"))) [
      | inl is_n7 ↦ rw is_n7 (after, rest)
      | inr other ↦
          elim (Bool-cases (str_eq tag (codes "N9") && str_eq (value_at 1 fields) (codes "EQ"))) [
            | inl is_n9 ↦ rw (other, is_n9) (after, rest)
            | inr neither ↦ rw (other, neither) rest
          ]
    ]

-- Every reference of an X12 message stands where it says, in a segment of its own. What an N7 has
-- recorded is field 18 of its segment and what an N9 has recorded is field 2, each with its offset
-- behind as many delimiters; there is none only where the segment has fewer.
pub locate_equipment-IsLocated :
    (tests : CharTests) (text : Str)
    → All (IsLocated text) (locate_equipment tests text)
      × All (IsFielded (detect_delims tests text).element) (locate_equipment tests text)
      × EachPair RefBefore (locate_equipment tests text)
unfolding locate_equipment iter_segments
locate_equipment-IsLocated tests text =
    let delims = detect_delims tests text in
    let (stand, before) = segments-standing text delims.segment in
    let found = segments_from delims.segment 0 between text in
    (
      refs_in-IsLocated text (with_fields delims.element found) (
          with_fields-Fields text delims.element found
            (All-imp (λ x. StandsAt text x × (0 ≤ x.1)) (StandsAt text) found (λ x h. h.0) stand)),
      refs_in-IsFielded delims.element found,
      refs_in-RefBefore delims.element found before,
    )
