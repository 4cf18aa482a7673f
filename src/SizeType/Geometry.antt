-- ===== src/SizeType/Geometry.antt =====
-- The geometry that `decode` returns.
use checkdigit.Common.{
  ℕ, ◌≤◌, ◌≡◌, refl, Bool, true, ◌&&◌, ◌||◌, not, List, [], ◌∷◌, ◌++◌, Option, none, some, ◌==◌,
  leb, ltb, if◌then◌else◌, length, Str, arith, &&-true, Bool-cases, inl, inr, get_or,
}
use checkdigit.Kernel.Normalize.{upper}
use checkdigit.Common.{strip}
use checkdigit.SizeType.{
  lookup, length_table, height_table, height_letter_table, SizeType, Note, LengthPart, HeightPart,
  GroupPart, length_part, height_part, assemble, decode_raw, decode, no_notes, is_undefined,
  partially_decoded,
}

unfoldable all_entries {ℓ} : {A : Type ℓ} → (ℕ → A → Bool) → List (ℕ × A) → Bool
all_entries test [] = true
all_entries test ((k, v) ∷ table) = test k v && all_entries test table

-- The entry that was found passes the test.
abbrev Passes {ℓ} : {A : Type ℓ} → (ℕ → A → Bool) → ℕ → Option A → Type 0
Passes test c none = Unit
Passes test c (some v) = test c v ≡ true

lookup-Passes {ℓ} :
    {A : Type ℓ} (test : ℕ → A → Bool) (table : List (ℕ × A)) (c : ℕ)
    → all_entries test table ≡ true
    → Passes test c (lookup table c)
unfolding all_entries lookup
lookup-Passes test [] c h = tt
lookup-Passes test ((k, w) ∷ table) c h =
    let (first, others) = &&-true (test k w) (all_entries test table) h in
    elim (Bool-cases (k == c)) [
      | inl hit ↦ let same : c ≡ k = ground arith in rw hit (rw same first)
      | inr miss ↦ rw miss (lookup-Passes test table c others)
    ]

-- Length, height and width lie in the ranges of the tables, and the flags and the span follow from
-- them.
pub record IsCoherent (s : SizeType) : Type 0 where
  pub length_bounds : (2991 ≤ s.length_mm) × (s.length_mm ≤ 16154)
  pub height_bounds : (1219 ≤ s.height_mm) × (s.height_mm ≤ 2926)
  pub high_cube : s.high_cube ≡ leb 2896 s.height_mm
  pub over_width : s.over_width ≡ ltb 2438 s.width_mm
  pub span : s.teu ≡ (if leb 12000 s.length_mm then 2 else 1)

length_in_range : ℕ → ℕ → Bool
length_in_range c mm = leb 2991 mm && leb mm 16154

length_part-bounds :
    (c : ℕ) (o : Option ℕ)
    → Passes length_in_range c o
    → (2991 ≤ (length_part c o).mm) × ((length_part c o).mm ≤ 16154)
unfolding length_part length_in_range
length_part-bounds c none h = (omega arith, omega arith)
length_part-bounds c (some mm) h = (ground arith, ground arith)

-- A height of the digits, with the two high-cube codes
digit_height : ℕ → ℕ → Bool
digit_height c mm =
    leb 1219 mm && leb mm 2926 && (if c == b'5' || c == b'6' then leb 2896 mm else ltb mm 2896)

letter_height : ℕ → ℕ → Bool
letter_height c mm = leb 1219 mm && leb mm 2926

record IsCoherentHeight (h : HeightPart) : Type 0 where
  bounds : (1219 ≤ h.mm) × (h.mm ≤ 2926)
  high : h.is_high ≡ leb 2896 h.mm
  wide : h.is_wide ≡ ltb 2438 h.width

height_part-IsCoherentHeight :
    (c : ℕ) (o p : Option ℕ)
    → Passes digit_height c o
    → Passes letter_height c p
    → IsCoherentHeight (height_part c o p)
unfolding height_part digit_height letter_height
height_part-IsCoherentHeight c (some mm) p h k = record {
  bounds = (ground arith, ground arith);
  high = ground arith;
  wide = refl;
}
height_part-IsCoherentHeight c none (some mm) h k = record {
  bounds = (ground arith, ground arith);
  high = refl;
  wide = refl;
}
height_part-IsCoherentHeight c none none h k = record {
  bounds = (omega arith, omega arith);
  high = refl;
  wide = refl;
}

length_tested : all_entries length_in_range length_table ≡ true
unfolding all_entries length_in_range
length_tested = refl

height_tested : all_entries digit_height height_table ≡ true
unfolding all_entries digit_height
height_tested = refl

letter_tested : all_entries letter_height height_letter_table ≡ true
unfolding all_entries letter_height
letter_tested = refl

decode_raw-IsCoherent : (raw : Str) → IsCoherent (decode_raw raw)
unfolding decode_raw assemble
decode_raw-IsCoherent raw = elim (Bool-cases (length raw == 4)) [
  | inr other ↦ rw other (record {
    length_bounds = (omega arith, omega arith);
    height_bounds = (omega arith, omega arith);
    high_cube = refl;
    over_width = refl;
    span = refl;
  })
  | inl four ↦
      let c = get_or raw 0 0 in
      let d = get_or raw 1 0 in
      let l =
        length_part-bounds c (lookup length_table c)
          (lookup-Passes length_in_range length_table c length_tested) in
      let h =
        height_part-IsCoherentHeight d (lookup height_table d) (lookup height_letter_table d)
          (lookup-Passes digit_height height_table d height_tested)
          (lookup-Passes letter_height height_letter_table d letter_tested) in
      rw four (record {
        length_bounds = l;
        height_bounds = h.bounds;
        high_cube = h.high;
        over_width = h.wide;
        span = refl;
      })
]

-- Whatever the code is, `decode` returns a length of 2991 to 16154 mm and a height of 1219 to 2926
-- mm, says high cube exactly from 2896 mm on, over-width exactly above 2438 mm, and a span of two
-- cells exactly from 12000 mm on.
pub decode-IsCoherent : (code : Option Str) → IsCoherent (decode code)
unfolding decode
decode-IsCoherent none = decode_raw-IsCoherent (upper (strip []))
decode-IsCoherent (some code) = decode_raw-IsCoherent (upper (strip code))

-- A result is undefined exactly where it carries a note.
assemble-notes :
    (raw : Str) (l : LengthPart) (h : HeightPart) (g : GroupPart)
    → (assemble raw l h g).defined ≡ no_notes (assemble raw l h g).notes
unfolding assemble
assemble-notes raw l h g = from_notes (l.notes) (h.notes) (g.notes)
  where
    from_notes :
        (a b c : List Note)
        → (no_notes a && no_notes b && no_notes c)
          ≡ no_notes (
              if not (no_notes a && no_notes b && no_notes c) && not (is_undefined g.family)
              then (a ++ (b ++ c)) ++ (partially_decoded ∷ [])
              else a ++ (b ++ c))
    from_notes [] [] [] = refl
    from_notes [] [] (x ∷ c) = ground arith
    from_notes [] (x ∷ b) c = ground arith
    from_notes (x ∷ a) b c = ground arith

decode_raw-defined : (raw : Str) → (decode_raw raw).defined ≡ no_notes (decode_raw raw).notes
unfolding decode_raw
decode_raw-defined raw = elim (Bool-cases (length raw == 4)) [
  | inr other ↦ rw other refl
  | inl four ↦ rw four (assemble-notes raw _ _ _)
]

-- `decode` calls a code defined exactly if it has no note on it.
pub decode-defined : (code : Option Str) → (decode code).defined ≡ no_notes (decode code).notes
unfolding decode
decode-defined none = decode_raw-defined (upper (strip []))
decode-defined (some code) = decode_raw-defined (upper (strip code))
