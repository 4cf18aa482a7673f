-- ===== src/Fixedwidth/Placed.antt =====
-- The lines and the column ranges in which the tokens of a fixed-width table stand.
use checkdigit.Common.{
  ℕ, ◌+◌, ◌-◌, ◌<◌, ◌≡◌, inl, inr, ap, Bool, ◌||◌, List, [], ◌∷◌, map, arith, leb, min, Str, All,
  Any, All-append, All-imp, Option, none, some, find_at, matches, strip, slice, Bool-cases,
}
use checkdigit.Fixedwidth.{
  Columns, Span, field_ref, whole_field_ref, range_refs, line_refs, refs_of_spans,
}
use checkdigit.Fixedwidth.Spans.{Between, IsColumns, range_refs-AreApart}
use checkdigit.Grouped.{Located}
use checkdigit.Kernel.Types.{bic_like}
use checkdigit.Report.{line_and_start}
use checkdigit.Txt.{find_bic}

-- The label names the line, and the column counted from 1.
abbrev IsLabelled : ℕ → ℕ → Located → Type 0
IsLabelled line start ref = ref.label ≡ line_and_start line (ref.offset - start + 1)

-- The reference stands inside the range, and inside the content of the line.
abbrev InRange : Span → Located → Columns → Type 0
InRange span ref (a, b) = Between (span.start + (a - 1)) (span.start + min b span.content_len) ref

abbrev InLine : ℕ → List Columns → Located → Span → Type 0
InLine header_lines columns ref span =
    (header_lines < span.line)
    × IsLabelled span.line span.start ref
    × Any (InRange span ref) columns

-- The reference stands in one of the ranges of one of the lines, which is no header line, and its
-- label says where.
abbrev pub InColumns : ℕ → List Columns → List Span → Located → Type 0
InColumns header_lines columns spans ref = Any (InLine header_lines columns ref) spans

field_ref-IsLabelled :
    (line start s0 i : ℕ) (eqid : Str) → IsLabelled line start (field_ref line start s0 (i, eqid))
field_ref-IsLabelled line start s0 i eqid =
    let column : s0 + i + 1 ≡ start + s0 + i - start + 1 = omega arith in
    ap (line_and_start line) column

All-map-IsLabelled :
    (line start s0 : ℕ) (found : List (ℕ × Str))
    → All (IsLabelled line start) (map (field_ref line start s0) found)
All-map-IsLabelled line start s0 [] = tt
All-map-IsLabelled line start s0 ((i, eqid) ∷ found) =
    (field_ref-IsLabelled line start s0 i eqid, All-map-IsLabelled line start s0 found)

whole_field_ref-IsLabelled :
    (raw : Str) (line start s0 : ℕ)
    → All (IsLabelled line start) (whole_field_ref raw line start s0)
unfolding whole_field_ref
whole_field_ref-IsLabelled raw line start s0 = elim (Bool-cases (matches bic_like (strip raw))) [
  | inl shape ↦ rw shape (found (find_at 0 (strip raw) raw))
  | inr other ↦ rw other tt
]
  where
    found :
        (f : Option ℕ)
        → All
            (IsLabelled line start)
            (elim f [ none ↦ [] | some i ↦ field_ref line start s0 (i, strip raw) ∷ [] ])
    found none = tt
    found (some i) = (field_ref-IsLabelled line start s0 i (strip raw), tt)

module _ (text : Str) (whole_field : Bool) where
  range_refs-IsLabelled :
      (span : Span) (a b : ℕ)
      → All (IsLabelled span.line span.start) (range_refs text whole_field span (a, b))
  unfolding range_refs
  range_refs-IsLabelled span a b =
      let s0 = a - 1 in
      let e0 = min b span.content_len in
      let raw = slice text (span.start + s0) (e0 - s0) in
      elim (Bool-cases (leb span.content_len s0 || leb e0 s0)) [
        | inl out ↦ rw out tt
        | inr inside ↦ rw inside (elim (Bool-cases whole_field) [
          | inl whole ↦ rw whole (whole_field_ref-IsLabelled raw span.line span.start s0)
          | inr part ↦ rw part (All-map-IsLabelled span.line span.start s0 (find_bic raw))
        ])
      ]

  -- A reference of a line, by its label and its range
  abbrev OnLine : Span → List Columns → Located → Type 0
  OnLine span columns ref = IsLabelled span.line span.start ref × Any (InRange span ref) columns

  both :
      {A : Type 0} (P Q : A → Type 0) (xs : List A) → All P xs → All Q xs → All (λ x. P x × Q x) xs
  both P Q [] h k = tt
  both P Q (x ∷ xs) (h, hs) (k, ks) = ((h, k), both P Q xs hs ks)

  line_refs-OnLine :
      (span : Span) (columns : List Columns)
      → All IsColumns columns
      → All (OnLine span columns) (line_refs text whole_field span columns)
  unfolding line_refs
  line_refs-OnLine span [] h = tt
  line_refs-OnLine span ((a, b) ∷ columns) (h, hs) =
      let refs = range_refs text whole_field span (a, b) in
      let more = line_refs text whole_field span columns in
      All-append (OnLine span ((a, b) ∷ columns)) refs more
        (All-imp (λ ref. IsLabelled span.line span.start ref × InRange span ref (a, b))
          (OnLine span ((a, b) ∷ columns)) refs (λ ref w. (w.0, inl w.1))
          (both (IsLabelled span.line span.start) (λ ref. InRange span ref (a, b)) refs
            (range_refs-IsLabelled span a b)
            (range_refs-AreApart text whole_field span a b h).place))
        (All-imp (OnLine span columns) (OnLine span ((a, b) ∷ columns)) more
          (λ ref w. (w.0, inr w.1)) (line_refs-OnLine span columns hs))

  pub refs_of_spans-InColumns :
      (header_lines : ℕ) (columns : List Columns) (spans : List Span)
      → All IsColumns columns
      → All
          (InColumns header_lines columns spans)
          (refs_of_spans text whole_field header_lines columns spans)
  unfolding refs_of_spans
  refs_of_spans-InColumns header_lines columns [] h = tt
  refs_of_spans-InColumns header_lines columns (span ∷ spans) h =
      let refs = line_refs text whole_field span columns in
      let more = refs_of_spans text whole_field header_lines columns spans in
      let rest =
        All-imp (InColumns header_lines columns spans)
          (InColumns header_lines columns (span ∷ spans)) more (λ ref w. inr w)
          (refs_of_spans-InColumns header_lines columns spans h) in
      elim (Bool-cases (leb span.line header_lines)) [
        | inl header ↦ rw header rest
        | inr data_line ↦
            let below : header_lines < span.line = ground arith in
            rw data_line (
              All-append (InColumns header_lines columns (span ∷ spans)) refs more
                (All-imp (OnLine span columns) (InColumns header_lines columns (span ∷ spans)) refs
                  (λ ref w. inl (below, w.0, w.1)) (line_refs-OnLine span columns h))
                rest)
      ]
