-- ===== src/Fixedwidth/Spans.antt =====
-- The tokens of a fixed-width table and their columns.
use mathlib.Core.Path.{subst}
use checkdigit.Common.{
  ℕ, ◌+◌, ◌-◌, ◌≤◌, ◌<◌, ◌≡◌, ◌⊎◌, inl, inr, refl, Bool, true, false, ◌||◌, List, [], ◌∷◌, ◌++◌,
  map, arith, Str, All, EachPair, All-append, All-imp, Option, none, some, find_at, matches, strip,
  slice, Bool-cases, if◌then◌else◌, length, leb, min, is_empty, ◌&&◌, ◌==◌, lines_with_ends,
}
use checkdigit.Fixedwidth.{
  Columns, Span, without_newline, spans_from, line_spans, field_ref, whole_field_ref, range_refs,
  line_refs, refs_of_spans,
}
use checkdigit.Grouped.{Located}
use checkdigit.Kernel.Types.{bic_like}
use checkdigit.Txt.{find_bic}
use checkdigit.Txt.Fields.{
  RefChain, RefChain-IsToken, RefChain-RefBefore, whole-InField, find_bic-RefChain, RefChain-below,
}
use checkdigit.Txt.Locate.{IsToken, RefBefore}

-- Two references do not overlap.
abbrev pub RefApart : Located → Located → Type 0
RefApart a b = (a.offset + 11 ≤ b.offset) ⊎ (b.offset + 11 ≤ a.offset)

-- A reference lies between two offsets.
abbrev pub Between : ℕ → ℕ → Located → Type 0
Between from to ref = (from ≤ ref.offset) × (ref.offset + 11 ≤ to)

-- Two ranges of columns have no column in common.
abbrev pub ColumnsApart : Columns → Columns → Type 0
ColumnsApart (a, b) (a', b') = (b < a') ⊎ (b' < a)

abbrev pub IsColumns : Columns → Type 0
IsColumns (a, b) = 1 ≤ a

EachPair-append {ℓ} :
    {A : Type ℓ} (R : A → A → Type 0) (xs ys : List A)
    → EachPair R xs
    → EachPair R ys
    → All (λ x. All (R x) ys) xs
    → EachPair R (xs ++ ys)
EachPair-append R [] ys h k l = k
EachPair-append R (x ∷ xs) ys (h, hs) k (l, ls) =
    (All-append (R x) xs ys h l, EachPair-append R xs ys hs k ls)

-- References below a bound are apart from those above it.
apart_across :
    (mid from to : ℕ) (xs ys : List Located)
    → All (Between from mid) xs
    → All (Between mid to) ys
    → All (λ x. All (RefApart x) ys) xs
apart_across mid from to [] ys h k = tt
apart_across mid from to (x ∷ xs) ys ((a, b), h) k = (
  All-imp (Between mid to) (RefApart x) ys (λ y (w : Between mid to y). inl (omega arith)) k,
  apart_across mid from to xs ys h k,
)

module _ (text : Str) where
  -- Tokens of the text, apart from one another, between two offsets
  pub record AreApart (from to : ℕ) (refs : List Located) : Type 0 where
    pub tokens : All (IsToken text) refs
    pub apart : EachPair RefApart refs
    pub place : All (Between from to) refs

  nothing_apart : (from to : ℕ) → AreApart from to []
  nothing_apart from to = record { tokens = tt; apart = tt; place = tt }

  chain_place :
      (from to : ℕ) (refs : List Located) → RefChain text from to refs → All (Between from to) refs
  chain_place from to [] h = tt
  chain_place from to (ref ∷ refs) (h, k, hs) =
      let rest = chain_place (ref.offset + 11) to refs hs in
      let below = RefChain-below text (ref.offset + 11) to refs hs in
      (
        (h, below),
        All-imp (Between (ref.offset + 11) to) (Between from to) refs
            (λ r (w : Between (ref.offset + 11) to r). (omega arith, omega arith)) rest,
      )

  before_apart : (refs : List Located) → EachPair RefBefore refs → EachPair RefApart refs
  before_apart [] h = tt
  before_apart (ref ∷ refs) (h, hs) =
      (All-imp (RefBefore ref) (RefApart ref) refs (λ r k. inl k) h, before_apart refs hs)

  RefChain-AreApart :
      (from to : ℕ) (refs : List Located) → RefChain text from to refs → AreApart from to refs
  RefChain-AreApart from to refs h = record {
    tokens = RefChain-IsToken text from to refs h;
    apart = before_apart refs (RefChain-RefBefore text from to refs h);
    place = chain_place from to refs h;
  }

  AreApart-widen :
      (from to from' to' : ℕ) (refs : List Located)
      → from' ≤ from
      → to ≤ to'
      → AreApart from to refs
      → AreApart from' to' refs
  AreApart-widen from to from' to' refs a b h = record {
    tokens = h.tokens;
    apart = h.apart;
    place =
        All-imp (Between from to) (Between from' to') refs
          (λ r (w : Between from to r). (omega arith, omega arith)) h.place;
  }

  whole_field_ref-RefChain :
      (n line start s0 : ℕ)
      → RefChain text
          (start + s0)
          (start + s0 + n)
          (whole_field_ref (slice text (start + s0) n) line start s0)
  unfolding whole_field_ref
  whole_field_ref-RefChain n line start s0 =
      let raw = slice text (start + s0) n in
      elim (Bool-cases (matches bic_like (strip raw))) [
        | inl shape ↦ rw shape (found (find_at 0 (strip raw) raw) refl shape)
        | inr other ↦ rw other (omega arith)
      ]
    where
      found :
          (f : Option ℕ)
          → find_at 0 (strip (slice text (start + s0) n)) (slice text (start + s0) n) ≡ f
          → matches bic_like (strip (slice text (start + s0) n)) ≡ true
          → RefChain text (start + s0) (start + s0 + n) (elim f [
            | none ↦ []
            | some i ↦ field_ref line start s0 (i, strip (slice text (start + s0) n)) ∷ []
          ])
      found none e shape = omega arith
      found (some i) e shape =
          let (here, inside, _) =
            whole-InField text (start + s0) n i (strip (slice text (start + s0) n)) shape e in
          (omega arith, (here, shape), omega arith)

  field-RefChain :
      (whole_field : Bool) (n line start s0 : ℕ)
      → RefChain text (start + s0) (start + s0 + n) (
          if whole_field
          then whole_field_ref (slice text (start + s0) n) line start s0
          else map (field_ref line start s0) (find_bic (slice text (start + s0) n)))
  field-RefChain true n line start s0 = whole_field_ref-RefChain n line start s0
  field-RefChain false n line start s0 =
      find_bic-RefChain text (start + s0) n (field_ref line start s0) (λ f. refl) (λ f. refl)

  module _ (whole_field : Bool) (span : Span) where
    -- The references of a range lie between its columns.
    pub range_refs-AreApart :
        (a b : ℕ)
        → 1 ≤ a
        → AreApart
            (span.start + (a - 1))
            (span.start + min b span.content_len)
            (range_refs text whole_field span (a, b))
    unfolding range_refs
    range_refs-AreApart a b le =
        let s0 = a - 1 in
        let e0 = min b span.content_len in
        let outside = leb span.content_len s0 || leb e0 s0 in
        elim (Bool-cases outside) [
          | inl out ↦ rw out (nothing_apart (span.start + s0) (span.start + e0))
          | inr inside ↦
              let below : s0 ≤ e0 = ground arith in
              let stop : span.start + s0 + (e0 - s0) ≡ span.start + e0 = omega arith in
              rw inside (
                subst
                  (λ to. AreApart (span.start + s0) to (
                    if whole_field
                    then whole_field_ref (slice text (span.start + s0) (e0 - s0)) span.line
                        span.start s0
                    else map (field_ref span.line span.start s0)
                        (find_bic (slice text (span.start + s0) (e0 - s0)))))
                  stop
                  (RefChain-AreApart (span.start + s0) (span.start + s0 + (e0 - s0)) _
                    (field-RefChain whole_field (e0 - s0) span.line span.start s0)))
        ]

    -- A reference of one range is apart from those of ranges with other columns.
    apart_from_line :
        (a b : ℕ) (ranges : List Columns) (ref : Located)
        → 1 ≤ a
        → Between (span.start + (a - 1)) (span.start + min b span.content_len) ref
        → All IsColumns ranges
        → All (ColumnsApart (a, b)) ranges
        → All (RefApart ref) (line_refs text whole_field span ranges)
    unfolding line_refs
    apart_from_line a b [] ref pos w h k = tt
    apart_from_line a b ((a', b') ∷ ranges) ref pos w (h, hs) (k, ks) =
        All-append (RefApart ref) (range_refs text whole_field span (a', b'))
          (line_refs text whole_field span ranges)
          (All-imp (Between (span.start + (a' - 1)) (span.start + min b' span.content_len))
            (RefApart ref) _ (λ r v. two_ranges k r v) (range_refs-AreApart a' b' h).place)
          (apart_from_line a b ranges ref pos w hs ks)
      where
        two_ranges :
            ColumnsApart (a, b) (a', b')
            → (r : Located)
            → Between (span.start + (a' - 1)) (span.start + min b' span.content_len) r
            → RefApart ref r
        two_ranges (inl before) r v = inl (omega arith)
        two_ranges (inr behind) r v = inr (omega arith)

    line_refs-AreApart :
        (ranges : List Columns)
        → All IsColumns ranges
        → EachPair ColumnsApart ranges
        → AreApart span.start
            (span.start + span.content_len)
            (line_refs text whole_field span ranges)
    unfolding line_refs
    line_refs-AreApart [] h k = nothing_apart span.start (span.start + span.content_len)
    line_refs-AreApart ((a, b) ∷ ranges) (h, hs) (k, ks) =
        let here = range_refs-AreApart a b h in
        let rest = line_refs-AreApart ranges hs ks in
        let refs = range_refs text whole_field span (a, b) in
        let more = line_refs text whole_field span ranges in
        let from = span.start + (a - 1) in
        let to = span.start + min b span.content_len in
        record {
          tokens = All-append (IsToken text) refs more here.tokens rest.tokens;
          apart = EachPair-append RefApart refs more here.apart rest.apart (
              All-imp (Between from to) (λ x. All (RefApart x) more) refs
                (λ x w. apart_from_line a b ranges x h w hs k) here.place);
          place =
              All-append (Between span.start (span.start + span.content_len)) refs more
                (AreApart-widen from to span.start (span.start + span.content_len) refs
                  (omega arith) (omega arith) here).place
                rest.place;
        }

  length-without_newline : (line : Str) → length (without_newline line) ≤ length line
  unfolding without_newline
  length-without_newline [] = omega arith
  length-without_newline (c ∷ cs) =
      let rest = length-without_newline cs in
      elim (Bool-cases (is_empty (without_newline cs) && (c == b'\r' || c == b'\n'))) [
        | inl end ↦ rw end (omega arith)
        | inr content ↦ rw content (omega arith)
      ]

  refs_of_spans-AreApart :
      (whole_field : Bool) (header_lines : ℕ) (ranges : List Columns) (i o : ℕ) (lines : List Str)
      → All IsColumns ranges
      → EachPair ColumnsApart ranges
      → (to : ℕ) × (o ≤ to)
        × AreApart o to (refs_of_spans text whole_field header_lines ranges (spans_from i o lines))
  unfolding refs_of_spans spans_from
  refs_of_spans-AreApart whole_field header_lines ranges i o [] h k =
      (o, omega arith, nothing_apart o o)
  refs_of_spans-AreApart whole_field header_lines ranges i o (line ∷ lines) h k =
      let mid = o + length line in
      let span : Span = record {
        line = i;
        start = o;
        content_len = length (without_newline line);
      } in
      let fits = length-without_newline line in
      let (to, le, rest) =
        refs_of_spans-AreApart whole_field header_lines ranges (i + 1) mid lines h k in
      let refs = line_refs text whole_field span ranges in
      let more =
        refs_of_spans text whole_field header_lines ranges (spans_from (i + 1) mid lines) in
      elim (Bool-cases (leb i header_lines)) [
        | inl header ↦
            rw header
              (to, omega arith, AreApart-widen mid to o to more (omega arith) (omega arith) rest)
        | inr data_line ↦
            let here : AreApart o mid refs =
              AreApart-widen o (o + length (without_newline line)) o mid refs (omega arith)
                (omega arith) (line_refs-AreApart whole_field span ranges h k) in
            rw data_line (
              to,
              omega arith,
              record {
                tokens = All-append (IsToken text) refs more here.tokens rest.tokens;
                apart =
                    EachPair-append RefApart refs more here.apart rest.apart
                      (apart_across mid o to refs more here.place rest.place);
                place =
                    All-append (Between o to) refs more
                      (AreApart-widen o mid o to refs (omega arith) le here).place
                      (AreApart-widen mid to o to more (omega arith) (omega arith) rest).place;
              },
            )
      ]

  -- If the ranges have no column in common, the references of a fixed-width table are tokens of
  -- its text and apart from one another.
  pub line_spans-AreApart :
      (whole_field : Bool) (header_lines : ℕ) (ranges : List Columns)
      → All IsColumns ranges
      → EachPair ColumnsApart ranges
      → All (IsToken text) (refs_of_spans text whole_field header_lines ranges (line_spans text))
        × EachPair RefApart (refs_of_spans text whole_field header_lines ranges (line_spans text))
  line_spans-AreApart whole_field header_lines ranges h k =
      let (to, _, all) =
        refs_of_spans-AreApart whole_field header_lines ranges 1 0 (lines_with_ends text) h k in
      (all.tokens, all.apart)
