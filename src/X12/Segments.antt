-- ===== src/X12/Segments.antt =====
-- Where the segments of an X12 message and their fields stand.
use checkdigit.Common.{
  ℕ, ◌+◌, ◌≤◌, ◌<◌, ◌≡◌, ◌==◌, Bool-cases, inl, inr, List, [], ◌∷◌, ◌++◌, arith, length, Str, All,
  EachPair, StandsAt, PieceBefore, Reads, Reads-keep, Reads-cut, Reads-StandsAt, Reads-start,
}
use checkdigit.X12.{
  split_from, Scan, between, inside, Role, gap, ends, content, role, scan_next, emit_at,
  segments_from,
}

-- A field that stands in the text, between two offsets
abbrev pub FieldWithin : Str → ℕ → ℕ → Str × ℕ → Type 0
FieldWithin text from to (s, o) = StandsAt text (s, o) × (from ≤ o) × (o + length s ≤ to)

module _ (text tail : Str) (ele from to : ℕ) where
  pub split_from-FieldWithin :
      (o start : ℕ) (buf rest : Str)
      → Reads text tail o start buf rest
      → from ≤ start
      → o + length rest ≡ to
      → All (FieldWithin text from to) (split_from ele o start buf rest)
  unfolding split_from
  split_from-FieldWithin o start buf [] h k e =
      let p = h.place in ((Reads-StandsAt h, k, omega arith), tt)
  split_from-FieldWithin o start buf (c ∷ cs) h k e =
      let p = h.place in
      elim (Bool-cases (c == ele)) [
        | inl hit ↦ rw hit (
          (Reads-StandsAt h, k, omega arith),
          split_from-FieldWithin (o + 1) (o + 1) [] cs (Reads-cut h) (omega arith) (omega arith),
        )
        | inr miss ↦ rw miss (
            split_from-FieldWithin (o + 1) start (buf ++ (c ∷ [])) cs (Reads-keep h) k
              (omega arith))
      ]

module _ (text : Str) where
  -- Where the next piece begins
  abbrev begin_of : ℕ → Scan → ℕ
  begin_of o between = o
  begin_of o (inside start buf) = start

  abbrev buffer_of : Scan → Str
  buffer_of between = []
  buffer_of (inside start buf) = buf

  abbrev ScanReads : ℕ → Scan → Str → Type 0
  ScanReads o s = Reads text [] o (begin_of o s) (buffer_of s)

  scan_next-Reads :
      (r : Role) (o c : ℕ) (s : Scan) (cs : Str)
      → ScanReads o s (c ∷ cs)
      → ScanReads (o + 1) (scan_next r o c s) cs
  unfolding scan_next
  scan_next-Reads gap o c s cs h = Reads-cut h
  scan_next-Reads ends o c s cs h = Reads-cut h
  scan_next-Reads content o c between cs h = Reads-keep h
  scan_next-Reads content o c (inside start buf) cs h = Reads-keep h

  scan_next-begin :
      (r : Role) (o c : ℕ) (s : Scan)
      → begin_of o s ≤ o
      → begin_of o s ≤ begin_of (o + 1) (scan_next r o c s)
  unfolding scan_next
  scan_next-begin gap o c s h = omega arith
  scan_next-begin ends o c s h = omega arith
  scan_next-begin content o c between h = omega arith
  scan_next-begin content o c (inside start buf) h = omega arith

  -- A segment that stands in the text, not before the bound
  abbrev From : ℕ → Str × ℕ → Type 0
  From b x = StandsAt text x × (b ≤ x.1)

  From-weaken : (a b : ℕ) (xs : List (Str × ℕ)) → a ≤ b → All (From b) xs → All (From a) xs
  From-weaken a b [] le h = tt
  From-weaken a b (x ∷ xs) le ((h, k), hs) = ((h, omega arith), From-weaken a b xs le hs)

  abbrev IsSegmented : ℕ → List (Str × ℕ) → Type 0
  IsSegmented b xs = All (From b) xs × EachPair PieceBefore xs

  behind :
      (b : ℕ) (x : Str × ℕ) (xs : List (Str × ℕ))
      → x.1 + length x.0 < b
      → All (From b) xs
      → All (PieceBefore x) xs
  behind b x [] lt h = tt
  behind b x (y ∷ xs) lt ((_, k), hs) = (omega arith, behind b x xs lt hs)

  put_front :
      (b : ℕ) (x : Str × ℕ) (xs : List (Str × ℕ))
      → StandsAt text x
      → x.1 + length x.0 < b
      → IsSegmented b xs
      → IsSegmented x.1 (x ∷ xs)
  put_front b x xs h lt (k, ks) =
      (((h, omega arith), From-weaken (x.1) b xs (omega arith) k), (behind b x xs lt k, ks))

  emit_at-IsSegmented :
      (r : Role) (o c : ℕ) (s : Scan) (rest : List (Str × ℕ))
      → StandsAt text (buffer_of s, begin_of o s)
      → o ≡ begin_of o s + length (buffer_of s)
      → IsSegmented (begin_of (o + 1) (scan_next r o c s)) rest
      → IsSegmented (begin_of o s) (emit_at r o s rest)
  unfolding emit_at scan_next
  emit_at-IsSegmented ends o c between rest h p k = put_front (o + 1) ([], o) rest h (omega arith) k
  emit_at-IsSegmented ends o c (inside start buf) rest h p k =
      put_front (o + 1) (buf, start) rest h (omega arith) k
  emit_at-IsSegmented gap o c s rest h p (k, ks) =
      (From-weaken (begin_of o s) (o + 1) rest (omega arith) k, ks)
  emit_at-IsSegmented content o c between rest h p k = k
  emit_at-IsSegmented content o c (inside start buf) rest h p k = k

  segments_from-IsSegmented :
      (seg o : ℕ) (s : Scan) (rest : Str)
      → ScanReads o s rest
      → IsSegmented (begin_of o s) (segments_from seg o s rest)
  unfolding segments_from
  segments_from-IsSegmented seg o between [] h = (tt, tt)
  segments_from-IsSegmented seg o (inside start buf) [] h =
      (((Reads-StandsAt h, omega arith), tt), (tt, tt))
  segments_from-IsSegmented seg o s (c ∷ cs) h =
      let r = role seg s c in
      emit_at-IsSegmented r o c s (segments_from seg (o + 1) (scan_next r o c s) cs)
        (Reads-StandsAt h) h.place
        (segments_from-IsSegmented seg (o + 1) (scan_next r o c s) cs
          (scan_next-Reads r o c s cs h))

  -- Each segment stands in the text at its offset and ends before the next one begins.
  pub segments-standing :
      (seg : ℕ)
      → All (From 0) (segments_from seg 0 between text)
        × EachPair PieceBefore (segments_from seg 0 between text)
  segments-standing seg = segments_from-IsSegmented seg 0 between text (Reads-start text 0)
