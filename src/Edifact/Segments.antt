-- ===== src/Edifact/Segments.antt =====
-- Where the segments of an EDIFACT message stand.
use checkdigit.Common.{
  ℕ, ◌+◌, ◌≤◌, ◌≡◌, List, [], ◌∷◌, arith, length, drop, Str, if◌then◌else◌, All, EachPair, All-imp,
  Bool-cases, inl, inr, PieceBefore, Reads, Reads-cut, StandsAt, Reads-StandsAt, Reads-keep,
  Reads-start,
}
use checkdigit.Common.{is_blank}
use checkdigit.Edifact.{
  Separators, Role, gap, escapes, ends, content, Scan, role, scan_next, emit, emit_at, split_from,
  start_scan, split_segments, has_advice,
}

module _ (text : Str) where
  abbrev ScanReads : ℕ → Scan → Str → Type 0
  ScanReads o s = Reads text [] o s.start s.buf

  scan_next-Reads :
      (r : Role) (o c : ℕ) (s : Scan) (cs : Str)
      → ScanReads o s (c ∷ cs)
      → ScanReads (o + 1) (scan_next r o c s) cs
  unfolding scan_next
  scan_next-Reads gap o c s cs h = Reads-cut h
  scan_next-Reads ends o c s cs h = Reads-cut h
  scan_next-Reads escapes o c s cs h = Reads-keep h
  scan_next-Reads content o c s cs h = Reads-keep h

  -- What holds of the buffer, and of the rest, holds of the rest with the buffer put in front.
  emit-All :
      (P : Str × ℕ → Type 0) (s : Scan) (rest : List (Str × ℕ))
      → P (s.buf, s.start)
      → All P rest
      → All P (emit s rest)
  unfolding emit
  emit-All P s rest h hs = elim (Bool-cases (is_blank s.buf)) [
    | inl blank ↦ rw blank hs
    | inr kept ↦ rw kept (h, hs)
  ]

  emit_at-All :
      (P : Str × ℕ → Type 0) (r : Role) (s : Scan) (rest : List (Str × ℕ))
      → P (s.buf, s.start)
      → All P rest
      → All P (emit_at r s rest)
  emit_at-All P ends s rest h hs = emit-All P s rest h hs
  emit_at-All P gap s rest h hs = hs
  emit_at-All P escapes s rest h hs = hs
  emit_at-All P content s rest h hs = hs

  split_from-StandsAt :
      (sep : Separators) (o : ℕ) (s : Scan) (rest : Str)
      → ScanReads o s rest
      → All (StandsAt text) (split_from sep o s rest)
  unfolding split_from
  split_from-StandsAt sep o s [] h = emit-All (StandsAt text) s [] (Reads-StandsAt h) tt
  split_from-StandsAt sep o s (c ∷ cs) h =
      emit_at-All (StandsAt text) (role sep s c) s _ (Reads-StandsAt h)
        (split_from-StandsAt sep (o + 1) _ cs (scan_next-Reads (role sep s c) o c s cs h))

  -- No segment begins before the bound.
  abbrev NotBefore : ℕ → Str × ℕ → Type 0
  NotBefore b (_, start) = b ≤ start

  scan_next-start :
      (r : Role) (o c b : ℕ) (s : Scan) → b ≤ s.start → b ≤ o → b ≤ (scan_next r o c s).start
  unfolding scan_next
  scan_next-start gap o c b s h k = omega arith
  scan_next-start ends o c b s h k = omega arith
  scan_next-start escapes o c b s h k = h
  scan_next-start content o c b s h k = h

  split_from-NotBefore :
      (sep : Separators) (o b : ℕ) (s : Scan) (rest : Str)
      → b ≤ s.start
      → b ≤ o
      → All (NotBefore b) (split_from sep o s rest)
  unfolding split_from
  split_from-NotBefore sep o b s [] h k = emit-All (NotBefore b) s [] h tt
  split_from-NotBefore sep o b s (c ∷ cs) h k =
      let r = role sep s c in
      emit_at-All (NotBefore b) r s _ h
        (split_from-NotBefore sep (o + 1) b _ cs (scan_next-start r o c b s h k) (omega arith))

  emit-Before :
      (s : Scan) (rest : List (Str × ℕ))
      → All (PieceBefore (s.buf, s.start)) rest
      → EachPair PieceBefore rest
      → EachPair PieceBefore (emit s rest)
  unfolding emit
  emit-Before s rest h k = elim (Bool-cases (is_blank s.buf)) [
    | inl blank ↦ rw blank k
    | inr kept ↦ rw kept (h, k)
  ]

  emit_at-Before :
      (sep : Separators) (r : Role) (o c : ℕ) (s : Scan) (cs : Str)
      → o ≡ s.start + length s.buf
      → EachPair PieceBefore (split_from sep (o + 1) (scan_next r o c s) cs)
      → EachPair PieceBefore (emit_at r s (split_from sep (o + 1) (scan_next r o c s) cs))
  unfolding scan_next
  emit_at-Before sep ends o c s cs p k =
      let next = scan_next ends o c s in
      let rest = split_from sep (o + 1) next cs in
      emit-Before s rest
        (All-imp (NotBefore (o + 1)) (PieceBefore (s.buf, s.start)) rest
          (λ x (h : NotBefore (o + 1) x). omega arith)
          (split_from-NotBefore sep (o + 1) (o + 1) next cs (omega arith) (omega arith)))
        k
  emit_at-Before sep gap o c s cs p k = k
  emit_at-Before sep escapes o c s cs p k = k
  emit_at-Before sep content o c s cs p k = k

  split_from-Before :
      (sep : Separators) (o : ℕ) (s : Scan) (rest : Str)
      → ScanReads o s rest
      → EachPair PieceBefore (split_from sep o s rest)
  unfolding split_from
  split_from-Before sep o s [] h = emit-Before s [] tt tt
  split_from-Before sep o s (c ∷ cs) h =
      let r = role sep s c in
      emit_at-Before sep r o c s cs h.place
        (split_from-Before sep (o + 1) (scan_next r o c s) cs (scan_next-Reads r o c s cs h))

  -- Whatever the separators are, each segment of `split_segments` stands in the text at its offset,
  -- release characters included, and ends before the next one begins.
  pub split_segments_sound :
      (sep : Separators)
      → All (StandsAt text) (split_segments text sep)
        × EachPair PieceBefore (split_segments text sep)
  unfolding split_segments
  split_segments_sound sep =
      let i = if has_advice text then 9 else 0 in
      (
        split_from-StandsAt sep i (start_scan i) (drop i text) (Reads-start text i),
        split_from-Before sep i (start_scan i) (drop i text) (Reads-start text i),
      )
