-- ===== src/Edifact.antt =====
-- UN/EDIFACT messages, checkdigit/edifact_locator.py.
pub mod Segments
pub mod Refs
pub mod Corrector
pub mod Correct
use checkdigit.Report.{Offset, at, minus_one}
use checkdigit.Common.{
  text_at, strip, is_blank, find_at, is_empty, zero, suc, ℕ, ◌+◌, Bool, true, false, ◌&&◌, not,
  List, [], ◌∷◌, ◌++◌, map, Option, none, some, ◌==◌, leb, if◌then◌else◌, length, drop, take,
  get_or, Str, codes, str_eq, contains, is_space, starts_with, suc,
}

pub record Separators : Type 0 where
  pub component : ℕ
  pub element : ℕ
  pub decimal : ℕ
  pub release : ℕ
  pub segment : ℕ

abbrev pub default_separators : Separators
default_separators = record {
  component = b':';
  element = b'+';
  decimal = b'.';
  release = b'?';
  segment = b'\'';
}

-- `text[:3] == "UNA"`
abbrev pub has_advice : Str → Bool
has_advice text = str_eq (take 3 text) (codes "UNA")

-- `s[i]` is read where `s` is `text[3:9]`, six characters long.
unfoldable pub detect_separators : Str → Separators
detect_separators text =
    if has_advice text && leb 9 (length text)
    then record {
      component = get_or text 3 0;
      element = get_or text 4 0;
      decimal = get_or text 5 0;
      release = get_or text 6 0;
      segment = get_or text 8 0;
    }
    else default_separators

-- The variables of the loop of `_split_segments`; `skipping` holds in its inner loop, behind a
-- terminator.
pub record Scan : Type 0 where
  pub skipping : Bool
  pub escaped : Bool
  pub start : ℕ
  pub buf : Str

-- `text[i] in "\r\n \t"`
abbrev pub is_gap : ℕ → Bool
is_gap c = contains c (b'\r' ∷ b'\n' ∷ b' ' ∷ b'\t' ∷ [])

-- What the character at offset `o` is to the loop.
pub data Role : Type 0 where
  gap escapes ends content : Role

unfoldable pub role : Separators → Scan → ℕ → Role
role sep s c =
    if s.skipping && is_gap c
    then gap
    else if s.escaped
    then content
    else if c == sep.release
    then escapes
    else if c == sep.segment
    then ends
    else content

unfoldable pub scan_next : Role → ℕ → ℕ → Scan → Scan
scan_next gap o c s = record { skipping = true; escaped = false; start = o + 1; buf = [] }
scan_next ends o c s = record { skipping = true; escaped = false; start = o + 1; buf = [] }
scan_next escapes o c s = record {
  skipping = false;
  escaped = true;
  start = s.start;
  buf = s.buf ++ (c ∷ []);
}
scan_next content o c s = record {
  skipping = false;
  escaped = false;
  start = s.start;
  buf = s.buf ++ (c ∷ []);
}

-- `if seg.strip(): yield seg, start`, before the rest
unfoldable pub emit : Scan → List (Str × ℕ) → List (Str × ℕ)
emit s rest = if is_blank s.buf then rest else (s.buf, s.start) ∷ rest

abbrev pub emit_at : Role → Scan → List (Str × ℕ) → List (Str × ℕ)
emit_at ends s rest = emit s rest
emit_at _ s rest = rest

-- The loop from offset `o` on
unfoldable pub split_from : Separators → ℕ → Scan → Str → List (Str × ℕ)
unfolding emit scan_next
split_from sep o s [] = emit s []
split_from sep o s (c ∷ cs) =
    let r = role sep s c in
    let rest = split_from sep (o + 1) (scan_next r o c s) cs in emit_at r s rest

abbrev pub start_scan : ℕ → Scan
start_scan i = record { skipping = false; escaped = false; start = i; buf = [] }

-- `_split_segments`: the service advice in front is skipped.
unfoldable pub split_segments : Str → Separators → List (Str × ℕ)
split_segments text sep =
    let i = if has_advice text then 9 else 0 in split_from sep i (start_scan i) (drop i text)

-- `_split_on`, with its loop variables
unfoldable pub split_on_from : (delim release : ℕ) → (escaped : Bool) → (buf : Str) → Str → List Str
split_on_from delim release escaped buf [] = buf ∷ []
split_on_from delim release true buf (c ∷ cs) =
    split_on_from delim release false (buf ++ (c ∷ [])) cs
split_on_from delim release false buf (c ∷ cs) =
    let is_release = c == release in
    let is_delim = not is_release && c == delim in
    let buf' = if is_release then buf else if is_delim then [] else buf ++ (c ∷ []) in
    let rest = split_on_from delim release is_release buf' cs in
    if is_delim then buf ∷ rest else rest

abbrev pub split_on : Str → ℕ → ℕ → List Str
split_on s delim release = split_on_from delim release false [] s

pub record Segment : Type 0 where
  pub tag : Str
  pub elements : List (List Str)
  pub raw : Str
  pub start : ℕ

unfoldable pub parse_segment : Str → ℕ → Separators → Segment
parse_segment raw start sep =
    let elems_raw = split_on raw sep.element sep.release in
    record {
      tag = text_at 0 elems_raw;
      elements = map (λ e. split_on e sep.component sep.release) elems_raw;
      raw = raw;
      start = start;
    }

unfoldable pub parse_all : Separators → List (Str × ℕ) → List Segment
parse_all sep [] = []
parse_all sep ((raw, start) ∷ found) = parse_segment raw start sep ∷ parse_all sep found

unfoldable pub iter_segments : Str → List Segment
iter_segments text = let sep = detect_separators text in parse_all sep (split_segments text sep)

-- The offset of `8260` in the source is -1 where the id of a segment at the start of the text is
-- not found in the segment.
pub record EquipmentRef : Type 0 where
  pub eqid : Str
  pub qualifier : Str
  pub size_type : Str
  pub raw_segment : Str
  pub seg_start : ℕ
  pub eqid_offset : Option Offset

-- `seg.start + seg.raw.find(eqid)`
unfoldable pub offset_from : ℕ → Option ℕ → Offset
offset_from start (some i) = at (start + i)
offset_from zero none = minus_one
offset_from (suc start) none = at start

-- `els[i][0] if len(els) > i and els[i] else ""`
unfoldable pub first_component : ℕ → List (List Str) → Str
unfolding text_at
first_component i [] = []
first_component zero (e ∷ els) = text_at 0 e
first_component (suc i) (e ∷ els) = first_component i els

unfoldable pub ref_of : Segment → EquipmentRef
ref_of seg =
    let eqid = first_component 2 seg.elements in
    record {
      eqid = eqid;
      qualifier = first_component 1 seg.elements;
      size_type = first_component 3 seg.elements;
      raw_segment = seg.raw;
      seg_start = seg.start;
      eqid_offset =
          if is_empty eqid then none else some (offset_from seg.start (find_at 0 eqid seg.raw));
    }

unfoldable pub refs_in : List Segment → List EquipmentRef
refs_in [] = []
refs_in (seg ∷ segs) =
    let rest = refs_in segs in if str_eq seg.tag (codes "EQD") then ref_of seg ∷ rest else rest

unfoldable pub locate_equipment : Str → List EquipmentRef
locate_equipment text = refs_in (iter_segments text)
