-- ===== src/X12.antt =====
-- ANSI X12 messages, checkdigit/x12_locator.py up to `locate_equipment`.
pub mod Segments
pub mod Corrector
pub mod Fielded
pub mod Located
pub mod Correct
use checkdigit.Common.{
  ℕ, zero, suc, ◌+◌, Bool, true, false, ◌&&◌, ◌||◌, not, List, [], ◌∷◌, ◌++◌, Option, none, some,
  ◌==◌, leb, if◌then◌else◌, length, take, get_or, get_elem?, Str, codes, str_eq, contains,
}
use checkdigit.Report.{or_empty}

-- `str.isalnum` and `str.isdigit` of one character, from Python's Unicode database
pub record CharTests : Type 0 where
  pub isalnum : ℕ → Bool
  pub isdigit : ℕ → Bool

pub record Delims : Type 0 where
  pub element : ℕ
  pub subelement : ℕ
  pub segment : ℕ

abbrev pub default_delims : Delims
default_delims = record { element = b'*'; subelement = b':'; segment = b'~' }

-- The terminator of a malformed ISA header
unfoldable pub recovered_segment : Str → ℕ
recovered_segment text =
    if contains b'~' (take 200 text) then b'~' else if contains b'\n' text then b'\n' else b'~'

unfoldable pub detect_delims : CharTests → Str → Delims
unfolding recovered_segment
detect_delims tests text =
    let ele = get_or text 3 b'*' in
    let seg = get_or text 105 0 in
    if str_eq (take 3 text) (codes "ISA")
    then if leb 106 (length text) && (not (tests.isalnum seg) && not (seg == b' ' || seg == ele))
      then record { element = ele; subelement = get_or text 104 0; segment = seg }
      else record { element = ele; subelement = b':'; segment = recovered_segment text }
    else default_delims

-- `raw.split(ele)`, with the offset of each field: the loop variables are the offset `o`, the field's
-- start and what was read of it.
unfoldable pub split_from : ℕ → (o start : ℕ) → (buf : Str) → Str → List (Str × ℕ)
split_from ele o start buf [] = (buf, start) ∷ []
split_from ele o start buf (c ∷ cs) =
    let hit = c == ele in
    let rest =
      split_from ele (o + 1) (if hit then o + 1 else start) (if hit then [] else buf ++ (c ∷ []))
        cs in
    if hit then (buf, start) ∷ rest else rest

-- `text[pos] in ws`
abbrev pub is_gap : ℕ → Bool
is_gap c = contains c (b'\r' ∷ b'\n' ∷ b' ' ∷ b'\t' ∷ [])

-- The loop of `iter_segments`: between segments, or in one that began at `start`.
pub data Scan : Type 0 where
  between : Scan
  inside : (start : ℕ) (buf : Str) → Scan

pub data Role : Type 0 where
  gap ends content : Role

unfoldable pub role : ℕ → Scan → ℕ → Role
role seg between c = if is_gap c then gap else if c == seg then ends else content
role seg (inside start buf) c = if c == seg then ends else content

unfoldable pub scan_next : Role → ℕ → ℕ → Scan → Scan
scan_next gap o c s = between
scan_next ends o c s = between
scan_next content o c between = inside o (c ∷ [])
scan_next content o c (inside start buf) = inside start (buf ++ (c ∷ []))

-- A segment ends at its terminator at offset `o`; one that ends where it would begin is empty.
unfoldable pub emit_at : Role → ℕ → Scan → List (Str × ℕ) → List (Str × ℕ)
emit_at ends o between rest = ([], o) ∷ rest
emit_at ends o (inside start buf) rest = (buf, start) ∷ rest
emit_at _ o s rest = rest

-- The trailing segment may have no terminator.
unfoldable pub emit_last : Scan → List (Str × ℕ)
emit_last between = []
emit_last (inside start buf) = (buf, start) ∷ []

unfoldable pub segments_from : ℕ → ℕ → Scan → Str → List (Str × ℕ)
unfolding emit_last
segments_from seg o s [] = emit_last s
segments_from seg o s (c ∷ cs) =
    let r = role seg s c in
    let rest = segments_from seg (o + 1) (scan_next r o c s) cs in emit_at r o s rest

-- A segment: its text, its offset and its fields with theirs
pub record Segment : Type 0 where
  pub raw : Str
  pub start : ℕ
  pub fields : List (Str × ℕ)

unfoldable pub with_fields : ℕ → List (Str × ℕ) → List Segment
with_fields ele [] = []
with_fields ele ((raw, start) ∷ found) =
    record { raw = raw; start = start; fields = split_from ele start start [] raw }
    ∷ with_fields ele found

unfoldable pub iter_segments : Str → Delims → List Segment
iter_segments text delims = with_fields delims.element (segments_from delims.segment 0 between text)

pub data Kind : Type 0 where
  n7 n9_eq : Kind

pub record X12Ref : Type 0 where
  pub kind : Kind
  pub seg_start : ℕ
  pub raw_segment : Str
  pub initial : Option Str
  pub number : Option Str
  pub check_value : Option Str
  pub check_offset : Option ℕ
  pub description : Str
  pub token : Option Str
  pub token_offset : Option ℕ

-- `els[i] if len(els) > i else ""`, and the same with None
unfoldable pub value_of : Option (Str × ℕ) → Option Str
value_of none = none
value_of (some (s, _)) = some s

unfoldable pub offset_of : Option (Str × ℕ) → Option ℕ
offset_of none = none
offset_of (some (_, o)) = some o

abbrev pub value_at : ℕ → List (Str × ℕ) → Str
value_at i fields = or_empty (value_of (get_elem? fields i))

unfoldable pub n7_ref : Segment → X12Ref
n7_ref seg = record {
  kind = n7;
  seg_start = seg.start;
  raw_segment = seg.raw;
  initial = some (value_at 1 seg.fields);
  number = some (value_at 2 seg.fields);
  check_value = value_of (get_elem? seg.fields 18);
  check_offset = offset_of (get_elem? seg.fields 18);
  description = value_at 22 seg.fields;
  token = none;
  token_offset = none;
}

unfoldable pub n9_ref : Segment → X12Ref
n9_ref seg = record {
  kind = n9_eq;
  seg_start = seg.start;
  raw_segment = seg.raw;
  initial = none;
  number = none;
  check_value = none;
  check_offset = none;
  description = [];
  token = some (value_at 2 seg.fields);
  token_offset = offset_of (get_elem? seg.fields 2);
}

unfoldable pub refs_in : List Segment → List X12Ref
refs_in [] = []
refs_in (seg ∷ segs) =
    let rest = refs_in segs in
    let tag = value_at 0 seg.fields in
    if str_eq tag (codes "N7")
    then n7_ref seg ∷ rest
    else if str_eq tag (codes "N9") && str_eq (value_at 1 seg.fields) (codes "EQ")
    then n9_ref seg ∷ rest
    else rest

unfoldable pub locate_equipment : CharTests → Str → List X12Ref
locate_equipment tests text = refs_in (iter_segments text (detect_delims tests text))
