-- ===== src/SizeType.antt =====
-- The ISO 6346 size/type codes, checkdigit/iso6346_sizetype.py.
mod Tables
pub mod Geometry
use checkdigit.Common.{
  ℕ, Bool, true, false, ◌&&◌, ◌||◌, not, List, [], ◌∷◌, ◌++◌, Option, none, some, ◌==◌, leb,
  if◌then◌else◌, length, get_or, Str, codes,
}
use checkdigit.Kernel.Normalize.{upper}
use checkdigit.Common.{strip}
unfoldable pub use Tables.*

-- The entries of `notes`, with the values that they show
pub data Note : Type 0 where
  not_four_characters : Str → Note
  length_unknown : ℕ → Note
  height_unknown : ℕ → Note
  type_unrecognised : ℕ → Note
  partially_decoded : Note

-- `teu` is 1.0 or 2.0.
pub record SizeType : Type 0 where
  pub code : Str
  pub defined : Bool
  pub length_mm : ℕ
  pub width_mm : ℕ
  pub height_mm : ℕ
  pub high_cube : Bool
  pub over_width : Bool
  pub group : Family
  pub teu : ℕ
  pub length_label : Str
  pub height_label : Str
  pub type_label : Str
  pub notes : List Note

-- `d.get(c, "?")`
abbrev pub or_question : Option Str → Str
or_question none = codes "?"
or_question (some s) = s

-- The variables that a character sets, with the note it adds where it is not known
pub record LengthPart : Type 0 where
  pub mm : ℕ
  pub label : Str
  pub notes : List Note

unfoldable pub length_part : ℕ → Option ℕ → LengthPart
length_part c none = record { mm = 6068; label = codes "?"; notes = length_unknown c ∷ [] }
length_part c (some mm) = record {
  mm = mm;
  label = or_question (lookup length_labels c);
  notes = [];
}

pub record HeightPart : Type 0 where
  pub mm : ℕ
  pub width : ℕ
  pub is_high : Bool
  pub is_wide : Bool
  pub label : Str
  pub notes : List Note

-- The digits, then the letters of the over-width codes, then the fallback
unfoldable pub height_part : ℕ → Option ℕ → Option ℕ → HeightPart
height_part c (some mm) letter = record {
  mm = mm;
  width = 2438;
  is_high = c == b'5' || c == b'6';
  is_wide = false;
  label = or_question (lookup height_labels c);
  notes = [];
}
height_part c none (some mm) = record {
  mm = mm;
  width = 2500;
  is_high = leb 2896 mm;
  is_wide = true;
  label = (if leb 2896 mm then codes "9ft6in (HC)" else codes "8ft6in") ++ codes ", pallet-wide";
  notes = [];
}
height_part c none none = record {
  mm = 2591;
  width = 2438;
  is_high = false;
  is_wide = false;
  label = codes "?";
  notes = height_unknown c ∷ [];
}

pub record GroupPart : Type 0 where
  pub family : Family
  pub label : Str
  pub notes : List Note

unfoldable pub group_part : ℕ → ℕ → Option Family → GroupPart
group_part c d none = record {
  family = undefined;
  label = codes "type " ++ (c ∷ d ∷ codes " (unrecognised)");
  notes = type_unrecognised c ∷ [];
}
group_part c d (some family) = record {
  family = family;
  label = or_question (lookup type_labels c) ++ (codes " (" ++ (c ∷ d ∷ codes ")"));
  notes = [];
}

abbrev pub is_undefined : Family → Bool
is_undefined family = elim family [ undefined ↦ true | _ ↦ false ]

abbrev pub no_notes : List Note → Bool
no_notes [] = true
no_notes (_ ∷ _) = false

-- `defined` is False from the first part on that adds a note.
unfoldable pub assemble : Str → LengthPart → HeightPart → GroupPart → SizeType
assemble raw l h g =
    let notes = l.notes ++ (h.notes ++ g.notes) in
    let defined = no_notes l.notes && no_notes h.notes && no_notes g.notes in
    record {
      code = raw;
      defined = defined;
      length_mm = l.mm;
      width_mm = h.width;
      height_mm = h.mm;
      high_cube = h.is_high;
      over_width = h.is_wide;
      group = g.family;
      teu = if leb 12000 l.mm then 2 else 1;
      length_label = l.label;
      height_label = h.label;
      type_label = g.label;
      notes =
          if not defined && not (is_undefined g.family)
          then notes ++ (partially_decoded ∷ [])
          else notes;
    }

abbrev pub fallback : Str → SizeType
fallback raw = record {
  code = raw;
  defined = false;
  length_mm = 6068;
  width_mm = 2438;
  height_mm = 2591;
  high_cube = false;
  over_width = false;
  group = undefined;
  teu = 1;
  length_label = codes "?";
  height_label = codes "?";
  type_label = codes "?";
  notes = not_four_characters raw ∷ [];
}

-- `decode` of `(code or "").strip().upper()`
unfoldable pub decode_raw : Str → SizeType
decode_raw raw =
    let c = get_or raw 0 0 in
    let h = get_or raw 1 0 in
    let t = get_or raw 2 0 in
    if not (length raw == 4)
    then fallback raw
    else assemble raw (length_part c (lookup length_table c))
        (height_part h (lookup height_table h) (lookup height_letter_table h))
        (group_part t (get_or raw 3 0) (lookup group_table t))

-- `None` counts as the empty text.
unfoldable pub decode : Option Str → SizeType
decode none = decode_raw (upper (strip []))
decode (some code) = decode_raw (upper (strip code))
