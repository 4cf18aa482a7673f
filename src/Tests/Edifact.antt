-- ===== src/Tests/Edifact.antt =====
-- The EDIFACT locator at concrete messages.
use checkdigit.Common.{
  text_at, ◌≡◌, refl, [], ◌∷◌, Str, codes, some, All, EachPair, str_eq, contains, is_space,
  starts_with,
}
use checkdigit.Common.{is_blank, find_at}
use checkdigit.Report.{at}
use checkdigit.Edifact.{
  default_separators, detect_separators, split_segments, split_from, role, scan_next, emit,
  split_on_from, parse_segment, locate_equipment, iter_segments, parse_all, refs_in, ref_of,
  first_component, offset_from,
}
use checkdigit.Common.{StandsAt, PieceBefore}
use checkdigit.Edifact.Segments.{split_segments_sound}
use checkdigit.Edifact.Refs.{IsPlaced, locate_equipment-IsPlaced}

abbrev message : Str
message = codes "UNA:+.? 'UNH+1'\nEQD+CN+CSQU3054384+22G1'"

message_segments :
    split_segments message default_separators
    ≡ (codes "UNH+1", 9) ∷ (codes "EQD+CN+CSQU3054384+22G1", 16) ∷ []
unfolding split_segments split_from role scan_next emit is_blank str_eq contains is_space
message_segments = refl

message_refs :
    locate_equipment message
    ≡ record {
      eqid = codes "CSQU3054384";
      qualifier = codes "CN";
      size_type = codes "22G1";
      raw_segment = codes "EQD+CN+CSQU3054384+22G1";
      seg_start = 16;
      eqid_offset = some (at 23);
    }
      ∷ []
unfolding locate_equipment refs_in iter_segments parse_all split_segments split_from str_eq role
    detect_separators is_blank is_space parse_segment text_at split_on_from contains ref_of
    first_component offset_from starts_with emit find_at scan_next
message_refs = refl

-- An escaped component separator is split all the same.
escaped_component :
    (parse_segment (codes "EQD+CN+AB?:CD") 0 default_separators).elements
    ≡ (codes "EQD" ∷ []) ∷ (codes "CN" ∷ []) ∷ (codes "AB" ∷ codes "CD" ∷ []) ∷ []
unfolding parse_segment split_on_from
escaped_component = refl

-- An id that holds a release character is not found: its offset points before its segment.
released_id :
    locate_equipment (codes "UNH+1'EQD+CN+CSQU305?4384'")
    ≡ record {
      eqid = codes "CSQU3054384";
      qualifier = codes "CN";
      size_type = [];
      raw_segment = codes "EQD+CN+CSQU305?4384";
      seg_start = 6;
      eqid_offset = some (at 5);
    }
      ∷ []
unfolding locate_equipment refs_in iter_segments parse_all split_segments split_from str_eq role
    detect_separators is_blank is_space parse_segment text_at split_on_from contains ref_of
    first_component offset_from starts_with emit find_at scan_next
released_id = refl

split_segments_sound_example :
    All (StandsAt message) (split_segments message default_separators)
    × EachPair PieceBefore (split_segments message default_separators)
split_segments_sound_example = split_segments_sound message default_separators

locate_equipment-IsPlaced_example : All (IsPlaced message) (locate_equipment message)
locate_equipment-IsPlaced_example = locate_equipment-IsPlaced message
