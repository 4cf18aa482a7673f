-- ===== src/Tests/SizeType.antt =====
-- `decode` at concrete codes.
use checkdigit.Common.{◌≡◌, refl, true, false, [], ◌∷◌, codes, some, is_space}
use checkdigit.Kernel.Normalize.{upper, upper_char}
use checkdigit.Common.{strip}
use checkdigit.SizeType.{
  decode, decode_raw, assemble, length_part, height_part, group_part, lookup, reefer,
  length_unknown, partially_decoded,
}
use checkdigit.SizeType.Geometry.{IsCoherent, decode-IsCoherent}

high_cube_reefer : decode (some (codes " 45r1 ")) ≡ record {
  code = codes "45R1";
  defined = true;
  length_mm = 12192;
  width_mm = 2438;
  height_mm = 2896;
  high_cube = true;
  over_width = false;
  group = reefer;
  teu = 2;
  length_label = codes "40ft";
  height_label = codes "9ft6in (HC)";
  type_label = codes "Refrigerated (R1)";
  notes = [];
}
unfolding decode decode_raw upper upper_char strip is_space lookup length_part height_part
    group_part assemble
high_cube_reefer = refl

unassigned_length :
    (decode (some (codes "5CS0"))).notes ≡ length_unknown b'5' ∷ partially_decoded ∷ []
unfolding decode decode_raw upper upper_char strip is_space lookup length_part height_part
    group_part assemble
unassigned_length = refl

decode-IsCoherent_example : IsCoherent (decode (some (codes "5CS0")))
decode-IsCoherent_example = decode-IsCoherent (some (codes "5CS0"))
