-- ===== src/Tests/Dispatcher.antt =====
-- The dispatcher at a plain text and at a small table.
use checkdigit.Common.{
  ◌≡◌, refl, ◌&&◌, ◌||◌, true, leb, ◌==◌, is_digit, is_upper, [], ◌∷◌, Str, codes, none, ok,
  find_at, contains, starts_with, is_space,
}
use checkdigit.Csv.{named}
use checkdigit.Dispatcher.{
  Tools, Settings, Outcome, ParseOptions, csv, detected, x12, unknown_xml, refused, lstrip_marks,
  is_prefixed_tag, has_snx_tag, detect_format, correct, correct_with_hint, snx,
}
use checkdigit.Dispatcher.Hinted.{
  IsServed, correct_with_hint-IsServed, correct-returns, IsServable, IsAnswer,
}
use checkdigit.Kernel.Types.{strict}

abbrev tools : Tools
tools = record {
  xml = record {
    parse = λ text. none;
    same_letter = λ p c. p == c;
    is_word = λ c. is_digit c || is_upper c || leb b'a' c && leb c b'z' || c == b'_';
  };
  char_tests = record {
    isalnum = λ c. is_digit c || is_upper c || leb b'a' c && leb c b'z';
    isdigit = is_digit;
  };
  lower = λ s. s;
}

abbrev settings : Settings
settings = record { owner_policy = strict; trust = true; known = none; policy = none }

-- An XML document that names no container is refused, and a prefixed SNX root is not.
xml_run : detect_format tools (codes " <note>CSQU3054384</note>") ≡ refused unknown_xml
unfolding detect_format lstrip_marks contains has_snx_tag is_prefixed_tag starts_with find_at
xml_run = refl

prefixed_run : (detect_format tools (codes "<n:snx>")).fmt ≡ snx
unfolding detect_format lstrip_marks contains has_snx_tag is_prefixed_tag starts_with find_at
    is_space
prefixed_run = refl

abbrev x12_text : Str
x12_text = codes "ST*1~N9*EQ*CSQU3054384~"

x12_run : detect_format tools x12_text ≡ detected x12
unfolding detect_format lstrip_marks contains has_snx_tag is_prefixed_tag starts_with find_at
x12_run = refl

IsServable-run : IsServable tools x12_text settings (detect_format tools x12_text).fmt
unfolding detect_format lstrip_marks contains has_snx_tag is_prefixed_tag starts_with find_at
IsServable-run = tt

correct-returns_example :
    IsAnswer tools x12_text settings
      (detect_format tools x12_text).fmt
      (detect_format tools x12_text)
      (correct tools x12_text settings)
correct-returns_example = correct-returns tools x12_text settings refl refl IsServable-run

abbrev by_box : ParseOptions
by_box = record {
  csv_options = record {
    columns = named (codes "Box") ∷ [];
    delimiter = none;
    has_header = true;
    whole_cell = true;
  };
  ranges = [];
  header_lines = 0;
  whole_field = true;
}

correct_with_hint-IsServed_example :
    (out : Outcome) × (correct_with_hint tools
        (codes "Id,Box\n1,CSQU3054384\n")
        (codes "csv")
        by_box
        settings
      ≡ ok out)
    × IsServed tools (codes "Id,Box\n1,CSQU3054384\n") settings csv out
correct_with_hint-IsServed_example =
    correct_with_hint-IsServed tools (codes "Id,Box\n1,CSQU3054384\n") settings by_box refl refl
