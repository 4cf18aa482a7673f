-- ===== src/Kernel/Normalize.antt =====
-- `normalize` of checkdigit/equipment_checkdigit.py.
pub mod Casing
pub mod Closed
pub mod Laws
use checkdigit.Common.{
  ℕ, ◌-◌, ◌||◌, ◌&&◌, not, [], ◌∷◌, ◌++◌, leb, ◌==◌, if◌then◌else◌, Str, codes, is_space, List,
  Option, none, some, ◌+◌, ◌%◌,
}
use checkdigit.Kernel.Normalize.Casing.{shifted, alternating, special}

-- The upper case of a character whose upper case is more than one character
unfoldable pub special_in : List (ℕ × Str) → ℕ → Option Str
special_in [] c = none
special_in ((k, s) ∷ table) c = if k == c then some s else special_in table c

unfoldable pub alternate_in : List (ℕ × ℕ) → ℕ → ℕ
alternate_in [] c = c
alternate_in ((first, last) ∷ runs) c =
    if leb first c && leb c last && (c - first) % 2 == 0 then c - 1 else alternate_in runs c

unfoldable pub shifted_in : List (ℕ × ℕ × ℕ) → ℕ → ℕ
shifted_in [] c = alternate_in alternating c
shifted_in ((first, last, capital) ∷ runs) c =
    if leb first c && leb c last then capital + (c - first) else shifted_in runs c

abbrev pub or_shifted : ℕ → Option Str → Str
or_shifted c (some s) = s
or_shifted c none = shifted_in shifted c ∷ []

unfoldable pub wide_upper : ℕ → Str
wide_upper c = or_shifted c (special_in special c)

-- `str.upper` of one character, by the mappings of Unicode 14.0 (Python 3.11)
unfoldable pub upper_char : ℕ → Str
upper_char c =
    if leb b'a' c && leb c b'z' then (c - 32) ∷ [] else if leb c 0x7f then c ∷ [] else wide_upper c

-- `str.upper`
unfoldable pub upper : Str → Str
upper [] = []
upper (c ∷ cs) = upper_char c ++ upper cs

-- `re.sub(r"[\s\-]", "", token)`
unfoldable pub strip_separators : Str → Str
strip_separators [] = []
strip_separators (c ∷ cs) =
    if is_space c || c == b'-' then strip_separators cs else c ∷ strip_separators cs

unfoldable pub normalize : Str → Str
normalize token = upper (strip_separators token)
