-- ===== src/Snx.antt =====
-- Container XML, checkdigit/snx_locator.py and checkdigit/snx_corrector.py.
pub mod Corrector
pub mod Hardened
pub mod Spots
use checkdigit.Common.{
  ℕ, zero, suc, ◌+◌, ◌-◌, Bool, true, false, ◌&&◌, ◌||◌, not, List, [], ◌∷◌, ◌++◌, map, Option,
  none, some, ◌==◌, leb, if◌then◌else◌, length, take, drop, Str, codes, str_eq, starts_with,
  is_empty, Result, ok, err, ◌>>=◌, bad_owner_policy, xml_declaration, xml_malformed,
  occurrence_mismatch,
}
use checkdigit.Kernel.Router.{correct_identifier}
use checkdigit.Kernel.Types.{
  Status, valid, corrected, flagged, equipment_id, OwnerPolicy, is_owner_policy, CorrectionResult,
}
use checkdigit.Policy.{Policy}
use checkdigit.Report.{
  Label, attribute, Offset, at, minus_one, Occurrence, Change, Flag, CorrectionReport, or_empty,
  inventory_from_results,
}
use checkdigit.Substitution.{Edit, apply_edits}

-- An element as ElementTree shows it: its tag, and its attributes with their values
pub record Element : Type 0 where
  pub tag : Str
  pub attrib : List (Str × Str)

-- What Python's libraries do: `fromstring(text).iter()`, which fails on malformed XML; whether two
-- characters are one letter to `re.IGNORECASE`; and `\w` of one character.
pub record XmlTools : Type 0 where
  pub parse : Str → Option (List Element)
  pub same_letter : ℕ → ℕ → Bool
  pub is_word : ℕ → Bool

module _ (tools : XmlTools) where
  unfoldable pub starts_with_ignoring_case : Str → Str → Bool
  starts_with_ignoring_case [] s = true
  starts_with_ignoring_case (p ∷ ps) [] = false
  starts_with_ignoring_case (p ∷ ps) (c ∷ cs) =
      tools.same_letter p c && starts_with_ignoring_case ps cs

  -- `re.search` of a word
  unfoldable pub occurs_ignoring_case : Str → Str → Bool
  occurs_ignoring_case word [] = starts_with_ignoring_case word []
  occurs_ignoring_case word (c ∷ cs) =
      starts_with_ignoring_case word (c ∷ cs) || occurs_ignoring_case word cs

  unfoldable pub harden_and_parse : Str → Result (List Element)
  harden_and_parse text =
      if occurs_ignoring_case (codes "<!DOCTYPE") text
        || occurs_ignoring_case (codes "<!ENTITY") text
      then err xml_declaration
      else elim (tools.parse text) [ none ↦ err xml_malformed | some root ↦ ok root ]

-- `s.rsplit(sep, 1)[-1]`
unfoldable pub after_last : ℕ → Str → Str → Str
after_last sep buf [] = buf
after_last sep buf (c ∷ cs) = after_last sep (if c == sep then [] else buf ++ (c ∷ [])) cs

abbrev pub localname : Str → Str
localname name = after_last b':' [] (after_last b'}' [] name)

-- `(ln, an) in _EQID_ATTRS`
unfoldable pub carries_eqid : Str → Str → Bool
carries_eqid element attr =
    (str_eq element (codes "container") || str_eq element (codes "equipment"))
      && str_eq attr (codes "eqid")
    || str_eq element (codes "unit")
      && (str_eq attr (codes "id") || str_eq attr (codes "unique-key"))
    || str_eq element (codes "line-discharge-list") && str_eq attr (codes "unit-id")

-- `counts[val] = counts.get(val, 0) + 1`
unfoldable pub count_value : Str → List (Str × ℕ) → List (Str × ℕ)
count_value val [] = (val, 1) ∷ []
count_value val ((k, n) ∷ counts) =
    if str_eq k val then (k, n + 1) ∷ counts else (k, n) ∷ count_value val counts

unfoldable pub count_attributes : Str → List (Str × Str) → List (Str × ℕ) → List (Str × ℕ)
count_attributes element [] counts = counts
count_attributes element ((attr, val) ∷ attrib) counts =
    let named = not (is_empty val) && carries_eqid element (localname attr) in
    count_attributes element attrib (if named then count_value val counts else counts)

-- The counts of `_parsed_counts`
unfoldable pub parsed_counts : List Element → List (Str × ℕ) → List (Str × ℕ)
parsed_counts [] counts = counts
parsed_counts (el ∷ els) counts =
    parsed_counts els (count_attributes (localname el.tag) el.attrib counts)

-- `text.rfind("<")`, from offset `o` on
unfoldable pub last_open : ℕ → Option ℕ → Str → Option ℕ
last_open o found [] = found
last_open o found (c ∷ cs) = last_open (o + 1) (if c == b'<' then some o else found) cs

-- `[A-Za-z0-9_:.-]`
abbrev pub is_name_char : ℕ → Bool
is_name_char c =
    leb b'A' c && leb c b'Z'
    || leb b'a' c && leb c b'z'
    || leb b'0' c && leb c b'9'
    || c == b'_'
    || c == b':'
    || c == b'.'
    || c == b'-'

unfoldable pub name_prefix : Str → Str
name_prefix [] = []
name_prefix (c ∷ cs) = let rest = name_prefix cs in if is_name_char c then c ∷ rest else []

unfoldable pub element_of : Str → ℕ → Str
element_of text start = elim (last_open 0 none (take start text)) [
  | none ↦ codes "?"
  | some lt ↦
      let name = name_prefix (take 59 (drop (lt + 1) text)) in
      if is_empty name then codes "?" else localname name
]

-- `_SCAN_ATTR_NAMES`
abbrev pub scan_names : List Str
scan_names = codes "eqid" ∷ codes "id" ∷ codes "unique-key" ∷ codes "unit-id" ∷ []

-- `attr="val"`
abbrev pub assignment : Str → Str → Str
assignment attr val = attr ++ (b'=' ∷ b'"' ∷ (val ++ (b'"' ∷ [])))

-- The alternative that matches at the start of the text
unfoldable pub match_attr : Str → List Str → Str → Option Str
match_attr eqid [] s = none
match_attr eqid (name ∷ names) s =
    let rest = match_attr eqid names s in
    if starts_with (assignment name eqid) s then some name else rest

-- An identifier's value: its offset, and the element and the attribute that hold it
pub record Spot : Type 0 where
  pub offset : ℕ
  pub element : Str
  pub attr : Str

module _ (is_word : ℕ → Bool) (text : Str) (eqid : Str) where
  -- `\b` before a name, by the character before it
  abbrev pub is_boundary : Option ℕ → Bool
  is_boundary none = true
  is_boundary (some c) = not (is_word c)

  -- `pat.finditer(text)` from offset `o` on, behind the character `before`: the matches do not overlap.
  -- `skip` counts the characters of the last match that are still ahead.
  unfoldable pub spots_from : (skip o : ℕ) → Option ℕ → Str → List Spot
  spots_from skip o before [] = []
  spots_from (suc skip) o before (c ∷ cs) = spots_from skip (o + 1) (some c) cs
  spots_from zero o before (c ∷ cs) =
      elim (if is_boundary before then match_attr eqid scan_names (c ∷ cs) else none) [
        | none ↦ spots_from zero (o + 1) (some c) cs
        | some attr ↦
            record { offset = o + (length attr + 2); element = element_of text o; attr = attr }
            ∷ spots_from (length attr + 2 + length eqid) (o + 1) (some c) cs
      ]

  abbrev pub locate_occurrences : List Spot
  locate_occurrences = spots_from 0 0 none text

pub record SnxRef : Type 0 where
  pub eqid : Str
  pub occurrences : List Spot

unfoldable pub refs_of : (ℕ → Bool) → Str → List (Str × ℕ) → Result (List SnxRef)
refs_of is_word text [] = ok []
refs_of is_word text ((eqid, n) ∷ counts) =
    let occ = locate_occurrences is_word text eqid in
    let rest = refs_of is_word text counts in
    if length occ == n
    then rest >>= (λ refs. ok (record { eqid = eqid; occurrences = occ } ∷ refs))
    else err (occurrence_mismatch eqid n (length occ))

unfoldable pub locate_equipment : XmlTools → Str → Result (List SnxRef)
locate_equipment tools text = do
  root ← harden_and_parse tools text
  refs_of tools.is_word text (parsed_counts root [])
