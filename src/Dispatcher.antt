-- ===== src/Dispatcher.antt =====
-- The choice of a corrector by content or by the caller's hint, checkdigit/dispatcher.py.
pub mod Hinted
use checkdigit.Common.{
  ℕ, Bool, true, false, ◌&&◌, ◌||◌, List, [], ◌∷◌, Option, none, some, ◌==◌, leb, if◌then◌else◌,
  length, take, drop, Str, codes, str_eq, contains, has, starts_with, find_at, is_space, Result, ok,
  err, ◌>>=◌, column_not_found, bad_column_range, Error,
}
use checkdigit.Csv.{Options, ColumnSel, correct_csv}
use checkdigit.Edifact.Corrector.{correct_edifact}
use checkdigit.Fixedwidth.{ColRange, correct_fixedwidth}
use checkdigit.Kernel.Decide.{Registry}
use checkdigit.Kernel.Types.{OwnerPolicy}
use checkdigit.Policy.{Policy}
use checkdigit.Report.{CorrectionReport}
use checkdigit.Snx.{XmlTools}
use checkdigit.Snx.Corrector.{correct_snx}
use checkdigit.Txt.{correct_txt}
use checkdigit.X12.{CharTests}
use checkdigit.X12.Corrector.{correct_x12}

pub data Format : Type 0 where
  edifact snx x12 txt csv fixed xlsx unsupported : Format

-- Why a payload is not supported: a constructor for each message
pub data Refusal : Type 0 where
  no_reason : Refusal
  unknown_xml csv_without_columns fixed_without_ranges : Refusal
  column_error : Error → Refusal
  corrupt_zip word_document presentation other_zip pdf : Refusal

pub record Detection : Type 0 where
  pub fmt : Format
  pub reason : Refusal

abbrev pub detected : Format → Detection
detected fmt = record { fmt = fmt; reason = no_reason }

abbrev pub refused : Refusal → Detection
refused reason = record { fmt = unsupported; reason = reason }

-- What Python's libraries do for the formats
pub record Tools : Type 0 where
  pub xml : XmlTools
  pub char_tests : CharTests
  pub lower : Str → Str

-- `text.lstrip("\ufeff \t\r\n")`
unfoldable pub lstrip_marks : Str → Str
lstrip_marks [] = []
lstrip_marks (c ∷ cs) =
    if contains c (0xfeff ∷ b' ' ∷ b'\t' ∷ b'\r' ∷ b'\n' ∷ []) then lstrip_marks cs else c ∷ cs

-- `word in s`
abbrev pub occurs : Str → Str → Bool
occurs word s = elim (find_at 0 word s) [ none ↦ false | some _ ↦ true ]

abbrev pub is_letter : ℕ → Bool
is_letter c = leb b'A' c && leb c b'Z' || leb b'a' c && leb c b'z'

-- `snx[\s/>]`
abbrev pub is_snx_tag : Str → Bool
is_snx_tag s =
    starts_with (codes "snx") s
    && elim (drop 3 s) [ [] ↦ false | c ∷ _ ↦ is_space c || c == b'/' || c == b'>' ]

module _ (is_word : ℕ → Bool) where
  -- `[\w.-]*:snx[\s/>]`: the class does not hold the colon.
  unfoldable pub is_prefixed_tag : Str → Bool
  is_prefixed_tag [] = false
  is_prefixed_tag (c ∷ cs) =
      let rest = is_prefixed_tag cs in
      if is_word c || c == b'.' || c == b'-' then rest else c == b':' && is_snx_tag cs

  -- `re.search(r"<(?:[A-Za-z][\w.-]*:)?snx[\s/>]", head)`
  unfoldable pub has_snx_tag : Str → Bool
  has_snx_tag [] = false
  has_snx_tag (c ∷ cs) =
      c == b'<'
        && (is_snx_tag cs || elim cs [ [] ↦ false | d ∷ ds ↦ is_letter d && is_prefixed_tag ds ])
      || has_snx_tag cs

unfoldable pub detect_format : Tools → Str → Detection
detect_format tools text =
    let s = lstrip_marks text in
    let head = take 1000 s in
    if starts_with (codes "<?xml") s || starts_with (codes "<") s
    then if has_snx_tag tools.xml.is_word head
        || occurs (codes "<line-discharge-list") head
        || occurs (codes "<container") s && occurs (codes "eqid=") s
        || occurs (codes "<unit") s && occurs (codes "unique-key=") s
      then detected snx
      else refused unknown_xml
    else if starts_with (codes "UNA") s
        || starts_with (codes "UNB") s
        || occurs (codes "UNB+") head
        || occurs (codes "UNH+") head
    then detected edifact
    else if contains b'~' s
        && (starts_with (codes "ISA") s
            || occurs (codes "ISA*") head
            || occurs (codes "GS*") head
            || occurs (codes "ST*") head)
    then detected x12
    else detected txt

-- The settings that the callers pass on
pub record Settings : Type 0 where
  pub owner_policy : OwnerPolicy
  pub trust : Bool
  pub known : Registry
  pub policy : Option Policy

abbrev pub Outcome : Type 0
Outcome = Detection × Option CorrectionReport

abbrev pub with_report : Detection → Result CorrectionReport → Result Outcome
with_report det call = do report ← call; ok (det, some report)

unfoldable pub route_format : Tools → Format → Detection → Str → Settings → Result Outcome
route_format tools edifact det text settings =
    with_report det (correct_edifact text settings.owner_policy settings.policy)
route_format tools snx det text settings =
    with_report det (correct_snx tools.xml text settings.owner_policy settings.policy)
route_format tools x12 det text settings =
    with_report det (correct_x12 tools.char_tests text settings.owner_policy settings.policy)
route_format tools txt det text settings =
    with_report det
      (correct_txt text settings.trust settings.owner_policy settings.known settings.policy)
route_format tools _ det text settings = ok (det, none)

unfoldable pub correct : Tools → Str → Settings → Result Outcome
correct tools text settings =
    let det = detect_format tools text in route_format tools det.fmt det text settings

-- `parse_options` with the defaults filled in; no columns or ranges stand for a missing key.
pub record ParseOptions : Type 0 where
  pub csv_options : Options
  pub ranges : List ColRange
  pub header_lines : ℕ
  pub whole_field : Bool

-- `except CsvError`
unfoldable pub catch_csv : Result CorrectionReport → Result Outcome
catch_csv (ok report) = ok (detected csv, some report)
catch_csv (err (column_not_found name)) = ok (refused (column_error (column_not_found name)), none)
catch_csv (err e) = err e

-- `except FixedWidthError`
unfoldable pub catch_fixed : Result CorrectionReport → Result Outcome
catch_fixed (ok report) = ok (detected fixed, some report)
catch_fixed (err (bad_column_range a b)) = ok (refused (column_error (bad_column_range a b)), none)
catch_fixed (err e) = err e

unfoldable pub csv_hint : Tools → Str → Options → Settings → Result Outcome
csv_hint tools text options settings = elim (options.columns) [
  | [] ↦ ok (refused csv_without_columns, none)
  | _ ∷ _ ↦ catch_csv (
      correct_csv tools.lower text options settings.trust settings.owner_policy settings.known
        settings.policy)
]

unfoldable pub fixed_hint : Str → ParseOptions → Settings → Result Outcome
fixed_hint text options settings = elim (options.ranges) [
  | [] ↦ ok (refused fixed_without_ranges, none)
  | _ ∷ _ ↦ catch_fixed (
      correct_fixedwidth text options.ranges settings.trust settings.owner_policy
        options.header_lines options.whole_field settings.known settings.policy)
]

unfoldable pub correct_with_hint : Tools → Str → Str → ParseOptions → Settings → Result Outcome
correct_with_hint tools text format_hint options settings =
    if str_eq format_hint (codes "csv")
    then csv_hint tools text options.csv_options settings
    else if has (codes "fixed" ∷ codes "fixedwidth" ∷ codes "fixed_width" ∷ []) format_hint
    then fixed_hint text options settings
    else correct tools text settings

-- `detect_bytes`; `names` is the name list of the archive, nothing for a bad one.
unfoldable pub detect_bytes : (Str → Option (List Str)) → Str → Option Detection
detect_bytes names data_bytes =
    if starts_with (b'P' ∷ b'K' ∷ 3 ∷ 4 ∷ []) data_bytes
    then some (elim (names data_bytes) [
      | none ↦ refused corrupt_zip
      | some members ↦
          if has members (codes "xl/workbook.xml")
          then detected xlsx
          else if has members (codes "word/document.xml")
          then refused word_document
          else if has members (codes "ppt/presentation.xml")
          then refused presentation
          else refused other_zip
    ])
    else if starts_with (codes "%PDF-") data_bytes
    then some (refused pdf)
    else none
