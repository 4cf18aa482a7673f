-- ===== src/Report.antt =====
-- The shared result types of the correctors and the inventory, checkdigit/correction_report.py.
pub mod Inventory
use checkdigit.Common.{
  ℕ, ◌+◌, Bool, true, false, ◌&&◌, not, List, [], ◌∷◌, Option, none, some, if◌then◌else◌, length,
  take, leb, Str, slice, str_eq,
}
use checkdigit.Kernel.Types.{
  IdentifierType, iso6346, ilu, Status, valid, corrected, flagged, not_a_target, invalid_structure,
  OwnerPolicy, Reason, CorrectionResult,
}

-- Where an identifier stands: the source's label texts, with the numbers they show.
pub data Label : Type 0 where
  line_col : (line col : ℕ) → Label
  row_col : (row col : ℕ) → Label
  line_and_start : (line col_start : ℕ) → Label
  equipment_segment : Label
  check_element : Label
  reference_segment : Label
  attribute : (element attr : Str) → Label

-- An offset of a flag, or of an id that was looked for: `str.find` answers -1 where it finds
-- nothing.
pub data Offset : Type 0 where
  at : ℕ → Offset
  minus_one : Offset

pub record Occurrence : Type 0 where
  pub offset : ℕ
  pub label : Label
  pub before : Str
  pub after : Str

pub record Change : Type 0 where
  pub old : Str
  pub new : Str
  pub printed_check : Str
  pub computed_check : Str
  pub id_type : IdentifierType
  pub occurrences : List Occurrence
  pub reason : Reason

pub record Flag : Type 0 where
  pub offset : Offset
  pub eqid : Str
  pub suggested_check : Str
  pub reason : Reason
  pub occurrences : ℕ

pub data Basis : Type 0 where
  printed_check_valid mathematical_candidate unverified : Basis

-- `near_misses` is empty here; the service fills it in later.
pub record ContainerRecord : Type 0 where
  pub as_found : Str
  pub canonical : Str
  pub owner : Str
  pub category : Str
  pub id_type : IdentifierType
  pub status : Status
  pub printed_check : Str
  pub computed_check : Str
  pub occurrences : ℕ
  pub normalized : Str
  pub candidate : Option Str
  pub identity_basis : Basis

-- `corrected_b64` is None for the text formats.
pub record CorrectionReport : Type 0 where
  pub owner_policy : OwnerPolicy
  pub total_containers : ℕ
  pub corrected : List Change
  pub flagged : List Flag
  pub valid : ℕ
  pub empty_id : ℕ
  pub invalid : ℕ
  pub corrected_text : Option Str
  pub containers : List ContainerRecord

-- `x or ""`
abbrev pub or_empty : Option Str → Str
or_empty none = []
or_empty (some s) = s

abbrev pub is_status : Status → Status → Bool
is_status valid valid = true
is_status corrected corrected = true
is_status flagged flagged = true
is_status not_a_target not_a_target = true
is_status invalid_structure invalid_structure = true
is_status _ _ = false

-- `final_status == "corrected" and bool(r.corrected)`
abbrev non_empty : Option Str → Bool
non_empty (some (c ∷ cs)) = true
non_empty _ = false

unfoldable pub is_applied : CorrectionResult → Status → Bool
is_applied r final = is_status final corrected && non_empty r.corrected

unfoldable pub canonical_of : CorrectionResult → Status → Str
canonical_of r final = if is_applied r final then or_empty r.corrected else r.normalized

candidate_of : CorrectionResult → Option Str
candidate_of r =
    if non_empty r.corrected && not (str_eq (or_empty r.corrected) r.normalized)
    then r.corrected
    else none

basis_of : CorrectionResult → Status → Basis
basis_of r final =
    if is_status final valid
    then printed_check_valid
    else if is_applied r final
    then mathematical_candidate
    else unverified

is_bic_type : IdentifierType → Bool
is_bic_type iso6346 = true
is_bic_type ilu = true
is_bic_type _ = false

unfoldable pub new_record : CorrectionResult → Status → ContainerRecord
unfolding candidate_of basis_of is_bic_type
new_record r final =
    let canonical = canonical_of r final in
    let is_bic = is_bic_type r.id_type && leb 4 (length canonical) in
    record {
      as_found = r.raw;
      canonical = canonical;
      owner = if is_bic then take 3 canonical else [];
      category = if is_bic then slice canonical 3 1 else [];
      id_type = r.id_type;
      status = final;
      printed_check = or_empty r.printed_check;
      computed_check = or_empty r.computed_check;
      occurrences = 1;
      normalized = r.normalized;
      candidate = candidate_of r;
      identity_basis = basis_of r final;
    }

-- `key == (canonical, r.raw, final_status)`: the key of a record is kept in its fields.
unfoldable pub same_key : ContainerRecord → CorrectionResult → Status → Bool
same_key rec r final =
    str_eq rec.canonical (canonical_of r final)
    && str_eq rec.as_found r.raw
    && is_status rec.status final

-- `groups.get(key)`, then a new record at the end or one more occurrence
unfoldable pub observe : CorrectionResult → Status → List ContainerRecord → List ContainerRecord
observe r final [] = new_record r final ∷ []
observe r final (rec ∷ recs) =
    if same_key rec r final
    then record rec { occurrences = rec.occurrences + 1 } ∷ recs
    else rec ∷ observe r final recs

unfoldable pub observe_all :
    List (CorrectionResult × Status) → List ContainerRecord → List ContainerRecord
observe_all [] groups = groups
observe_all ((r, final) ∷ rest) groups = observe_all rest (observe r final groups)

unfoldable pub inventory_from_results : List (CorrectionResult × Status) → List ContainerRecord
inventory_from_results dispositions = observe_all dispositions []
