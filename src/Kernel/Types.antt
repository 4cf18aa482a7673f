-- ===== src/Kernel/Types.antt =====
-- Part 2 of checkdigit/equipment_checkdigit.py: the taxonomy, the result type and the character
-- classes. A message of the source is a constructor of `Reason` with the values that it shows.
use checkdigit.Common.{
  ℕ, Bool, true, false, List, ◌++◌, Option, Str, codes, is_digit, is_upper, replicate, ◌||◌,
}

pub data IdentifierType : Type 0 where
  iso6346 ilu uic size_type unknown : IdentifierType

pub data FieldContext : Type 0 where
  equipment_id rail_vehicle size_type free_text unknown : FieldContext

pub data Status : Type 0 where
  valid corrected flagged not_a_target invalid_structure : Status

pub data Confidence : Type 0 where
  high low : Confidence

-- The `owner_policy` string: one of the two accepted values, or any other text.
pub data OwnerPolicy : Type 0 where
  strict lenient : OwnerPolicy
  other : Str → OwnerPolicy

-- `owner_policy in _OWNER_POLICIES`
abbrev pub is_owner_policy : OwnerPolicy → Bool
is_owner_policy strict = true
is_owner_policy lenient = true
is_owner_policy (other _) = false

-- `owner_policy == "lenient"`
abbrev pub is_lenient : OwnerPolicy → Bool
is_lenient lenient = true
is_lenient _ = false

pub data Reason : Type 0 where
  size_type_field : Reason
  nonstandard_category : (category : ℕ) (computed : Str) → Reason
  check_correct : IdentifierType → Reason
  check_wrong : IdentifierType → (printed computed : Str) → Reason
  owner_corroborated : IdentifierType → (printed computed owner : Str) → Reason
  free_text_failing : IdentifierType → (printed computed : Str) → Reason
  rail_vehicle_mismatch : IdentifierType → Reason
  pseudo_prefix_valid : (owner printed : Str) → Reason
  pseudo_prefix_corrected : (owner printed computed : Str) → Reason
  pseudo_prefix_flagged : (owner computed : Str) → Reason
  uic_outside_rail_vehicle : Bool → (printed computed : Str) → Reason
  no_structure : Reason
  on_deny_list : (prefix : Str) → Reason → Reason
  x12_bad_initial : (initial : Str) → Reason
  x12_long_serial : ℕ → Reason
  x12_not_transmitted : (computed : Str) → Reason
  x12_nonstandard_category : (category : ℕ) (computed : Str) → Reason
  x12_correct : IdentifierType → Reason
  x12_absent_element : (suggested : Str) → Reason
  x12_wrong : IdentifierType → (printed computed : Str) → Reason

pub record CorrectionResult : Type 0 where
  pub raw : Str
  pub normalized : Str
  pub id_type : IdentifierType
  pub status : Status
  pub confidence : Confidence
  pub reason : Reason
  pub printed_check : Option Str
  pub computed_check : Option Str
  pub corrected : Option Str

-- `changed`
abbrev pub changed : CorrectionResult → Bool
changed r = elim (r.status) [ Status.corrected ↦ true | _ ↦ false ]

abbrev pub is_alnum : ℕ → Bool
is_alnum c = is_upper c || is_digit c

-- `[A-Z]{3}([A-Z])[0-9]{6}([0-9])`
abbrev pub bic_like : List (ℕ → Bool)
bic_like = replicate 4 is_upper ++ replicate 7 is_digit

-- `[A-Z0-9]{4}[0-9]{7}`
abbrev pub container_shaped : List (ℕ → Bool)
container_shaped = replicate 4 is_alnum ++ replicate 7 is_digit

-- `[0-9]{12}`
abbrev pub uic_shaped : List (ℕ → Bool)
uic_shaped = replicate 12 is_digit

abbrev pub iso6346_categories : Str
iso6346_categories = codes "UJZ"

abbrev pub ilu_categories : Str
ilu_categories = codes "ABDEK"
