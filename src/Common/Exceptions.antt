-- ===== src/Common/Exceptions.antt =====
-- The exceptions of the Python code. A function that may raise returns a `Result`.
use Prim.Native.Nat.{ℕ}
use mathlib.Core.Path.{◌≡◌, refl}
use checkdigit.Common.Integers.{ℤ}
use checkdigit.Common.Text.{Str}

-- One constructor for each `raise` of the modelled code, with what its message shows.
pub data Error : Type 0 where
  bad_character : ℕ → Error
  bad_body_length : ℕ → Error
  bad_uic_body : Str → Error
  bad_owner_policy : Error
  bad_policy_value : Error
  allow_and_deny : Error
  overlapping_edit : ℕ → ℕ → Error
  verification_failed : ℕ → Str → Str → Error
  unequal_lengths : Error
  index_outside : ℕ → ℕ → Error
  edit_before_start : Error
  missing_offset : Error
  column_not_found : Str → Error
  bad_column_range : ℤ → ℤ → Error
  xml_declaration : Error
  xml_malformed : Error
  occurrence_mismatch : Str → ℕ → ℕ → Error

-- What a call comes to: an exception or a value.
pub data Result {ℓ} (A : Type ℓ) : Type ℓ where
  err : (raised : Error) → Result A
  ok : (returned : A) → Result A

-- A call that may raise, and what the caller does with its value.
infixl 5 ◌>>=◌
abbrev pub ◌>>=◌ {ℓ κ} :
    {A : Type ℓ} {B : Type κ} (call : Result A) (rest : A → Result B) → Result B
call >>= rest = elim call [ err raised ↦ err raised | ok a ↦ rest a ]

module _ {ℓ} {A : Type ℓ} where
  pub ok_injective : {a b : A} → ok a ≡ ok b → a ≡ b
  ok_injective h = cc

  pub >>=-ok : (call : Result A) → (call >>= λ a. ok a) ≡ call
  >>=-ok (err raised) = refl
  >>=-ok (ok a) = refl

  -- A chain that returns got a value from its first call.
  pub >>=-eq-ok {κ} :
      {B : Type κ} (call : Result A) (rest : A → Result B) {b : B}
      → (call >>= rest) ≡ ok b
      → (a : A) × (call ≡ ok a) × (rest a ≡ ok b)
  >>=-eq-ok (err raised) rest h = cc
  >>=-eq-ok (ok a) rest h = (a, refl, h)
