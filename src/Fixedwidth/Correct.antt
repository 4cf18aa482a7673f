-- ===== src/Fixedwidth/Correct.antt =====
-- The fixed-width corrector as a whole.
use checkdigit.Common.{ℕ, ◌≡◌, refl, true, [], ◌∷◌, Str, matches, strip, find_at-strip}
use checkdigit.Fixedwidth.{field_ref, whole_field_ref}
use checkdigit.Kernel.Types.{bic_like}
use checkdigit.Policy.{Policy}

-- A field that is one token has a reference: the search for the stripped text never fails.
whole_field_ref-found :
    (raw : Str) (line start s0 : ℕ)
    → matches bic_like (strip raw) ≡ true
    → (i : ℕ) × (whole_field_ref raw line start s0 ≡ field_ref line start s0 (i, strip raw) ∷ [])
unfolding whole_field_ref
whole_field_ref-found raw line start s0 shape =
    let (i, e) = find_at-strip raw in (i, rw (shape, e) refl)
