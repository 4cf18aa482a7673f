-- ===== src/Kernel/Router/Sound.antt =====
-- Corrected identifiers, and the router on them.
use checkdigit.Common.{
  ℕ, ◌+◌, ◌≡◌, ◌<◌, sym, ap, ◌∙◌, true, false, ◌&&◌, [], ◌∷◌, ◌++◌, arith, Str, take, matches,
  is_digit, length-matches, List, some, All, Bool, All-append, str_eq,
}
use checkdigit.Kernel.Decide.{
  Registry, digit_str, is_nonstandard, decide_uic, decide_bic, is_rail_vehicle,
}
use checkdigit.Kernel.Router.{
  bic_result, pseudo_prefix_result, route, is_trusted, corrected, char_str,
}
use checkdigit.Kernel.Router.Shapes.{
  bic_body, container_body, uic_body, AlnumClasses, matches_change_last, bic_split, matches-All,
  bic_body_alnum, container_split, container_body_alnum, uic_split, uic_body_alnum,
}
use checkdigit.Kernel.Router.Total.{
  Routed, size_type_field, bic, pseudo_prefix, uic_number, nothing,
}
use checkdigit.Kernel.Types.{
  IdentifierType, iso6346, uic, FieldContext, OwnerPolicy, CorrectionResult, is_lenient, is_alnum,
}
use checkdigit.Kernel.Router.Again.{
  Repairs, Repairs-last, AcceptedAs, digit_str_digit, bic_again, container_again, uic_again,
}

module _ (raw norm printed computed : Str) (context : FieldContext) where
  bic_result-corrected :
      (known : Registry) (t : IdentifierType)
      → (bic_result raw norm context known printed (t, computed)).status ≡ corrected
      → ((bic_result raw norm context known printed (t, computed)).corrected
          ≡ some (take 10 norm ++ computed))
        × (is_nonstandard t ≡ false)
        × (str_eq printed computed ≡ false)
        × ((bic_result raw norm context known printed (t, computed)).id_type ≡ t)
  unfolding bic_result decide_bic
  bic_result-corrected known t h = (ground arith, ground arith, ground arith, ground arith)

  pseudo_prefix_result-corrected :
      (policy : OwnerPolicy)
      → (pseudo_prefix_result raw norm context policy printed computed).status ≡ corrected
      → ((pseudo_prefix_result raw norm context policy printed computed).corrected
          ≡ some (take 10 norm ++ computed))
        × ((is_lenient policy && is_trusted context) ≡ true)
        × (str_eq printed computed ≡ false)
        × ((pseudo_prefix_result raw norm context policy printed computed).id_type ≡ iso6346)
  unfolding pseudo_prefix_result
  pseudo_prefix_result-corrected policy h = (ground arith, ground arith, ground arith, ground arith)

  decide_uic-corrected :
      (whole : Str)
      → (decide_uic raw norm context printed computed whole).status ≡ corrected
      → ((decide_uic raw norm context printed computed whole).corrected ≡ some whole)
        × (is_rail_vehicle context ≡ true)
        × (str_eq printed computed ≡ false)
        × ((decide_uic raw norm context printed computed whole).id_type ≡ uic)
  unfolding decide_uic
  decide_uic-corrected whole h = (ground arith, ground arith, ground arith, ground arith)

-- What a correction `c` of the normalised token is.
abbrev pub IsRepair : Str → FieldContext → Registry → OwnerPolicy → CorrectionResult → Str → Type 0
IsRepair norm context known policy r c =
    (r.corrected ≡ some c)
    × Repairs norm c
    × All (λ x. is_alnum x ≡ true) c
    × ((raw : Str) → AcceptedAs r.id_type (route raw c context known policy))

pub All-alnum_digit :
    (ps : List (ℕ → Bool)) (body : Str) (d : ℕ)
    → d < 10
    → AlnumClasses ps
    → matches ps body ≡ true
    → All (λ x. is_alnum x ≡ true) (body ++ digit_str d)
All-alnum_digit ps body d lt a m =
    All-append (λ x. is_alnum x ≡ true) body (digit_str d) (matches-All ps body a m)
      (ground arith, tt)

same_last :
    (ps : List (ℕ → Bool)) (n : ℕ) (norm : Str) (x d : ℕ)
    → d < 10
    → norm ≡ take n norm ++ x ∷ []
    → is_digit x ≡ true
    → matches (ps ++ is_digit ∷ []) norm ≡ false
    → matches (ps ++ is_digit ∷ []) (take n norm ++ digit_str d) ≡ false
same_last ps n norm x d lt e hx h =
    sym (matches_change_last ps is_digit (take n norm) x (48 + d) hx (digit_str_digit d lt))
    ∙ ap (matches (ps ++ is_digit ∷ [])) (sym e)
    ∙ h

-- Every result of the router that is corrected carries such a correction.
pub Routed-IsRepair :
    {raw norm : Str} {context : FieldContext} {known : Registry} {policy : OwnerPolicy}
    {r : CorrectionResult}
    → Routed raw norm context known policy r
    → r.status ≡ corrected
    → (c : Str) × IsRepair norm context known policy r c
Routed-IsRepair (size_type_field s) h = absurd (cc)
Routed-IsRepair {raw} {norm} {context} {known} {policy} (bic d s b check lt) h =
    let (x, e, hx, m) = bic_split norm b in
    let (is, standard, differ, t) =
      bic_result-corrected raw norm (char_str norm 10) (digit_str d) context known _ h in
    (
      take 10 norm ++ digit_str d,
      (
        is,
        Repairs-last 10 norm x (48 + d) (omega arith) (length-matches bic_body (take 10 norm) m) e
            differ,
        All-alnum_digit bic_body (take 10 norm) d lt bic_body_alnum m,
        λ raw'. rw t (bic_again raw' (take 10 norm) d lt context known policy s m check standard),
      ),
    )
Routed-IsRepair {raw} {norm} {context} {known} {policy} (pseudo_prefix d s b p check lt) h =
    let (x, e, hx, m) = container_split norm p in
    let (is, trusted, differ, t) =
      pseudo_prefix_result-corrected raw norm (char_str norm 10) (digit_str d) context policy h in
    let not_bic = same_last bic_body 10 norm x d lt e hx b in
    (
      take 10 norm ++ digit_str d,
      (
        is,
        Repairs-last 10 norm x (48 + d) (omega arith)
            (length-matches container_body (take 10 norm) m) e differ,
        All-alnum_digit container_body (take 10 norm) d lt container_body_alnum m,
        λ raw'. rw t (
            container_again raw' (take 10 norm) d lt context known policy s m not_bic check
              trusted),
      ),
    )
Routed-IsRepair {raw} {norm} {context} {known} {policy} (uic_number d s b p u check lt) h =
    let (x, e, hx, m) = uic_split norm u in
    let (is, rail, differ, t) =
      decide_uic-corrected raw norm (char_str norm 11) (digit_str d) context
        (take 11 norm ++ digit_str d) h in
    let not_bic = same_last bic_body 11 norm x d lt e hx b in
    let not_container = same_last container_body 11 norm x d lt e hx p in
    (
      take 11 norm ++ digit_str d,
      (
        is,
        Repairs-last 11 norm x (48 + d) (omega arith) (length-matches uic_body (take 11 norm) m) e
            differ,
        All-alnum_digit uic_body (take 11 norm) d lt uic_body_alnum m,
        λ raw'. rw t (
            uic_again raw' (take 11 norm) d lt context known policy s m not_bic not_container check
              rail),
      ),
    )
Routed-IsRepair (nothing s b p u) h = absurd (cc)
