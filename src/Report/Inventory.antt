-- ===== src/Report/Inventory.antt =====
-- What the inventory of checkdigit/correction_report.py counts.
use checkdigit.Common.{ℕ, ◌+◌, ◌≡◌, refl, ◌∙◌, List, [], ◌∷◌, arith, length, Bool-cases, inl, inr}
use checkdigit.Kernel.Types.{CorrectionResult, Status}
use checkdigit.Report.{
  ContainerRecord, new_record, same_key, observe, observe_all, inventory_from_results,
}

-- The occurrences of all records
abbrev pub total_occurrences : List ContainerRecord → ℕ
total_occurrences [] = 0
total_occurrences (rec ∷ recs) = rec.occurrences + total_occurrences recs

total_occurrences-observe :
    (r : CorrectionResult) (final : Status) (recs : List ContainerRecord)
    → total_occurrences (observe r final recs) ≡ total_occurrences recs + 1
unfolding observe new_record
total_occurrences-observe r final [] = refl
total_occurrences-observe r final (rec ∷ recs) = elim (Bool-cases (same_key rec r final)) [
  | inl hit ↦ rw hit (omega arith)
  | inr miss ↦ rw miss (omega (arith, total_occurrences-observe r final recs))
]

total_occurrences-observe_all :
    (ds : List (CorrectionResult × Status)) (recs : List ContainerRecord)
    → total_occurrences (observe_all ds recs) ≡ total_occurrences recs + length ds
unfolding observe_all
total_occurrences-observe_all [] recs = omega arith
total_occurrences-observe_all ((r, final) ∷ ds) recs = omega (
  arith,
  total_occurrences-observe_all ds (observe r final recs),
  total_occurrences-observe r final recs,
)

-- The occurrences of the inventory's records add up to the number of dispositions: none is lost and
-- none counted twice.
pub total_occurrences-inventory_from_results :
    (dispositions : List (CorrectionResult × Status))
    → total_occurrences (inventory_from_results dispositions) ≡ length dispositions
unfolding inventory_from_results
total_occurrences-inventory_from_results dispositions =
    total_occurrences-observe_all dispositions [] ∙ omega arith
