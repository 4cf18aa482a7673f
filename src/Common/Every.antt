-- ===== src/Common/Every.antt =====
-- `all(test(x) for x in xs)`
use mathlib.Core.Bool.{Bool, true, ◌&&◌}
use mathlib.Core.List.{List, [], ◌∷◌}
use mathlib.Core.Path.{◌≡◌}
use checkdigit.Common.Lists.{All}
use checkdigit.Common.Tests.{&&-true}

module _ {ℓ} {A : Type ℓ} (test : A → Bool) where
  unfoldable pub all : List A → Bool
  all [] = true
  all (x ∷ xs) = test x && all xs

  pub all_lem : (xs : List A) → all xs ≡ true → All (λ x. test x ≡ true) xs
  unfolding all
  all_lem [] h = tt
  all_lem (x ∷ xs) h = let (here, rest) = &&-true (test x) (all xs) h in (here, all_lem xs rest)
