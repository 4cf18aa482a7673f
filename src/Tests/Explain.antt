-- ===== src/Tests/Explain.antt =====
-- The worked steps of check digits.
use checkdigit.Common.{◌≡◌, refl, [], ◌∷◌, ok, codes, map, reverse}
use checkdigit.Kernel.Explain.{Explanation, explain, uic_steps, UicStep}
use checkdigit.Kernel.Explain.Laws.{Agrees, explain-Agrees}
use checkdigit.Kernel.Normalize.{normalize}

-- The products of the body 21812471217, from its right end
uic_products_run :
    map (λ (s : UicStep). s.product) (uic_steps 0 [] 0 (reverse (codes "21812471217"))).0
    ≡ 5 ∷ 1 ∷ 4 ∷ 1 ∷ 5 ∷ 4 ∷ 4 ∷ 1 ∷ 7 ∷ 1 ∷ 4 ∷ []
unfolding uic_steps
uic_products_run = refl

explain-Agrees_example :
    (e : Explanation) × (explain (codes "csqu 305438-4") ≡ ok e)
    × Agrees (normalize (codes "csqu 305438-4")) e
explain-Agrees_example = explain-Agrees (codes "csqu 305438-4")
