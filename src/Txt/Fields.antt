-- ===== src/Txt/Fields.antt =====
-- Tokens in the fields of a table: where they stand in the text, and that they are apart.
use mathlib.Core.Path.{subst}
use checkdigit.Common.{
  ℕ, zero, suc, ◌+◌, ◌≤◌, ◌≡◌, refl, sym, ap, ◌∙◌, true, List, [], ◌∷◌, ◌++◌, arith, length, take,
  drop, length-take, length-drop, take-append-drop, slice, Str, All, All-imp, EachPair, some, map,
  matches, length-matches, find_at, find_at-IsAt, IsAt, IsAt-slice, StandsAt,
}
use checkdigit.Grouped.{Located}
use checkdigit.Kernel.Types.{bic_like}
use checkdigit.Txt.{find_bic}
use checkdigit.Txt.Locate.{IsToken, RefBefore, IsMatch, Before, find_from-IsMatch, find_from-Before}

-- The references are tokens of the text that follow one another between two offsets.
abbrev pub RefChain : Str → ℕ → ℕ → List Located → Type 0
RefChain text from to [] = from ≤ to
RefChain text from to (ref ∷ refs) =
    (from ≤ ref.offset) × IsToken text ref × RefChain text (ref.offset + 11) to refs

module _ (text : Str) where
  pub RefChain-below : (from to : ℕ) (refs : List Located) → RefChain text from to refs → from ≤ to
  RefChain-below from to [] h = h
  RefChain-below from to (ref ∷ refs) (h, k, hs) =
      let below = RefChain-below (ref.offset + 11) to refs hs in omega arith

  pub RefChain-from :
      (a b to : ℕ) (refs : List Located) → a ≤ b → RefChain text b to refs → RefChain text a to refs
  RefChain-from a b to [] le h = omega arith
  RefChain-from a b to (ref ∷ refs) le (h, k, hs) = (omega arith, k, hs)

  pub RefChain-append :
      (from mid to : ℕ) (xs ys : List Located)
      → RefChain text from mid xs
      → RefChain text mid to ys
      → RefChain text from to (xs ++ ys)
  RefChain-append from mid to [] ys h k = RefChain-from from mid to ys h k
  RefChain-append from mid to (x ∷ xs) ys (h, l, hs) k =
      (h, l, RefChain-append (x.offset + 11) mid to xs ys hs k)

  pub RefChain-IsToken :
      (from to : ℕ) (refs : List Located) → RefChain text from to refs → All (IsToken text) refs
  RefChain-IsToken from to [] h = tt
  RefChain-IsToken from to (ref ∷ refs) (h, k, hs) =
      (k, RefChain-IsToken (ref.offset + 11) to refs hs)

  RefChain-after :
      (b from to : ℕ) (refs : List Located)
      → b ≤ from
      → RefChain text from to refs
      → All (λ ref. b ≤ ref.offset) refs
  RefChain-after b from to [] le h = tt
  RefChain-after b from to (ref ∷ refs) le (h, k, hs) =
      (omega arith, RefChain-after b (ref.offset + 11) to refs (omega arith) hs)

  pub RefChain-RefBefore :
      (from to : ℕ) (refs : List Located) → RefChain text from to refs → EachPair RefBefore refs
  RefChain-RefBefore from to [] h = tt
  RefChain-RefBefore from to (ref ∷ refs) (h, k, hs) = (
    RefChain-after (ref.offset + 11) (ref.offset + 11) to refs (omega arith) hs,
    RefChain-RefBefore (ref.offset + 11) to refs hs,
  )

  -- A token that stands at index `i` of a field stands in the text, inside the field.
  abbrev InField : ℕ → ℕ → ℕ → Str → Type 0
  InField base n i token =
      (slice text (base + i) 11 ≡ token)
      × (base + i + 11 ≤ base + n)
      × (matches bic_like token ≡ true)

  field-StandsAt : (base n : ℕ) → StandsAt text (slice text base n, base)
  field-StandsAt base n = take_all n (drop base text)
    where
      take_all : (n : ℕ) (xs : Str) → take (length (take n xs)) xs ≡ take n xs
      take_all zero xs = refl
      take_all (suc n) [] = refl
      take_all (suc n) (x ∷ xs) = ap (λ (s : Str). x ∷ s) (take_all n xs)

  token-InField :
      (base n i : ℕ) (token : Str)
      → matches bic_like token ≡ true
      → IsAt token (slice text base n) i
      → InField base n i token
  token-InField base n i token shape is =
      let long : length token ≡ 11 = length-matches bic_like token shape in
      let (here, inside) =
        IsAt-slice text (slice text base n) token base i (field-StandsAt base n) is in
      (
        subst (λ k. slice text (base + i) k ≡ token) long here,
        omega (arith, long, inside, length-take n (drop base text)),
        shape,
      )

  -- A field that is one token
  pub whole-InField :
      (base n i : ℕ) (token : Str)
      → matches bic_like token ≡ true
      → find_at 0 token (slice text base n) ≡ some i
      → InField base n i token
  whole-InField base n i token shape found =
      let (j, e, is) = find_at-IsAt 0 token (slice text base n) found in
      let same : j ≡ i = omega arith in
      token-InField base n i token shape (subst (IsAt token (slice text base n)) same is)

  -- The token of a match that was found in a field
  pub match-InField :
      (base n : ℕ) (f : ℕ × Str) → IsMatch (slice text base n) f → InField base n f.0 f.1
  match-InField base n (j, token) (here, shape) =
      let raw = slice text base n in
      let long : length token ≡ 11 = length-matches bic_like token shape in
      let inside : j + 11 ≤ length raw =
        omega (arith, long, ap length here, length-take 11 (drop j raw), length-drop j raw) in
      token-InField base n j token shape (record {
        pre = take j raw;
        post = drop 11 (drop j raw);
        whole =
            sym (take-append-drop j raw)
            ∙ ap (λ (s : Str). take j raw ++ s)
                (sym (take-append-drop 11 (drop j raw))
                  ∙ ap (λ (s : Str). s ++ drop 11 (drop j raw)) here);
        index = omega (arith, inside, length-take j raw);
      })

  -- The references made of the matches in a field follow one another inside it.
  pub found-RefChain :
      (base n : ℕ) (make : ℕ × Str → Located) (found : List (ℕ × Str)) (from : ℕ)
      → ((f : ℕ × Str) → (make f).eqid ≡ f.1)
      → ((f : ℕ × Str) → (make f).offset ≡ base + f.0)
      → base ≤ from
      → from ≤ base + n
      → All (IsMatch (slice text base n)) found
      → EachPair Before found
      → All (λ f. from ≤ base + f.0) found
      → RefChain text from (base + n) (map make found)
  found-RefChain base n make [] from same place ge le h k l = le
  found-RefChain base n make (f ∷ found) from same place ge le (h, hs) (k, ks) (l, ls) =
      let (here, inside, shape) = match-InField base n f h in
      let at_base : base + f.0 ≡ (make f).offset = sym (place f) in
      (
        omega (arith, at_base),
        (
          subst (λ o. slice text o 11 ≡ (make f).eqid) at_base (here ∙ sym (same f)),
          subst (λ s. matches bic_like s ≡ true) (sym (same f)) shape,
        ),
        subst (λ o. RefChain text (o + 11) (base + n) (map make found)) at_base
            (found-RefChain base n make found (base + f.0 + 11) same place (omega arith) inside hs
              ks
              (All-imp (Before f) (λ g. base + f.0 + 11 ≤ base + g.0) found
                (λ g (b : Before f g). omega arith) k)),
      )

  -- The matches in a field
  pub find_bic-RefChain :
      (base n : ℕ) (make : ℕ × Str → Located)
      → ((f : ℕ × Str) → (make f).eqid ≡ f.1)
      → ((f : ℕ × Str) → (make f).offset ≡ base + f.0)
      → RefChain text base (base + n) (map make (find_bic (slice text base n)))
  find_bic-RefChain base n make same place =
      let raw = slice text base n in
      found-RefChain base n make (find_bic raw) base same place (omega arith) (omega arith)
        (find_from-IsMatch raw raw 0 0 refl) (find_from-Before raw 0 0) (from_base (find_bic raw))
    where
      from_base : (found : List (ℕ × Str)) → All (λ f. base ≤ base + f.0) found
      from_base [] = tt
      from_base (f ∷ found) = (omega arith, from_base found)
