-- ===== src/Nearmiss/Suggest.antt =====
-- The entries and the order of `suggest`, checkdigit/nearmiss.py.
use checkdigit.Common.{
  ℕ, ◌≤◌, ◌≡◌, refl, inl, inr, true, false, ◌||◌, not, List, [], ◌∷◌, arith, leb, length, take,
  length-take, Str, str_eq, All, All-imp, All-take, EachPair, EachPair-take, Any, Bool-cases,
  All-imp,
}
use checkdigit.Nearmiss.{
  osa_distance, str_lt, Suggestion, ahead_of, within, insert_suggestion, sort_suggestions, suggest,
}

str_lt-asymm : (s t : Str) → str_lt s t ≡ true → str_lt t s ≡ false
unfolding str_lt
str_lt-asymm [] [] h = refl
str_lt-asymm [] (d ∷ t) h = refl
str_lt-asymm (c ∷ s) [] h = absurd (cc)
str_lt-asymm (c ∷ s) (d ∷ t) h = ground (arith, str_lt-asymm s t)

str_lt-later : (s t u : Str) → str_lt t s ≡ false → str_lt u t ≡ false → str_lt u s ≡ false
unfolding str_lt
str_lt-later [] [] u h k = k
str_lt-later [] (d ∷ t) [] h k = refl
str_lt-later [] (d ∷ t) (e ∷ u) h k = refl
str_lt-later (c ∷ s) [] u h k = absurd (cc)
str_lt-later (c ∷ s) (d ∷ t) [] h k = absurd (cc)
str_lt-later (c ∷ s) (d ∷ t) (e ∷ u) h k = ground (arith, str_lt-later s t u)

ahead_of-asymm : (s t : Suggestion) → ahead_of s t ≡ true → ahead_of t s ≡ false
unfolding ahead_of
ahead_of-asymm s t h = ground (arith, str_lt-asymm s.eqid t.eqid)

ahead_of-later :
    (s t u : Suggestion) → ahead_of t s ≡ false → ahead_of u t ≡ false → ahead_of u s ≡ false
unfolding ahead_of
ahead_of-later s t u h k = ground (arith, str_lt-later s.eqid t.eqid u.eqid)

-- The second does not belong before the first.
abbrev pub InOrder : Suggestion → Suggestion → Type 0
InOrder s t = ahead_of t s ≡ false

insert_suggestion-All :
    (P : Suggestion → Type 0) (s : Suggestion) (ts : List Suggestion)
    → P s
    → All P ts
    → All P (insert_suggestion s ts)
unfolding insert_suggestion
insert_suggestion-All P s [] p h = (p, tt)
insert_suggestion-All P s (t ∷ ts) p (h, hs) = elim (Bool-cases (ahead_of t s)) [
  | inl before ↦ rw before (h, insert_suggestion-All P s ts p hs)
  | inr behind ↦ rw behind (p, (h, hs))
]

insert_suggestion-InOrder :
    (s : Suggestion) (ts : List Suggestion)
    → EachPair InOrder ts
    → EachPair InOrder (insert_suggestion s ts)
unfolding insert_suggestion
insert_suggestion-InOrder s [] h = (tt, tt)
insert_suggestion-InOrder s (t ∷ ts) (h, hs) = elim (Bool-cases (ahead_of t s)) [
  | inl before ↦ rw before (
    insert_suggestion-All (InOrder t) s ts (ahead_of-asymm t s before) h,
    insert_suggestion-InOrder s ts hs,
  )
  | inr behind ↦ rw behind (
    (behind, All-imp (InOrder t) (InOrder s) ts (λ u k. ahead_of-later s t u behind k) h),
    (h, hs),
  )
]

module _ (body10 : Str) (exclude : Str) (max_distance : ℕ) where
  -- An entry of the pool that is near and not excluded
  abbrev pub IsNear : List (Str × ℕ) → Suggestion → Type 0
  IsNear pool s =
      Any (λ e. (e.0 ≡ s.eqid) × (e.1 ≡ s.times_seen)) pool
      × (str_eq s.eqid exclude ≡ false)
      × (osa_distance body10 (take 10 s.eqid) max_distance ≡ s.distance)
      × (s.distance ≤ max_distance)

  IsNear-later :
      (e : Str × ℕ) (pool : List (Str × ℕ)) (ss : List Suggestion)
      → All (IsNear pool) ss
      → All (IsNear (e ∷ pool)) ss
  IsNear-later e pool ss =
      All-imp (IsNear pool) (IsNear (e ∷ pool)) ss (λ s (k, a, b, c). (inr k, a, b, c))

  within-IsNear :
      (pool : List (Str × ℕ)) → All (IsNear pool) (within body10 exclude max_distance pool)
  unfolding within
  within-IsNear [] = tt
  within-IsNear ((eqid, seen) ∷ pool) =
      let rest =
        IsNear-later (eqid, seen) pool (within body10 exclude max_distance pool)
          (within-IsNear pool) in
      let d = osa_distance body10 (take 10 eqid) max_distance in
      elim (Bool-cases (str_eq eqid exclude || not (leb d max_distance))) [
        | inl passed ↦ rw passed rest
        | inr kept ↦ rw kept ((inl (refl, refl), ground arith, refl, ground arith), rest)
      ]

  sort_suggestions-InOrder : (ss : List Suggestion) → EachPair InOrder (sort_suggestions ss)
  unfolding sort_suggestions
  sort_suggestions-InOrder [] = tt
  sort_suggestions-InOrder (s ∷ ss) =
      insert_suggestion-InOrder s (sort_suggestions ss) (sort_suggestions-InOrder ss)

  sort_suggestions-All :
      (P : Suggestion → Type 0) (ss : List Suggestion) → All P ss → All P (sort_suggestions ss)
  unfolding sort_suggestions
  sort_suggestions-All P [] h = tt
  sort_suggestions-All P (s ∷ ss) (h, hs) =
      insert_suggestion-All P s (sort_suggestions ss) h (sort_suggestions-All P ss hs)

  -- `suggest` returns at most `limit` entries of the pool, in the order of distance, of times seen and
  -- of the number; none is excluded, and each lies within the bound.
  pub suggest-IsNear :
      (pool : List (Str × ℕ)) (limit : ℕ)
      → All (IsNear pool) (suggest body10 pool exclude max_distance limit)
        × EachPair InOrder (suggest body10 pool exclude max_distance limit)
        × (length (suggest body10 pool exclude max_distance limit) ≤ limit)
  unfolding suggest
  suggest-IsNear pool limit =
      let near = within body10 exclude max_distance pool in
      let sorted = sort_suggestions near in
      (
        All-take (IsNear pool) limit sorted
            (sort_suggestions-All (IsNear pool) near (within-IsNear pool)),
        EachPair-take InOrder limit sorted (sort_suggestions-InOrder near),
        omega (arith, length-take limit sorted),
      )
