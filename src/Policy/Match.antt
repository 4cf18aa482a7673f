-- ===== src/Policy/Match.antt =====
-- `_match` of checkdigit/policy.py and its dictionaries.
use checkdigit.Common.{
  ◌≡◌, ◌⊎◌, refl, sym, true, ◌||◌, List, [], ◌∷◌, Option, none, some, inl, inr, arith, ltb, length,
  Str, str_eq, str_eq_iff, str_eq_refl, has, starts_with, All, All-imp, Bool-cases,
}
use checkdigit.Kernel.Normalize.{upper}
use checkdigit.Policy.{
  norm, dict_set, dict_get, norm_dict, is_wildcard, stem, wildcards, insert_longest, sort_longest,
  first_stem, or_wildcard, match_key,
}

-- A key covers a prefix if its normal form is the prefix, or a wildcard whose stem begins it.
abbrev pub CoversPrefix : Str → Str → Type 0
CoversPrefix prefix k =
    (norm k ≡ prefix)
    ⊎ ((is_wildcard (norm k) ≡ true) × (starts_with (stem (norm k)) prefix ≡ true))

-- An item of the dictionary of normal forms
abbrev IsEntry : List Str → Str × Str → Type 0
IsEntry all (n, k) = (n ≡ norm k) × (has all k ≡ true)

has_self : (all : List Str) → All (λ k. has all k ≡ true) all
unfolding has
has_self [] = tt
has_self (x ∷ all) =
    let same = str_eq_refl x in
    (
      ground arith,
      All-imp (λ k. has all k ≡ true) (λ k. (str_eq x k || has all k) ≡ true) all
          (λ k (h : has all k ≡ true). ground arith) (has_self all),
    )

dict_set-All :
    (P : Str × Str → Type 0) (k v : Str) (d : List (Str × Str))
    → P (k, v)
    → All P d
    → All P (dict_set k v d)
unfolding dict_set
dict_set-All P k v [] h hs = (h, tt)
dict_set-All P k v ((j, w) ∷ d) h (hj, hs) = elim (Bool-cases (str_eq j k)) [
  | inl hit ↦ let same = (str_eq_iff j k).0 hit in rw hit (rw same h, hs)
  | inr miss ↦ rw miss (hj, dict_set-All P k v d h hs)
]

norm_dict-IsEntry :
    (all : List Str) (d : List (Str × Str)) (ks : List Str)
    → All (IsEntry all) d
    → All (λ k. has all k ≡ true) ks
    → All (IsEntry all) (norm_dict d ks)
unfolding norm_dict
norm_dict-IsEntry all d [] h k = h
norm_dict-IsEntry all d (x ∷ ks) h (hx, hs) =
    norm_dict-IsEntry all (dict_set (norm x) x d) ks
      (dict_set-All (IsEntry all) (norm x) x d (refl, hx) h) hs

module _ (P : Str × Str → Type 0) where
  dict_get-All :
      (n : Str) (d : List (Str × Str)) {k : Str} → All P d → dict_get n d ≡ some k → P (n, k)
  unfolding dict_get
  dict_get-All n [] h e = absurd (cc)
  dict_get-All n ((j, w) ∷ d) {k} (hj, hs) e = elim (Bool-cases (str_eq j n)) [
    | inl hit ↦
        let same : n ≡ j = sym ((str_eq_iff j n).0 hit) in
        let found : k ≡ w = ground arith in rw (same, found) hj
    | inr miss ↦ dict_get-All n d hs (ground arith)
  ]

  wildcards-All :
      (d : List (Str × Str)) → All P d → All (λ e. P e × (is_wildcard e.0 ≡ true)) (wildcards d)
  unfolding wildcards
  wildcards-All [] h = tt
  wildcards-All ((n, k) ∷ d) (h, hs) = elim (Bool-cases (is_wildcard n)) [
    | inl wild ↦ rw wild ((h, wild), wildcards-All d hs)
    | inr exact ↦ rw exact (wildcards-All d hs)
  ]

  insert_longest-All :
      (e : Str × Str) (d : List (Str × Str)) → P e → All P d → All P (insert_longest e d)
  unfolding insert_longest
  insert_longest-All e [] h hs = (h, tt)
  insert_longest-All e (f ∷ d) h (hf, hs) = elim (Bool-cases (ltb (length (f.0)) (length (e.0)))) [
    | inl longer ↦ rw longer (h, (hf, hs))
    | inr not_longer ↦ rw not_longer (hf, insert_longest-All e d h hs)
  ]

  sort_longest-All :
      (sorted d : List (Str × Str)) → All P sorted → All P d → All P (sort_longest sorted d)
  unfolding sort_longest
  sort_longest-All sorted [] h hs = h
  sort_longest-All sorted (e ∷ d) h (he, hs) =
      sort_longest-All (insert_longest e sorted) d (insert_longest-All e sorted he h) hs

  first_stem-All :
      (prefix : Str) (ws : List (Str × Str)) {k : Str}
      → All P ws
      → first_stem prefix ws ≡ some k
      → (w : Str) × P (w, k) × (starts_with (stem w) prefix ≡ true)
  unfolding first_stem
  first_stem-All prefix [] h e = absurd (cc)
  first_stem-All prefix ((w, j) ∷ ws) {k} (h, hs) e =
      elim (Bool-cases (starts_with (stem w) prefix)) [
        | inl hit ↦ let found : k ≡ j = ground arith in (w, rw found h, hit)
        | inr miss ↦ first_stem-All prefix ws hs (ground arith)
      ]

or_wildcard-CoversPrefix :
    (all : List Str) (prefix : Str) (d : List (Str × Str)) (exact : Option Str) {k : Str}
    → All (IsEntry all) d
    → dict_get prefix d ≡ exact
    → or_wildcard prefix d exact ≡ some k
    → (has all k ≡ true) × CoversPrefix prefix k
unfolding or_wildcard
or_wildcard-CoversPrefix all prefix d (some j) {k} h found e =
    let same : j ≡ k = ground arith in
    let (is_norm, member) = dict_get-All (IsEntry all) prefix d h found in
    let covers : (has all j ≡ true) × CoversPrefix prefix j = (member, inl (sym is_norm)) in
    rw same at covers
or_wildcard-CoversPrefix all prefix d none {k} h missed e =
    let Wild = λ (x : Str × Str). IsEntry all x × (is_wildcard x.0 ≡ true) in
    let (w, ((is_norm, member), wild), begins) =
      first_stem-All Wild prefix (sort_longest [] (wildcards d))
        (sort_longest-All Wild [] (wildcards d) tt (wildcards-All (IsEntry all) d h)) e in
    (member, inr (rw (sym is_norm) wild, rw (sym is_norm) begins))

-- What `_match` returns is one of the keys, and it covers the upper-cased prefix: its normal form is
-- the prefix, or a wildcard whose stem begins it.
pub match_key-CoversPrefix :
    (prefix : Str) (keys : List Str) {k : Str}
    → match_key prefix keys ≡ some k
    → (has keys k ≡ true) × CoversPrefix (upper prefix) k
unfolding match_key
match_key-CoversPrefix prefix keys e =
    let d = norm_dict [] keys in
    or_wildcard-CoversPrefix keys (upper prefix) d (dict_get (upper prefix) d)
      (norm_dict-IsEntry keys [] keys tt (has_self keys)) refl e
