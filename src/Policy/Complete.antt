-- ===== src/Policy/Complete.antt =====
-- `_match` of checkdigit/policy.py finds a key wherever one covers the prefix.
use checkdigit.Common.{
  arith, ◌≡◌, refl, sym, true, false, Bool, ◌||◌, ◌&&◌, List, [], ◌∷◌, Option, none, some, inl, inr,
  ltb, length, Str, str_eq, str_eq_iff, has, starts_with, Bool-cases,
}
use checkdigit.Kernel.Normalize.{upper}
use checkdigit.Policy.{
  norm, dict_set, dict_get, norm_dict, is_wildcard, stem, wildcards, insert_longest, sort_longest,
  first_stem, or_wildcard, match_key, is_some,
}
use checkdigit.Policy.Match.{CoversPrefix}

module _ (test : Str → Bool) where
  -- Some item of the dictionary has a key that passes the test.
  some_key : List (Str × Str) → Bool
  some_key [] = false
  some_key ((k, v) ∷ d) = test k || some_key d

  dict_set-keeps :
      (k v : Str) (d : List (Str × Str)) → some_key d ≡ true → some_key (dict_set k v d) ≡ true
  unfolding some_key dict_set
  dict_set-keeps k v [] h = absurd (cc)
  dict_set-keeps k v ((j, w) ∷ d) h = ground (arith, dict_set-keeps k v d)

  dict_set-adds :
      (k v : Str) (d : List (Str × Str)) → test k ≡ true → some_key (dict_set k v d) ≡ true
  unfolding some_key dict_set
  dict_set-adds k v [] h = ground arith
  dict_set-adds k v ((j, w) ∷ d) h = elim (Bool-cases (str_eq j k)) [
    | inl hit ↦
        let same : k ≡ j = sym ((str_eq_iff j k).0 hit) in
        rw hit (let g = rw same at h in ground arith)
    | inr miss ↦ rw miss (ground (arith, dict_set-adds k v d h))
  ]

  norm_dict-keeps :
      (d : List (Str × Str)) (ks : List Str) → some_key d ≡ true → some_key (norm_dict d ks) ≡ true
  unfolding norm_dict
  norm_dict-keeps d [] h = h
  norm_dict-keeps d (k ∷ ks) h =
      norm_dict-keeps (dict_set (norm k) k d) ks (dict_set-keeps (norm k) k d h)

  norm_dict-adds :
      (d : List (Str × Str)) (ks : List Str) (k : Str)
      → has ks k ≡ true
      → test (norm k) ≡ true
      → some_key (norm_dict d ks) ≡ true
  unfolding norm_dict has
  norm_dict-adds d [] k h t = absurd (cc)
  norm_dict-adds d (x ∷ ks) k h t = elim (Bool-cases (str_eq x k)) [
    | inl hit ↦
        let same : k ≡ x = sym ((str_eq_iff x k).0 hit) in
        norm_dict-keeps (dict_set (norm x) x d) ks (dict_set-adds (norm x) x d (rw same at t))
    | inr miss ↦ norm_dict-adds (dict_set (norm x) x d) ks k (rw miss at h) t
  ]

  insert_longest-adds :
      (e : Str × Str) (d : List (Str × Str))
      → (test e.0 || some_key d) ≡ true
      → some_key (insert_longest e d) ≡ true
  unfolding some_key insert_longest
  insert_longest-adds (k, v) [] h = h
  insert_longest-adds (k, v) ((j, w) ∷ d) h = elim (Bool-cases (ltb (length j) (length k))) [
    | inl longer ↦ rw longer h
    | inr not_longer ↦ rw not_longer (ground (arith, insert_longest-adds (k, v) d))
  ]

  sort_longest-adds :
      (sorted d : List (Str × Str))
      → (some_key sorted || some_key d) ≡ true
      → some_key (sort_longest sorted d) ≡ true
  unfolding some_key sort_longest
  sort_longest-adds sorted [] h = ground arith
  sort_longest-adds sorted ((k, v) ∷ d) h =
      sort_longest-adds (insert_longest (k, v) sorted) d
        (ground (arith, insert_longest-adds (k, v) sorted))

module _ (prefix : Str) where
  abbrev begins : Str → Bool
  begins n = starts_with (stem n) prefix

  abbrev covers : Str → Bool
  covers n = str_eq n prefix || (is_wildcard n && begins n)

  wildcards-begins :
      (d : List (Str × Str))
      → dict_get prefix d ≡ none
      → some_key covers d ≡ true
      → some_key begins (wildcards d) ≡ true
  unfolding some_key wildcards dict_get
  wildcards-begins [] e h = absurd (cc)
  wildcards-begins ((k, v) ∷ d) e h = elim (Bool-cases (str_eq k prefix)) [
    | inl hit ↦ absurd (let bad = rw hit at e in cc)
    | inr miss ↦ ground (arith, wildcards-begins d)
  ]

  first_stem-found :
      (ws : List (Str × Str)) → some_key begins ws ≡ true → is_some (first_stem prefix ws) ≡ true
  unfolding some_key first_stem
  first_stem-found [] h = absurd (cc)
  first_stem-found ((w, k) ∷ ws) h = elim (Bool-cases (begins w)) [
    | inl hit ↦ rw hit refl
    | inr miss ↦ rw miss (first_stem-found ws (rw miss at h))
  ]

  or_wildcard-found :
      (d : List (Str × Str)) (exact : Option Str)
      → dict_get prefix d ≡ exact
      → some_key covers d ≡ true
      → is_some (or_wildcard prefix d exact) ≡ true
  unfolding or_wildcard some_key
  or_wildcard-found d (some k) e h = refl
  or_wildcard-found d none e h =
      first_stem-found (sort_longest [] (wildcards d))
        (sort_longest-adds begins [] (wildcards d) (wildcards-begins d e h))

  CoversPrefix-covers : (k : Str) → CoversPrefix prefix k → covers (norm k) ≡ true
  CoversPrefix-covers k (inl same) = let exact = (str_eq_iff (norm k) prefix).1 same in ground arith
  CoversPrefix-covers k (inr (wild, h)) = ground arith

-- Where one of the keys covers the upper-cased prefix, `_match` returns a key.
pub match_key-found :
    (prefix : Str) (keys : List Str) (k : Str)
    → has keys k ≡ true
    → CoversPrefix (upper prefix) k
    → is_some (match_key prefix keys) ≡ true
unfolding match_key
match_key-found prefix keys k member h =
    let d = norm_dict [] keys in
    or_wildcard-found (upper prefix) d (dict_get (upper prefix) d) refl (
      norm_dict-adds (covers (upper prefix)) [] keys k member
        (CoversPrefix-covers (upper prefix) k h))
