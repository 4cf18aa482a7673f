-- ===== src/Policy.antt =====
-- The operator's per-prefix rules, checkdigit/policy.py.
pub mod Plan
pub mod Valid
pub mod Match
pub mod Complete
use checkdigit.Common.{
  strip, is_blank, find_at, is_empty, Bool, true, false, ◌&&◌, List, [], ◌∷◌, map, Option, none,
  some, ltb, ◌==◌, if◌then◌else◌, length, take, Str, str_eq, has, starts_with, is_space, Result, ok,
  err, bad_policy_value, allow_and_deny, reverse, not, ◌||◌,
}
use checkdigit.Kernel.Types.{OwnerPolicy, is_owner_policy}
use checkdigit.Kernel.Normalize.{upper}

-- `ResolvedTreatment`
pub record Treatment : Type 0 where
  pub owner_policy : OwnerPolicy
  pub force_flag : Bool
  pub corroborated : Bool

-- A set is the list of its members in the order in which Python walks it, a dictionary the list of
-- its items in insertion order.
pub record Policy : Type 0 where
  pub default_policy : OwnerPolicy
  pub allow : List Str
  pub deny : List Str
  pub per_prefix : List (Str × OwnerPolicy)

-- `Policy._norm`
unfoldable pub norm : Str → Str
norm p = upper (strip p)

-- `d[k] = v`: the item keeps its place, the last value wins.
unfoldable pub dict_set : Str → Str → List (Str × Str) → List (Str × Str)
dict_set k v [] = (k, v) ∷ []
dict_set k v ((j, w) ∷ d) = if str_eq j k then (j, v) ∷ d else (j, w) ∷ dict_set k v d

-- `d[k]`, or nothing where `k in d` fails
unfoldable pub dict_get {ℓ} : {V : Type ℓ} → Str → List (Str × V) → Option V
dict_get k [] = none
dict_get k ((j, v) ∷ d) = if str_eq j k then some v else dict_get k d

-- `{Policy._norm(k): k for k in keys}`, built from left to right
unfoldable pub norm_dict : List (Str × Str) → List Str → List (Str × Str)
norm_dict d [] = d
norm_dict d (k ∷ ks) = norm_dict (dict_set (norm k) k d) ks

-- `k.endswith("*")`
unfoldable pub is_wildcard : Str → Bool
is_wildcard [] = false
is_wildcard (c ∷ []) = c == b'*'
is_wildcard (c ∷ d ∷ cs) = is_wildcard (d ∷ cs)

-- `w[:-1]`
unfoldable pub stem : Str → Str
stem [] = []
stem (c ∷ []) = []
stem (c ∷ d ∷ cs) = c ∷ stem (d ∷ cs)

wildcards : List (Str × Str) → List (Str × Str)
wildcards [] = []
wildcards ((n, k) ∷ d) = if is_wildcard n then (n, k) ∷ wildcards d else wildcards d

-- `sorted(…, key=len, reverse=True)` is stable: an item goes behind those of its length that
-- stood before it.
unfoldable pub insert_longest : Str × Str → List (Str × Str) → List (Str × Str)
insert_longest e [] = e ∷ []
insert_longest e (f ∷ fs) =
    if ltb (length (f.0)) (length (e.0)) then e ∷ f ∷ fs else f ∷ insert_longest e fs

sort_longest : List (Str × Str) → List (Str × Str) → List (Str × Str)
sort_longest done [] = done
sort_longest done (e ∷ es) = sort_longest (insert_longest e done) es

first_stem : Str → List (Str × Str) → Option Str
first_stem prefix [] = none
first_stem prefix ((w, k) ∷ ws) =
    if starts_with (stem w) prefix then some k else first_stem prefix ws

-- The exact key, and the longest wildcard where there is none.
or_wildcard : Str → List (Str × Str) → Option Str → Option Str
or_wildcard prefix d (some k) = some k
or_wildcard prefix d none = first_stem prefix (sort_longest [] (wildcards d))

-- `Policy._match`
unfoldable pub match_key : Str → List Str → Option Str
unfolding or_wildcard first_stem sort_longest wildcards
match_key prefix keys =
    let p = upper prefix in let d = norm_dict [] keys in or_wildcard p d (dict_get p d)

abbrev pub is_some {ℓ} : {A : Type ℓ} → Option A → Bool
is_some none = false
is_some (some _) = true

abbrev pub or_default : OwnerPolicy → Option OwnerPolicy → OwnerPolicy
or_default d none = d
or_default d (some v) = v

-- `self.per_prefix[hit]`; `hit` is one of the keys
unfoldable pub per_prefix_policy : Policy → Option Str → OwnerPolicy
per_prefix_policy p none = p.default_policy
per_prefix_policy p (some k) = or_default p.default_policy (dict_get k p.per_prefix)

unfoldable pub keys : List (Str × OwnerPolicy) → List Str
keys [] = []
keys ((k, _) ∷ d) = k ∷ keys d

unfoldable pub resolve : Policy → Str → Treatment
unfolding per_prefix_policy
resolve p token =
    let prefix = take 3 (upper token) in
    if is_some (match_key prefix p.deny)
    then record { owner_policy = p.default_policy; force_flag = true; corroborated = false }
    else if is_some (match_key prefix p.allow)
    then record { owner_policy = p.default_policy; force_flag = false; corroborated = true }
    else record {
      owner_policy = per_prefix_policy p (match_key prefix (keys p.per_prefix));
      force_flag = false;
      corroborated = false;
    }

unfoldable pub all_policies : List (Str × OwnerPolicy) → Bool
all_policies [] = true
all_policies ((_, v) ∷ d) = is_owner_policy v && all_policies d

unfoldable pub overlaps : List Str → List Str → Bool
overlaps [] deny = false
overlaps (a ∷ allow) deny = has (map norm deny) (norm a) || overlaps allow deny

-- `__post_init__`
unfoldable pub make_policy :
    OwnerPolicy → List Str → List Str → List (Str × OwnerPolicy) → Result Policy
unfolding all_policies overlaps
make_policy default_policy allow deny per_prefix =
    if not (is_owner_policy default_policy) || not (all_policies per_prefix)
    then err bad_policy_value
    else if overlaps allow deny
    then err allow_and_deny
    else ok (record {
      default_policy = default_policy;
      allow = allow;
      deny = deny;
      per_prefix = per_prefix;
    })
