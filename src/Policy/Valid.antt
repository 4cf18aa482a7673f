-- ===== src/Policy/Valid.antt =====
-- Policies that the constructor of checkdigit/policy.py accepts.
use checkdigit.Common.{
  true, false, List, [], ◌∷◌, ◌≡◌, arith, Str, Option, none, some, take, ok, str_eq, Bool-cases,
  inl, inr, &&-true,
}
use checkdigit.Kernel.Normalize.{upper}
use checkdigit.Kernel.Types.{OwnerPolicy, is_owner_policy}
use checkdigit.Policy.{
  Policy, all_policies, overlaps, make_policy, resolve, dict_get, per_prefix_policy, match_key,
  keys, or_default,
}

-- What `__post_init__` has checked
pub record IsValid (p : Policy) : Type 0 where
  pub default_accepted : is_owner_policy p.default_policy ≡ true
  pub prefixes_accepted : all_policies p.per_prefix ≡ true
  pub disjoint : overlaps p.allow p.deny ≡ false

pub make_policy-IsValid :
    (default_policy : OwnerPolicy) (allow deny : List Str) (per_prefix : List (Str × OwnerPolicy))
    {p : Policy}
    → make_policy default_policy allow deny per_prefix ≡ ok p
    → IsValid p
unfolding make_policy
make_policy-IsValid default_policy allow deny per_prefix h = ground arith

dict_get-accepted :
    (d : List (Str × OwnerPolicy)) (k : Str) (default_policy : OwnerPolicy)
    → all_policies d ≡ true
    → is_owner_policy default_policy ≡ true
    → is_owner_policy (or_default default_policy (dict_get k d)) ≡ true
unfolding dict_get all_policies
dict_get-accepted [] k default_policy h e = e
dict_get-accepted ((j, w) ∷ d) k default_policy h e = elim (Bool-cases (str_eq j k)) [
  | inl hit ↦ rw hit (&&-true _ _ h).0
  | inr miss ↦ rw miss (dict_get-accepted d k default_policy (&&-true _ _ h).1 e)
]

per_prefix_policy-accepted :
    (p : Policy) (hit : Option Str) → IsValid p → is_owner_policy (per_prefix_policy p hit) ≡ true
unfolding per_prefix_policy
per_prefix_policy-accepted p none v = v.default_accepted
per_prefix_policy-accepted p (some k) v =
    dict_get-accepted p.per_prefix k p.default_policy v.prefixes_accepted v.default_accepted

-- A policy that the constructor accepts resolves every prefix to `strict` or `lenient`.
pub resolve-accepted :
    (p : Policy) (prefix : Str) → IsValid p → is_owner_policy (resolve p prefix).owner_policy ≡ true
unfolding resolve
resolve-accepted p prefix v =
    ground (
      arith,
      per_prefix_policy-accepted p (match_key (take 3 (upper prefix)) (keys p.per_prefix)) v,
    )
