-- ===== src/Policy/Plan.antt =====
-- `plan_for_tokens` of checkdigit/policy.py. A set is a list of its members in the order in which they
-- are walked, each of them once.
use checkdigit.Common.{
  ◌≡◌, refl, Bool, true, false, inl, inr, List, [], ◌∷◌, ◌++◌, Option, none, some, if◌then◌else◌,
  take, Str, has, All, All-append, Bool-cases,
}
use checkdigit.Kernel.Normalize.{upper}
use checkdigit.Kernel.Types.{OwnerPolicy}
use checkdigit.Policy.{Policy, resolve}

-- `s.add(x)`
unfoldable pub add_member : Str → List Str → List Str
add_member x s = if has s x then s else s ++ (x ∷ [])

-- `{(pf or "").upper()[:3] for pf in prefixes}`
unfoldable pub owners_of : List Str → List Str → List Str
owners_of seen [] = seen
owners_of seen (prefix ∷ prefixes) = owners_of (add_member (take 3 (upper prefix)) seen) prefixes

pub record Plan : Type 0 where
  pub policy_by_prefix : List (Str × OwnerPolicy)
  pub allow_set : List Str
  pub deny_set : List Str

-- The loop; an owner is met once, so its item of the dictionary is new.
unfoldable pub plan_owners : Policy → List Str → Plan → Plan
plan_owners policy [] plan = plan
plan_owners policy (owner ∷ owners) plan =
    let t = resolve policy owner in
    plan_owners policy owners (record {
      policy_by_prefix = plan.policy_by_prefix ++ ((owner, t.owner_policy) ∷ []);
      allow_set = if t.corroborated then add_member owner plan.allow_set else plan.allow_set;
      deny_set = if t.force_flag then add_member owner plan.deny_set else plan.deny_set;
    })

-- `set(base_known or set())`
abbrev pub members_of : Option (List Str) → List Str
members_of none = []
members_of (some s) = s

unfoldable pub plan_for_tokens : Policy → List Str → Option (List Str) → Plan
plan_for_tokens policy prefixes base_known =
    plan_owners policy (owners_of [] prefixes)
      (record { policy_by_prefix = []; allow_set = members_of base_known; deny_set = [] })

module _ (policy : Policy) where
  -- The policy forces a review of the owner.
  abbrev IsForced : Str → Type 0
  IsForced owner = (resolve policy owner).force_flag ≡ true

  plan_owners-IsForced :
      (owners : List Str) (plan : Plan)
      → All IsForced plan.deny_set
      → All IsForced (plan_owners policy owners plan).deny_set
  unfolding plan_owners add_member
  plan_owners-IsForced [] plan h = h
  plan_owners-IsForced (owner ∷ owners) plan h =
      plan_owners-IsForced owners _ (next (resolve policy owner).force_flag refl)
    where
      next :
          (b : Bool)
          → (resolve policy owner).force_flag ≡ b
          → All IsForced (if b then add_member owner plan.deny_set else plan.deny_set)
      next false e = h
      next true e = elim (Bool-cases (has plan.deny_set owner)) [
        | inl met ↦ rw met h
        | inr new ↦ rw new (All-append IsForced plan.deny_set (owner ∷ []) h (e, tt))
      ]

  -- Only owners whose review the policy forces are on the deny list of the plan.
  plan_for_tokens-IsForced :
      (prefixes : List Str) (base_known : Option (List Str))
      → All IsForced (plan_for_tokens policy prefixes base_known).deny_set
  unfolding plan_for_tokens
  plan_for_tokens-IsForced prefixes base_known =
      plan_owners-IsForced (owners_of [] prefixes)
        (record { policy_by_prefix = []; allow_set = members_of base_known; deny_set = [] }) tt
