-- ===== src/Identity/AclRules/Resolve.antt =====
-- Acquire/Identity: `resolve` of the four classes. A `none` result is Python's `None`.
pub mod Returns
mod Answers
pub mod Total
pub mod Named
use acquire.Base.{
  Bool, true, false, not, ◌&&◌, Option, none, some, List, [], ◌∷◌, if◌then◌else◌, is_some,
}
use acquire.Base.Result.{Result, ok, err, ◌>>=◌, type_error, permission_error}
use acquire.Identity.AclRule.{
  AclRule, zip_with, or_else, add, inherit, denied, is_fully_resolved, force_resolve,
}
use acquire.Identity.Identifiers.{Guid, eq_guid, Identifiers, collect}
use acquire.Identity.AclRules.Defs.{
  AclRuleOperation, set, Rule, acl_rule, user_rules, group_rules, acl_rules, RuleMap, end, entry,
  AclRules, simple_inherit, rule_list, RuleItems, nil, cons, DefaultRule, no_default, default_rule,
  combine_with, combine, find_rule,
}

-- The end of `ACLRule.resolve`, with the upstream rule at hand.
unfoldable pub inherit_from : Bool → Bool → AclRule → AclRule → AclRule
unfolding force_resolve is_fully_resolved
inherit_from must unresolved r upstream =
    let u =
      if must && not (is_fully_resolved upstream)
      then force_resolve unresolved upstream
      else upstream in
    let result = zip_with or_else r u in if must then force_resolve unresolved result else result

-- `ACLRule.resolve`. The upstream is absent, or is the outcome of resolving it, an exception too.
unfoldable pub resolve_rule : Option (Result AclRule) → Bool → Bool → AclRule → Result AclRule
unfolding inherit_from
resolve_rule up must unresolved r = if is_fully_resolved r then ok r else elim up [
  | none ↦ ok (if must then force_resolve unresolved r else r)
  | some upstream ↦ (upstream >>= λ u. ok (inherit_from must unresolved r u))
]

some_acl : AclRule → Result (Option Rule)
some_acl a = ok (some (acl_rule a))

-- No rule matched: the ends of the group and user methods.
no_match : Option (Result AclRule) → Bool → Bool → Result (Option Rule)
unfolding resolve_rule some_acl
no_match up must unresolved =
    if must then (resolve_rule up true unresolved inherit >>= some_acl) else ok none

add_match : Option Rule → Rule → Result Rule
unfolding combine_with
add_match none rule = ok rule
add_match (some found) rule = combine_with add found rule

-- The loop of `ACLUserRules.resolve`. A rule that matches is resolved, the outcome is dropped, and
-- the rule itself is added to what was found. `at` gives a GUID's rule and that outcome.
pub match_users :
    (Guid → Option (Rule × Result (Option Rule))) → List Guid → Option Rule → Result (Option Rule)
unfolding add_match
match_users at [] found = ok found
match_users at (g ∷ gs) found = elim (at g) [
  | none ↦ match_users at gs found
  | some (rule, resolved) ↦
      (resolved >>= λ _. add_match found rule >>= λ found'. match_users at gs (some found'))
]

or_no_match : Result (Option Rule) → Option Rule → Result (Option Rule)
or_no_match other none = other
or_no_match other (some rule) = ok (some rule)

-- `ACLUserRules.resolve`
resolve_users :
    Option (Result AclRule)
    → Bool
    → Bool
    → Option Guid
    → (Guid → Option (Rule × Result (Option Rule)))
    → Result (Option Rule)
unfolding match_users no_match or_no_match collect
resolve_users up must unresolved user at =
    match_users at (collect user) none >>= or_no_match (no_match up must unresolved)

-- The loop of `ACLGroupRules.resolve` calls `resolve` with a keyword that no class has
-- (`identifers`), so the first group that matches raises.
pub match_groups : RuleMap → List Guid → Result (Option Rule)
unfolding find_rule
match_groups m [] = ok none
match_groups m (g ∷ gs) = if is_some (find_rule g m) then err type_error else match_groups m gs

-- `ACLGroupRules.resolve`
resolve_groups :
    Option (Result AclRule) → Bool → Bool → Option Guid → RuleMap → Result (Option Rule)
unfolding match_groups no_match or_no_match collect
resolve_groups up must unresolved group m =
    match_groups m (collect group) >>= or_no_match (no_match up must unresolved)

or_default : Option AclRuleOperation → AclRuleOperation → AclRuleOperation
or_default none dop = dop
or_default (some op) _ = op

is_set : AclRuleOperation → Bool
is_set set = true
is_set _ = false

-- The end of `ACLRules.resolve`.
pub finish : Option (Result AclRule) → Bool → Option Rule → Result AclRule
unfolding resolve_rule is_fully_resolved
finish up unresolved none = ok denied
finish up unresolved (some (acl_rule a)) =
    if is_fully_resolved a then ok a else resolve_rule up true unresolved a
finish up unresolved (some _) = err permission_error

-- `resolve` of the four classes; `identifiers`, `upstream` and `unresolved` are handed down
-- unchanged.
module _ (ids : Identifiers) (up : Option (Result AclRule)) (unresolved : Bool) where
  unfoldable mutual
    unfolding resolve_rule some_acl resolve_users resolve_groups or_default is_set finish combine

    pub resolve_value : Rule → Bool → Result (Option Rule)
    resolve_value (acl_rule a) must = resolve_rule up must unresolved a >>= some_acl
    resolve_value (user_rules m) must =
        resolve_users up must unresolved ids.user_guid (resolve_at m must)
    resolve_value (group_rules m) must = resolve_groups up must unresolved ids.group_guid m
    resolve_value (acl_rules rules) must = resolve_rules rules must >>= some_acl

    -- The rule under a GUID, and the outcome of its `resolve`.
    pub resolve_at : RuleMap → Bool → Guid → Option (Rule × Result (Option Rule))
    resolve_at end must g = none
    resolve_at (entry k r m) must g =
        let rest = resolve_at m must g in
        if eq_guid k g then some (r, resolve_value r must) else rest

    -- `ACLRules.resolve`. The list form resolves fully whatever `must` is.
    pub resolve_rules : AclRules → Bool → Result AclRule
    resolve_rules (simple_inherit dop) must = resolve_rule up must unresolved inherit
    resolve_rules (rule_list d dop items) must =
        resolve_items items dop (resolve_default d dop) none >>= finish up unresolved

    -- The loop over `_rules` from the result so far, and `last`, what the default rule makes of it.
    -- A `SET` rule ends both.
    pub resolve_items :
        RuleItems
        → AclRuleOperation
        → (Option Rule → Result (Option Rule))
        → Option Rule
        → Result (Option Rule)
    resolve_items nil dop last result = last result
    resolve_items (cons op r items) dop last result = resolve_value r false >>= λ rule. elim rule [
      | none ↦ resolve_items items dop last result
      | some v ↦
          if is_set (or_default op dop)
          then ok (some v)
          else (combine (or_default op dop) result (some v) >>= λ result'.
              resolve_items items dop last result')
    ]

    pub resolve_default : DefaultRule → AclRuleOperation → Option Rule → Result (Option Rule)
    resolve_default no_default dop result = ok result
    resolve_default (default_rule r) dop result =
        resolve_value r false >>= λ rule. combine dop result rule

-- The argument `upstream`: `None`, one rule, or a list of rules.
pub data Upstream : Type 0 where
  no_upstream : Upstream
  upstream_rule : AclRule → Upstream
  upstream_rules : AclRules → Upstream

-- A list of rules is resolved with no upstream of its own.
unfoldable pub resolve_upstream : Identifiers → Upstream → Option (Result AclRule)
unfolding resolve_value
resolve_upstream ids no_upstream = none
resolve_upstream ids (upstream_rule a) = some (ok a)
resolve_upstream ids (upstream_rules rules) = some (resolve_rules ids none false rules false)

-- `ACLRules.resolve(must_resolve, identifiers, upstream, unresolved)`
unfoldable pub resolve : AclRules → Bool → Identifiers → Upstream → Bool → Result AclRule
unfolding resolve_value resolve_upstream
resolve rules must ids upstream unresolved =
    resolve_rules ids (resolve_upstream ids upstream) unresolved rules must
