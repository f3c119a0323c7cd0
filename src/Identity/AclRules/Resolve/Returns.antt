-- ===== src/Identity/AclRules/Resolve/Returns.antt =====
-- Acquire/Identity: what `resolve` promises: a rule in which nothing is left to inherit.
use acquire.Base.{◌≡◌, ◌⊎◌, Bool, true, false, Option, none, some, arith}
use acquire.Base.Result.{Result, ok, err, bind_returned}
use acquire.Identity.AclRule.{AclRule, inherit, is_fully_resolved}
use acquire.Identity.AclRule.Algebra.{is_fully_resolved-force_resolve}
use acquire.Identity.Identifiers.{Identifiers}
use acquire.Identity.AclRules.Defs.{Rule, acl_rule, AclRules, simple_inherit, rule_list}
use acquire.Identity.AclRules.Resolve.{
  inherit_from, resolve_rule, finish, resolve_items, resolve_default, Upstream, resolve_upstream,
  resolve,
}

-- The list form of `ACLRules`.
abbrev pub is_list : AclRules → Bool
is_list (simple_inherit _) = false
is_list (rule_list _ _ _) = true

inherit_from-resolved :
    (unresolved : Bool) (a u : AclRule)
    → is_fully_resolved (inherit_from true unresolved a u) ≡ true
unfolding inherit_from
inherit_from-resolved unresolved a u = is_fully_resolved-force_resolve unresolved _

pub resolve_rule-resolved :
    (up : Option (Result AclRule)) (unresolved : Bool) (a : AclRule) {r : AclRule}
    → resolve_rule up true unresolved a ≡ ok r
    → is_fully_resolved r ≡ true
unfolding resolve_rule
resolve_rule-resolved none unresolved a h =
    ground (arith, is_fully_resolved-force_resolve unresolved a)
resolve_rule-resolved (some (ok u)) unresolved a h =
    ground (arith, inherit_from-resolved unresolved a u)
resolve_rule-resolved (some (err e)) unresolved a h = ground arith

pub finish-resolved :
    (up : Option (Result AclRule)) (unresolved : Bool) (result : Option Rule) {r : AclRule}
    → finish up unresolved result ≡ ok r
    → is_fully_resolved r ≡ true
unfolding finish
finish-resolved up unresolved none h = ground arith
finish-resolved up unresolved (some (acl_rule a)) h =
    ground (arith, resolve_rule-resolved up unresolved a)
finish-resolved up unresolved (some _) h = cc

-- Whenever `resolve` returns, with `must_resolve` or from the list form (which resolves fully in
-- either case), the rule that it returns leaves nothing to inherit.
pub is_fully_resolved-resolve :
    (rules : AclRules) (must : Bool) (ids : Identifiers) (up : Upstream) (unresolved : Bool)
    {r : AclRule}
    → (must ≡ true) ⊎ (is_list rules ≡ true)
    → resolve rules must ids up unresolved ≡ ok r
    → is_fully_resolved r ≡ true
unfolding resolve
is_fully_resolved-resolve (simple_inherit dop) true ids up unresolved must_or_list h =
    resolve_rule-resolved (resolve_upstream ids up) unresolved inherit h
is_fully_resolved-resolve (simple_inherit dop) false ids up unresolved must_or_list h = ground arith
is_fully_resolved-resolve (rule_list d dop items) must ids up unresolved must_or_list h =
    let outcome = resolve_upstream ids up in
    let (result, _, last) =
      bind_returned
        (resolve_items ids outcome unresolved items dop
          (resolve_default ids outcome unresolved d dop) none)
        (finish outcome unresolved) h in
    finish-resolved outcome unresolved result last
