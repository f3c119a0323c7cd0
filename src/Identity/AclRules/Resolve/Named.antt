-- ===== src/Identity/AclRules/Resolve/Named.antt =====
-- Acquire/Identity: who is granted what by the rules that `ACLRules.create` builds for named users
-- and groups, and by a rule marked `SET`.
use acquire.Base.{
  String, ◌≡◌, refl, Bool, true, false, Option, none, some, List, [], ◌∷◌, arith, if◌then◌else◌,
}
use acquire.Base.Result.{ok, err, type_error}
use acquire.Identity.AclRule.{AclRule, add, denied, is_fully_resolved}
use acquire.Identity.Identifiers.{Guid, eq_guid, eq_guid_refl, Identifiers, identifiers}
use acquire.Identity.AclRules.Defs.{
  AclRuleOperation, set, Rule, acl_rule, rule_list, RuleItems, cons, DefaultRule,
}
use acquire.Identity.AclRules.Build.{create}
use acquire.Identity.AclRules.Resolve.{
  resolve_value, resolve_rules, Upstream, resolve_upstream, resolve,
}

-- Adding the rule that denies everything changes no rule that is fully resolved.
add-denied : (a : AclRule) → is_fully_resolved a ≡ true → add a denied ≡ a
unfolding add is_fully_resolved
add-denied a h = ground arith

-- `create` for one user, with no default: that user has exactly the rule, and every other user is
-- denied everything. `a` is fully resolved; `must_resolve`, `upstream` and `unresolved` play no part.
pub resolve-create_user :
    (a : AclRule) (u : String) (g : Guid) (must : Bool) (from : Upstream) (unresolved : Bool)
    → is_fully_resolved a ≡ true
    → resolve (create (acl_rule a) (some u) none [] [] none) must (identifiers g) from unresolved
      ≡ ok (if eq_guid (some u) g then a else denied)
unfolding resolve create identifiers
resolve-create_user a u g must from unresolved h = ground (arith, add-denied a h)

-- `create` for a list of users and no single user: the rule is stored under the key `None`, and
-- every caller who has a GUID, those in the list included, is denied everything.
pub resolve-create_users :
    (a : AclRule) (us : List Guid) (v : Guid) (s : String) (must : Bool) (from : Upstream)
    (unresolved : Bool)
    → resolve
        (create (acl_rule a) none none (v ∷ us) [] none)
        must
        (identifiers (some s))
        from
        unresolved
      ≡ ok denied
unfolding resolve create identifiers
resolve-create_users a us v s must from unresolved = refl

-- `create` for one group: resolving the rules for a caller of that group raises a `TypeError`,
-- whatever the rule and the user are.
pub resolve-create_group :
    (rule : Rule) (group : String) (user : Option Guid) (from : Upstream) (must unresolved : Bool)
    → resolve
        (create rule none (some group) [] [] none)
        must
        (record { user_guid = user; group_guid = some (some group) })
        from
        unresolved
      ≡ err type_error
unfolding resolve create
resolve-create_group rule group user from must unresolved =
    ground (arith, eq_guid_refl (some group))

-- A rule marked `SET` that answers ends the list: the items after it and the default rule play no
-- part. If what it answers is fully resolved, that is the result.
pub resolve-set :
    (d : DefaultRule) (dop : AclRuleOperation) (r : Rule) (items : RuleItems) (must : Bool)
    (ids : Identifiers) (from : Upstream) (unresolved : Bool) (a : AclRule)
    → resolve_value ids (resolve_upstream ids from) unresolved r false ≡ ok (some (acl_rule a))
    → is_fully_resolved a ≡ true
    → resolve (rule_list d dop (cons (some set) r items)) must ids from unresolved ≡ ok a
unfolding resolve
resolve-set d dop r items must ids from unresolved a answers h = rw (answers, resolve_rules) (rw h)
