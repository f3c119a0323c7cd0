-- ===== src/Identity/AclRules/Resolve/Answers.antt =====
-- Acquire/Identity: rules whose `resolve` raises nothing, and its steps.
use acquire.Base.{
  ◌≡◌, refl, inl, inr, Bool, Option, none, some, List, [], ◌∷◌, Bool-cases, if◌then◌else◌,
}
use acquire.Base.Result.{Result, ok, err}
use acquire.Identity.AclRule.{AclRule, add, is_fully_resolved, force_resolve}
use acquire.Identity.Identifiers.{Guid, Identifiers, collect}
use acquire.Identity.AclRules.Defs.{
  AclRuleOperation, Rule, acl_rule, user_rules, group_rules, acl_rules, RuleMap, end, entry,
  AclRules, simple_inherit, rule_list, RuleItems, nil, cons, DefaultRule, no_default, default_rule,
  combine,
}
use acquire.Identity.AclRules.Resolve.{inherit_from, resolve_rule, match_users, match_groups}

-- Every user has a plain `ACLRule`.
abbrev pub HasPlainRules : RuleMap → Type 0
HasPlainRules end = Unit
HasPlainRules (entry g (acl_rule a) m) = HasPlainRules m
HasPlainRules (entry g _ m) = ⊥

-- Rules in which every user has a plain `ACLRule`, and no group rule has the GUID of the caller's
-- group.
module _ (ids : Identifiers) where
  abbrev mutual
    pub IsAnswerable : Rule → Type 0
    IsAnswerable (acl_rule a) = Unit
    IsAnswerable (user_rules m) = HasPlainRules m
    IsAnswerable (group_rules m) = match_groups m (collect ids.group_guid) ≡ ok none
    IsAnswerable (acl_rules rules) = AreAnswerable rules

    pub AreAnswerable : AclRules → Type 0
    AreAnswerable (simple_inherit dop) = Unit
    AreAnswerable (rule_list d dop items) = IsAnswerableDefault d × AreAnswerableItems items

    pub AreAnswerableItems : RuleItems → Type 0
    AreAnswerableItems nil = Unit
    AreAnswerableItems (cons op r items) = IsAnswerable r × AreAnswerableItems items

    pub IsAnswerableDefault : DefaultRule → Type 0
    IsAnswerableDefault no_default = Unit
    IsAnswerableDefault (default_rule r) = IsAnswerable r

-- The outcome is `None` or a plain rule, and no exception.
abbrev pub plain : Option AclRule → Option Rule
plain none = none
plain (some a) = some (acl_rule a)

abbrev pub Answers : Result (Option Rule) → Type 0
Answers x = (o : Option AclRule) × (x ≡ ok (plain o))

-- The upstream is absent or was resolved.
abbrev pub IsResolved : Option (Result AclRule) → Type 0
IsResolved none = Unit
IsResolved (some (ok u)) = Unit
IsResolved (some (err e)) = ⊥

pub resolve_rule_returns :
    (up : Option (Result AclRule)) (must unresolved : Bool) (a : AclRule)
    → IsResolved up
    → (r : AclRule) × (resolve_rule up must unresolved a ≡ ok r)
unfolding resolve_rule
resolve_rule_returns none must un a h = elim (Bool-cases (is_fully_resolved a)) [
  | inl e ↦ (a, rw e)
  | inr e ↦ (if must then force_resolve un a else a, rw e)
]
resolve_rule_returns (some (ok u)) must un a h = elim (Bool-cases (is_fully_resolved a)) [
  | inl e ↦ (a, rw e)
  | inr e ↦ (inherit_from must un a u, rw e)
]
resolve_rule_returns (some (err e)) must un a h = elim h [ ]

-- A user has no rule, or a plain one that was resolved.
abbrev pub IsMatch : Option (Rule × Result (Option Rule)) → Type 0
IsMatch none = Unit
IsMatch (some (acl_rule a, ok x)) = Unit
IsMatch (some _) = ⊥

pub combine-Answers :
    (op : AclRuleOperation) (a b : Option AclRule) → Answers (combine op (plain a) (plain b))
unfolding combine
combine-Answers op none b = (b, refl)
combine-Answers op (some a) none = (some a, refl)
combine-Answers AclRuleOperation.max (some a) (some b) = (some _, refl)
combine-Answers AclRuleOperation.min (some a) (some b) = (some _, refl)
combine-Answers AclRuleOperation.sub (some a) (some b) = (some _, refl)
combine-Answers AclRuleOperation.set (some a) (some b) = (some a, refl)

-- One user's turn, from the outcome for the users that follow.
match_user-Answers :
    (at : Guid → Option (Rule × Result (Option Rule))) (g : Guid) (gs : List Guid)
    → ((found : Option AclRule) → Answers (match_users at gs (plain found)))
    → (o : Option (Rule × Result (Option Rule))) → at g ≡ o
    → IsMatch o
    → (found : Option AclRule) → Answers (match_users at (g ∷ gs) (plain found))
unfolding match_users
match_user-Answers at g gs ih none e m found = rw (e, match_users) (ih found)
match_user-Answers at g gs ih (some (acl_rule a, ok x)) e m none = rw (e, match_users) (ih (some a))
match_user-Answers at g gs ih (some (acl_rule a, ok x)) e m (some b) =
    rw (e, match_users) (ih (some (add b a)))
match_user-Answers at g gs ih (some (acl_rule a, err x)) e m found = elim m [ ]
match_user-Answers at g gs ih (some (user_rules a, x)) e m found = elim m [ ]
match_user-Answers at g gs ih (some (group_rules a, x)) e m found = elim m [ ]
match_user-Answers at g gs ih (some (acl_rules a, x)) e m found = elim m [ ]

pub match_users-Answers :
    (at : Guid → Option (Rule × Result (Option Rule)))
    → ((g : Guid) → IsMatch (at g))
    → (gs : List Guid) (found : Option AclRule) → Answers (match_users at gs (plain found))
unfolding match_users
match_users-Answers at h [] found = (found, refl)
match_users-Answers at h (g ∷ gs) found =
    match_user-Answers at g gs (match_users-Answers at h gs) (at g) refl (h g) found
