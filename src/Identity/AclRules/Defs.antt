-- ===== src/Identity/AclRules/Defs.antt =====
-- Acquire/Identity/_aclrules.py: the classes, and the operations that combine two rules.
use acquire.Base.{ℕ, zero, suc, Bool, false, Option, none, some, if◌then◌else◌}
use acquire.Base.Result.{Result, ok, err, type_error}
use acquire.Identity.AclRule.{AclRule, add, subtract, multiply, inherits_all}
use acquire.Identity.Identifiers.{Guid, eq_guid}

pub data AclRuleOperation : Type 0 where
  max min sub set : AclRuleOperation

-- `Rule` is any of the four classes. An item of `_rules` is a pair of an operation and a rule, or
-- a rule alone, which has no operation. A default rule may be `None`.
mutual
  pub data Rule : Type 0 where
    acl_rule : AclRule → Rule
    user_rules : RuleMap → Rule
    group_rules : RuleMap → Rule
    acl_rules : AclRules → Rule

  -- A dictionary from GUIDs to rules.
  pub data RuleMap : Type 0 where
    end : RuleMap
    entry : Guid → Rule → RuleMap → RuleMap

  pub data AclRules : Type 0 where
    simple_inherit : AclRuleOperation → AclRules
    rule_list : DefaultRule → AclRuleOperation → RuleItems → AclRules

  pub data RuleItems : Type 0 where
    nil : RuleItems
    cons : Option AclRuleOperation → Rule → RuleItems → RuleItems

  pub data DefaultRule : Type 0 where
    no_default : DefaultRule
    default_rule : Rule → DefaultRule

-- `rule1 + rule2`, `-` and `*`: only two `ACLRule`s have them.
unfoldable pub combine_with : (AclRule → AclRule → AclRule) → Rule → Rule → Result Rule
combine_with f (acl_rule a) (acl_rule b) = ok (acl_rule (f a b))
combine_with f _ _ = err type_error

-- `ACLRuleOperation.combine` of two rules that are there.
unfoldable pub combine_rules : AclRuleOperation → Rule → Rule → Result Rule
unfolding combine_with add multiply subtract
combine_rules set a b = ok a
combine_rules max a b = combine_with add a b
combine_rules min a b = combine_with multiply a b
combine_rules sub a b = combine_with subtract a b

some_rule : Result Rule → Result (Option Rule)
some_rule (ok a) = ok (some a)
some_rule (err e) = err e

-- `ACLRuleOperation.combine`
unfoldable pub combine : AclRuleOperation → Option Rule → Option Rule → Result (Option Rule)
unfolding combine_rules some_rule
combine op none b = ok b
combine op (some a) none = ok (some a)
combine op (some a) (some b) = some_rule (combine_rules op a b)

-- `_is_inherit`
unfoldable pub is_inherit : Rule → Bool
unfolding inherits_all
is_inherit (acl_rule r) = inherits_all r
is_inherit _ = false

-- `rules[guid] = rule`
unfoldable pub add_rule : Guid → Rule → RuleMap → RuleMap
add_rule g r end = entry g r end
add_rule g r (entry k v m) = if eq_guid k g then entry k r m else entry k v (add_rule g r m)

-- `guid in rules` and `rules[guid]`
unfoldable pub find_rule : Guid → RuleMap → Option Rule
find_rule g end = none
find_rule g (entry k v m) = if eq_guid k g then some v else find_rule g m

unfoldable pub length : RuleItems → ℕ
length nil = 0
length (cons op r items) = suc (length items)

-- `list.insert`, where an index past the end appends.
unfoldable pub insert_item : ℕ → Option AclRuleOperation → Rule → RuleItems → RuleItems
insert_item zero op r items = cons op r items
insert_item (suc n) op r nil = cons op r nil
insert_item (suc n) op r (cons op' r' items) = cons op' r' (insert_item n op r items)
