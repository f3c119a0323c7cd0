-- ===== src/Identity/AclRules/Build.antt =====
-- Acquire/Identity/_aclrules.py: how rule lists are built. `append`, `prepend`, `insert`,
-- `set_default_rule`, the constructor and `_create`.
use acquire.Base.{ℕ, Option, none, some, List, [], ◌∷◌, ◌++◌, if◌then◌else◌}
use acquire.Identity.AclRule.{AclRule, inherit, denied}
use acquire.Identity.Identifiers.{Guid}
use acquire.Identity.AclRules.Defs.{
  AclRuleOperation, max, Rule, acl_rule, user_rules, group_rules, acl_rules, RuleMap, end, AclRules,
  simple_inherit, rule_list, nil, cons, no_default, default_rule, is_inherit, add_rule, length,
  insert_item,
}

-- The first rule that is not `inherit` turns the simple form into a list.
unfoldable pub insert : ℕ → Rule → Option AclRuleOperation → AclRules → AclRules
unfolding insert_item is_inherit
insert idx rule op (simple_inherit dop) =
    if is_inherit rule
    then simple_inherit dop
    else rule_list no_default dop (insert_item idx op rule (cons none (acl_rule inherit) nil))
insert idx rule op (rule_list d dop items) = rule_list d dop (insert_item idx op rule items)

-- The simple form has no list; the index is 2 there.
unfoldable pub append : Rule → Option AclRuleOperation → AclRules → AclRules
unfolding insert length
append rule op (simple_inherit dop) = insert 2 rule op (simple_inherit dop)
append rule op (rule_list d dop items) = insert (length items) rule op (rule_list d dop items)

unfoldable pub prepend : Rule → Option AclRuleOperation → AclRules → AclRules
unfolding insert
prepend = insert 0

unfoldable pub set_default_rule : Rule → AclRules → AclRules
unfolding is_inherit
set_default_rule rule (simple_inherit dop) =
    if is_inherit rule then simple_inherit dop else rule_list (default_rule rule) max nil
set_default_rule rule (rule_list d dop items) = rule_list (default_rule rule) dop items

-- An item of the constructor's `rules`: a pair, whose operation may be `None`, or a rule alone.
pub data NewItem : Type 0 where
  pair : Option AclRuleOperation → Rule → NewItem
  alone : Rule → NewItem

unfoldable pub append_item : AclRuleOperation → AclRules → NewItem → AclRules
unfolding append
append_item dop rules (pair op rule) = append rule op rules
append_item dop rules (alone rule) = append rule (some dop) rules

unfoldable pub append_items : AclRuleOperation → AclRules → List NewItem → AclRules
unfolding append_item
append_items dop rules [] = rules
append_items dop rules (item ∷ items) = append_items dop (append_item dop rules item) items

start : Option Rule → AclRuleOperation → AclRules
unfolding is_inherit
start none dop = simple_inherit dop
start (some d) dop = if is_inherit d then simple_inherit dop else rule_list (default_rule d) dop nil

prepend_first : Option Rule → AclRules → AclRules
unfolding prepend
prepend_first none rules = rules
prepend_first (some rule) rules = prepend rule none rules

-- `ACLRules.__init__`, with `rules=None` as the empty list.
unfoldable pub new_rules : Option Rule → List NewItem → Option Rule → AclRuleOperation → AclRules
unfolding start prepend_first append_items
new_rules rule items default dop = append_items dop (prepend_first rule (start default dop)) items

-- The lists that `_create` is given, with the single GUID appended.
with_guid : List Guid → Guid → List Guid
with_guid gs none = gs
with_guid gs (some g) = gs ++ some g ∷ []

default_or_denied : Option AclRule → AclRule
default_or_denied none = denied
default_or_denied (some r) = r

-- `if len(guids) > 0`: the rule is added under the single GUID, which may be `None`.
rules_for : (RuleMap → Rule) → List Guid → Guid → Rule → List NewItem
unfolding add_rule
rules_for kind [] g rule = []
rules_for kind (_ ∷ _) g rule = alone (kind (add_rule g rule end)) ∷ []

-- No user and no group is named: a list of rules is returned as it is, any other rule is for all.
for_everyone : Rule → AclRules
unfolding new_rules
for_everyone (acl_rules rules) = rules
for_everyone rule = new_rules none [] (some rule) max

for_named : Rule → AclRule → List NewItem → AclRules
unfolding for_everyone new_rules
for_named rule default [] = for_everyone rule
for_named rule default (item ∷ items) = new_rules none (item ∷ items) (some (acl_rule default)) max

-- `ACLRules._create`, which `create`, `owner`, `reader`, `writer` and `inherit` call.
unfoldable pub create : Rule → Guid → Guid → List Guid → List Guid → Option AclRule → AclRules
unfolding with_guid default_or_denied rules_for for_named
create rule user_guid group_guid user_guids group_guids default =
    let users = with_guid user_guids user_guid in
    let groups = with_guid group_guids group_guid in
    for_named rule (default_or_denied default)
      (rules_for group_rules groups group_guid rule ++ rules_for user_rules users user_guid rule)

-- `ACLUserRules._create`: a user may be named, and a list of users; all have the rule.
add_user_rules : Rule → List Guid → RuleMap → RuleMap
unfolding add_rule
add_user_rules rule [] m = m
add_user_rules rule (g ∷ gs) m = add_user_rules rule gs (add_rule g rule m)

add_named : Rule → Guid → RuleMap → RuleMap
unfolding add_rule
add_named rule none m = m
add_named rule (some g) m = add_rule (some g) rule m

unfoldable pub create_user_rules : Rule → Guid → List Guid → RuleMap
unfolding add_user_rules add_named
create_user_rules rule user_guid user_guids =
    add_user_rules rule user_guids (add_named rule user_guid end)
