-- ===== src/Identity/Tests.antt =====
-- Uses of the theorems on access rules at concrete inputs, and runs of the code.
use acquire.Base.{◌≡◌, refl, inl, true, false, none, some, [], ◌∷◌}
use acquire.Base.Result.{ok, err, type_error, unbound_local_error}
use acquire.Identity.AclRule.{
  AclRule, add, multiply, of_flags, owner, writer, reader, denied, inherit, is_fully_resolved,
}
use acquire.Identity.AclRule.Algebra.{combine_semilattice}
use acquire.Identity.AclRule.Data.{to_data, from_data, from_data-to_data, dict}
use acquire.Identity.Identifiers.{identifiers}
use acquire.Identity.AclRules.{
  AclRuleOperation, acl_rule, user_rules, end, entry, AclRules, rule_list, cons, nil, no_default,
  default_rule,
}
use acquire.Identity.AclRules.Build.{create}
use acquire.Identity.AclRules.Resolve.{resolve, resolve_value, no_upstream, upstream_rules}
use acquire.Identity.AclRules.Resolve.Returns.{is_fully_resolved-resolve}
use acquire.Identity.AclRules.Resolve.Total.{resolve_total}
use acquire.Identity.AclRules.Resolve.Named.{
  resolve-create_user, resolve-create_users, resolve-create_group, resolve-set,
}

writer_combined :
    ((add (add writer inherit) denied ≡ add writer (add inherit denied))
      × (add writer inherit ≡ add inherit writer)
      × (add writer writer ≡ writer)
      × (add writer inherit ≡ writer))
    × ((multiply (multiply writer inherit) denied ≡ multiply writer (multiply inherit denied))
        × (multiply writer inherit ≡ multiply inherit writer)
        × (multiply writer writer ≡ writer)
        × (multiply writer inherit ≡ writer))
writer_combined = combine_semilattice writer inherit denied

-- A rule that only says that the resource may be written.
abbrev may_write : AclRule
may_write = of_flags none none (some true) none

may_write_stored : from_data (to_data may_write) ≡ ok (some may_write)
may_write_stored = from_data-to_data may_write

-- A stored rule without the last key cannot be loaded.
from_data_without_executable :
    from_data (
      dict (record {
        is_owner = some (some true);
        is_readable = some (some true);
        is_writeable = some (some true);
        is_executable = none;
      }))
    ≡ err unbound_local_error
unfolding from_data
from_data_without_executable = refl

-- One user may write, all else is inherited.
abbrev shared : AclRules
shared = rule_list no_default AclRuleOperation.max (
    cons none (acl_rule inherit)
      (cons none (user_rules (entry (some "ada") (acl_rule may_write) end)) nil))

abbrev upstream_readers : AclRules
upstream_readers = rule_list (default_rule (acl_rule reader)) AclRuleOperation.max nil

shared_for_ada :
    resolve shared true (identifiers (some "ada")) (upstream_rules upstream_readers) false
    ≡ ok writer
unfolding resolve identifiers
shared_for_ada = refl

is_fully_resolved-resolve_example : is_fully_resolved writer ≡ true
is_fully_resolved-resolve_example =
    is_fully_resolved-resolve shared true (identifiers (some "ada"))
      (upstream_rules upstream_readers) false (inl refl) shared_for_ada

resolve_total_example :
    (r : AclRule) × (resolve shared true
        (identifiers (some "ada"))
        (upstream_rules upstream_readers)
        false
      ≡ ok r)
    × (is_fully_resolved r ≡ true)
resolve_total_example =
    resolve_total shared (identifiers (some "ada")) (upstream_rules upstream_readers) false
      (tt, (tt, (tt, tt))) (tt, tt)

resolve-create_user_example :
    resolve
      (create (acl_rule reader) (some "ada") none [] [] none)
      true
      (identifiers (some "ada"))
      no_upstream
      false
    ≡ ok reader
unfolding is_fully_resolved
resolve-create_user_example =
    resolve-create_user reader "ada" (some "ada") true no_upstream false refl

resolve-create_users_example :
    resolve
      (create (acl_rule reader) none none (some "ada" ∷ some "eve" ∷ []) [] none)
      true
      (identifiers (some "ada"))
      no_upstream
      false
    ≡ ok denied
resolve-create_users_example =
    resolve-create_users reader (some "eve" ∷ []) (some "ada") "ada" true no_upstream false

-- A caller without a GUID is given what the list of users was to be given.
nobody_reads :
    resolve
      (create (acl_rule reader) none none (some "ada" ∷ []) [] none)
      true
      (identifiers none)
      no_upstream
      false
    ≡ ok reader
unfolding resolve create identifiers
nobody_reads = refl

resolve-create_group_example :
    resolve
      (create (acl_rule reader) none (some "staff") [] [] none)
      true
      (record { user_guid = some (some "ada"); group_guid = some (some "staff") })
      no_upstream
      false
    ≡ err type_error
resolve-create_group_example =
    resolve-create_group (acl_rule reader) "staff" (some (some "ada")) no_upstream true false

reader_set :
    resolve
      (rule_list
        (default_rule (acl_rule owner))
        AclRuleOperation.max
        (cons (some AclRuleOperation.set) (acl_rule reader) (cons none (acl_rule owner) nil)))
      true
      (identifiers (some "ada"))
      no_upstream
      false
    ≡ ok reader
unfolding resolve_value
reader_set =
    resolve-set (default_rule (acl_rule owner)) AclRuleOperation.max (acl_rule reader)
      (cons none (acl_rule owner) nil) true (identifiers (some "ada")) no_upstream false reader refl
      refl
