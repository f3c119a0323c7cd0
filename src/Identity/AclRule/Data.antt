-- ===== src/Identity/AclRule/Data.antt =====
-- Acquire/Identity/_aclrule.py: `to_data` and `from_data`, the JSON form of a rule.
use text.Mathlib.Text.{find?}
use acquire.Base.{
  String, ◌≡◌, Bool, true, false, ◌||◌, Option, none, some, arith, if◌then◌else◌, is_some, str_eq,
}
use acquire.Base.Result.{Result, ok, err, type_error, unbound_local_error}
use acquire.Identity.AclRule.{
  Permission, AclRule, owner, executer, writer, reader, denied, inherit, inherits_all, of_flags,
}

-- A dictionary with at most the four keys. `none` is a missing key; a value is a Boolean or null.
pub record AclRuleDict : Type 0 where
  pub is_owner : Option Permission
  pub is_readable : Option Permission
  pub is_writeable : Option Permission
  pub is_executable : Option Permission

pub data AclRuleData : Type 0 where
  null : AclRuleData
  name : String → AclRuleData
  dict : AclRuleDict → AclRuleData

abbrev eqb_permission : Permission → Permission → Bool
eqb_permission none none = true
eqb_permission (some true) (some true) = true
eqb_permission (some false) (some false) = true
eqb_permission _ _ = false

-- `__eq__`
unfoldable pub eqb_rule : AclRule → AclRule → Bool
eqb_rule a b =
    if eqb_permission a.is_owner b.is_owner
    then if eqb_permission a.is_readable b.is_readable
      then if eqb_permission a.is_writeable b.is_writeable
        then eqb_permission a.is_executable b.is_executable
        else false
      else false
    else false

unfoldable pub to_data : AclRule → AclRuleData
unfolding inherits_all eqb_rule
to_data r =
    if inherits_all r
    then name "inherits"
    else if eqb_rule r owner
    then name "owner"
    else if eqb_rule r reader
    then name "reader"
    else if eqb_rule r writer
    then name "writer"
    else if eqb_rule r denied
    then name "denied"
    else if eqb_rule r executer
    then name "executer"
    else dict (record {
      is_owner = some r.is_owner;
      is_readable = some r.is_readable;
      is_writeable = some r.is_writeable;
      is_executable = some r.is_executable;
    })

-- `key in data` and `data[key]` where `data` is a string: a test for a substring, and an error.
abbrev has_substring : String → String → Bool
has_substring s part = is_some (find? s part)

-- What `from_data` does with a string that is no name of a rule: the lookups of a key raise, and
-- without them `is_executable` is never assigned.
from_other_text : String → Result (Option AclRule)
from_other_text s =
    if has_substring s "is_owner"
      || has_substring s "is_readable"
      || has_substring s "is_writeable"
      || has_substring s "is_executable"
    then err type_error
    else err unbound_local_error

-- The first three permissions start as `None`; the fourth has no start value.
from_dict : AclRuleDict → Result (Option AclRule)
from_dict d = elim d.is_executable [
  | none ↦ err unbound_local_error
  | some x ↦ ok (some (of_flags (given d.is_owner) (given d.is_readable) (given d.is_writeable) x))
]
  where
    given : Option Permission → Permission
    given none = none
    given (some p) = p

unfoldable pub from_data : AclRuleData → Result (Option AclRule)
unfolding from_other_text from_dict
from_data null = ok none
from_data (name s) =
    if str_eq s "inherits"
    then ok (some inherit)
    else if str_eq s "owner"
    then ok (some owner)
    else if str_eq s "reader"
    then ok (some reader)
    else if str_eq s "writer"
    then ok (some writer)
    else if str_eq s "executer"
    then ok (some executer)
    else if str_eq s "denied"
    then ok (some denied)
    else from_other_text s
from_data (dict d) = from_dict d

-- A rule that is stored and loaded is the same rule.
pub from_data-to_data : (r : AclRule) → from_data (to_data r) ≡ ok (some r)
unfolding from_data to_data
from_data-to_data r = ground arith
