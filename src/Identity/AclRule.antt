-- ===== src/Identity/AclRule.antt =====
-- Acquire/Identity/_aclrule.py: one access control rule, four permissions that are each granted,
-- refused, or (`None`) inherited from upstream.
pub mod Algebra
pub mod Data
use acquire.Base.{Bool, true, false, ◌&&◌, Option, none, some, is_some}

abbrev pub Permission : Type 0
Permission = Option Bool

-- `_max`
unfoldable pub perm_max : Permission → Permission → Permission
perm_max none b = b
perm_max (some a) none = some a
perm_max (some true) (some b) = some true
perm_max (some false) (some b) = some b

-- `_sub`
unfoldable pub perm_sub : Permission → Permission → Permission
perm_sub a (some true) = some false
perm_sub a _ = a

-- `_min`
unfoldable pub perm_min : Permission → Permission → Permission
perm_min none b = b
perm_min (some a) none = some a
perm_min (some false) (some b) = some false
perm_min (some true) (some b) = some b

-- The constructor of `ACLRule` keeps `None`, and turns all else into a Boolean.
pub record AclRule : Type 0 where
  pub is_owner : Permission
  pub is_readable : Permission
  pub is_writeable : Permission
  pub is_executable : Permission

-- One operation on the permissions, at each of the four.
abbrev pub zip_with : (Permission → Permission → Permission) → AclRule → AclRule → AclRule
zip_with f a b = record {
  is_owner = f a.is_owner b.is_owner;
  is_readable = f a.is_readable b.is_readable;
  is_writeable = f a.is_writeable b.is_writeable;
  is_executable = f a.is_executable b.is_executable;
}

-- `__add__`, `__sub__` and `__mul__`
unfoldable pub add : AclRule → AclRule → AclRule
unfolding perm_max
add = zip_with perm_max

unfoldable pub subtract : AclRule → AclRule → AclRule
unfolding perm_sub
subtract = zip_with perm_sub

unfoldable pub multiply : AclRule → AclRule → AclRule
unfolding perm_min
multiply = zip_with perm_min

abbrev pub of_flags : Permission → Permission → Permission → Permission → AclRule
of_flags o r w x = record { is_owner = o; is_readable = r; is_writeable = w; is_executable = x }

abbrev pub owner : AclRule
owner = of_flags (some true) (some true) (some true) (some true)

abbrev pub executer : AclRule
executer = of_flags (some false) (some true) (some true) (some true)

abbrev pub writer : AclRule
writer = of_flags (some false) (some true) (some true) (some false)

abbrev pub reader : AclRule
reader = of_flags (some false) (some true) (some false) (some false)

abbrev pub denied : AclRule
denied = of_flags (some false) (some false) (some false) (some false)

abbrev pub inherit : AclRule
inherit = of_flags none none none none

abbrev is_none : Permission → Bool
is_none none = true
is_none (some _) = false

unfoldable pub inherits_all : AclRule → Bool
inherits_all r =
    is_none r.is_owner && is_none r.is_readable && is_none r.is_writeable && is_none r.is_executable

unfoldable pub is_fully_resolved : AclRule → Bool
is_fully_resolved r =
    is_some r.is_owner && is_some r.is_readable && is_some r.is_writeable && is_some r.is_executable

abbrev is_false : Permission → Bool
is_false (some false) = true
is_false _ = false

unfoldable pub denied_all : AclRule → Bool
denied_all r =
    is_false r.is_owner
    && is_false r.is_readable
    && is_false r.is_writeable
    && is_false r.is_executable

-- `if p is None: p = q`
abbrev pub or_else : Permission → Permission → Permission
or_else none q = q
or_else (some a) q = some a

unfoldable pub force_resolve : Bool → AclRule → AclRule
force_resolve unresolved r =
    zip_with or_else r
      (of_flags (some unresolved) (some unresolved) (some unresolved) (some unresolved))
