-- ===== src/Identity/Identifiers.antt =====
-- The dictionary `identifiers` that Acquire/Identity/_aclrules.py reads: who asks for
-- access, and with which groups. A missing dictionary reads like an empty one.
use acquire.Base.{
  String, ◌≡◌, refl, Bool, true, false, Option, none, some, List, [], ◌∷◌, str_eq, str_eq_iff,
}

-- A user's or group's GUID, or `None`, which the code uses as a key too.
abbrev pub Guid : Type 0
Guid = Option String

abbrev pub eq_guid : Guid → Guid → Bool
eq_guid none none = true
eq_guid (some s) (some t) = str_eq s t
eq_guid _ _ = false

pub eq_guid_refl : (g : Guid) → eq_guid g g ≡ true
eq_guid_refl none = refl
eq_guid_refl (some s) = (str_eq_iff s s).1 refl

-- `none` is a key that the dictionary does not have. `Authorisation.identifiers` writes the key of
-- the user; no code of the repository writes the keys `user_guids` and `group_guids`, whose lists
-- the rules would extend in place, so they are not modelled and each `resolve` starts a new list.
pub record Identifiers : Type 0 where
  pub user_guid : Option Guid
  pub group_guid : Option Guid

-- The list that a `resolve` loops over: `[]`, with the one GUID appended if there is one.
unfoldable pub collect : Option Guid → List Guid
collect none = []
collect (some g) = g ∷ []

-- `Authorisation.identifiers`
unfoldable pub identifiers : Guid → Identifiers
identifiers user = record { user_guid = some user; group_guid = none }
