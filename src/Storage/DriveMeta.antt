-- ===== src/Storage/DriveMeta.antt =====
-- Acquire/Storage/_drivemeta.py: what a user is told of a drive. The credentials are the UID of their storage
-- service; opening the drive with them is left out.
pub mod Seen
pub mod Data
mod Tests
use acquire.Base.{
  ℕ, Bool, true, false, Option, none, some, is_some, List, [], ◌∷◌, ◌++◌, if◌then◌else◌,
}
use acquire.Base.Texts.{Text, codes}
use acquire.Base.Result.{
  Result, ok, err, permission_error, key_error, index_error, ◌>>=◌ as and_result,
}
use acquire.Base.Exec.{Exec, return_, raise, lift, get_state, ◌>>=◌, ◌>>◌}
use acquire.Identity.AclRule.{AclRule, denied, multiply, denied_all}
use acquire.Identity.AclRule.Data.{AclRuleData, to_data, from_data}
use acquire.Identity.Identifiers.{Identifiers}
use acquire.Identity.AclRules.{AclRules}
use acquire.Identity.AclRules.Resolve.{Upstream, resolve, resolve_rule}

-- What may be given as the container.
pub data Container : Type 0 where
  one : Text → Container
  many : List Text → Container

-- What is kept of it; `nested u` is the list of the list of `u`.
pub data Containers : Type 0 where
  text : Text → Containers
  uids : List Text → Containers
  nested : Text → Containers

pub record DriveMeta : Type 0 where
  pub name : Option Text
  pub uid : Option Text
  pub creds : Option Text
  pub container : Option Containers
  pub aclrules : Option AclRules
  pub acl : Option AclRule

-- A list of one is put into a list once more.
keep_container : Option Container → Option Containers
keep_container none = none
keep_container (some (one u)) = some (text u)
keep_container (some (many [])) = none
keep_container (some (many (u ∷ []))) = some (nested u)
keep_container (some (many us)) = some (uids us)

-- The constructor.
unfoldable pub create : Option Text → Option Text → Option Container → Option AclRules → DriveMeta
unfolding keep_container
create name uid container aclrules = record {
  name = name;
  uid = uid;
  creds = none;
  container = keep_container container;
  aclrules = aclrules;
  acl = none;
}

unfoldable pub is_null : DriveMeta → Bool
is_null d = elim d.name [ none ↦ true | some name ↦ false ]

show : Option Text → Text
show none = codes "None"
show (some t) = t

-- `guid`
guid : DriveMeta → Result (Option Text)
unfolding is_null show
guid d = if is_null d then ok none else elim d.creds [
  | none ↦ err permission_error
  | some service_uid ↦ ok (some (show d.uid ++ codes "@" ++ service_uid))
]

-- `_set_denied`
unfoldable pub deny : DriveMeta → DriveMeta
deny d = record {
  name = none;
  uid = none;
  creds = none;
  container = none;
  aclrules = none;
  acl = some denied;
}

-- The part of `resolve_acl` on an `open_aclrule`.
unfoldable pub narrow : Option AclRule → AclRule → Result AclRule
unfolding resolve_rule multiply
narrow none acl = ok acl
narrow (some open_aclrule) acl =
    and_result (resolve_rule none true false open_aclrule) λ resolved. ok (multiply acl resolved)

set_acl : AclRule → Exec DriveMeta (Unit {0})
set_acl acl d = (ok tt, record d { acl = some acl })

-- Only owners see the rules.
unfoldable pub hide_rules : AclRule → DriveMeta → DriveMeta
hide_rules acl d = elim acl.is_owner [
  | none ↦ record d { aclrules = none }
  | some is_owner ↦ if is_owner then d else record d { aclrules = none }
]

unfoldable pub hide_denied : AclRule → DriveMeta → DriveMeta
unfolding deny
hide_denied acl d = if denied_all acl then deny d else d

-- The end of `resolve_acl`, which returns the rule that is kept then.
conclude : AclRule → Exec DriveMeta (Option AclRule)
unfolding hide_rules hide_denied
conclude acl d = (ok (hide_denied acl (hide_rules acl d)).acl, hide_denied acl (hide_rules acl d))

resolve_with :
    AclRules
    → Identifiers
    → Upstream
    → Bool
    → Bool
    → Option AclRule
    → Exec DriveMeta (Option AclRule)
unfolding set_acl conclude narrow
resolve_with rules ids up must_resolve unresolved open_aclrule = do
  acl ← lift (resolve rules must_resolve ids up unresolved)
  set_acl acl
  narrowed ← lift (narrow open_aclrule acl)
  set_acl narrowed
  conclude narrowed

-- What was hidden cannot be resolved again.
resolve_any :
    Option AclRules
    → Identifiers
    → Upstream
    → Bool
    → Bool
    → Option AclRule
    → Exec DriveMeta (Option AclRule)
unfolding resolve_with
resolve_any none ids up must_resolve unresolved open_aclrule = raise permission_error
resolve_any (some rules) ids up must_resolve unresolved open_aclrule =
    resolve_with rules ids up must_resolve unresolved open_aclrule

-- `resolve_acl`, where a `must_resolve` of None is false.
unfoldable pub resolve_acl :
    Identifiers → Upstream → Bool → Bool → Option AclRule → Exec DriveMeta (Option AclRule)
unfolding resolve_any
resolve_acl ids up must_resolve unresolved open_aclrule d =
    resolve_any d.aclrules ids up must_resolve unresolved open_aclrule d

is_top_level : DriveMeta → Bool
is_top_level d = elim d.container [ none ↦ true | some container ↦ false ]

last_of : {A : Type 0} → List A → Option A
last_of [] = none
last_of (a ∷ []) = some a
last_of (a ∷ (b ∷ rest)) = last_of (b ∷ rest)

some_uid : Option Text → Result (Option Container)
some_uid none = err index_error
some_uid (some u) = ok (some (one u))

some_char : Option ℕ → Result (Option Container)
some_char none = err index_error
some_char (some c) = ok (some (one (c ∷ [])))

-- `container_uid`: the last item, which is a letter of a text.
container_uid : DriveMeta → Result (Option Container)
unfolding last_of some_uid some_char
container_uid d = elim d.container [
  | none ↦ ok none
  | some (text u) ↦ some_char (last_of u)
  | some (uids us) ↦ some_uid (last_of us)
  | some (nested u) ↦ ok (some (many (u ∷ [])))
]

-- `container_uids`
container_uids : DriveMeta → Containers
container_uids d = elim d.container [ none ↦ uids [] | some container ↦ container ]

-- The dictionary of a drive, where no value is null.
pub record DriveData : Type 0 where
  pub name : Option Text
  pub uid : Option Text
  pub container : Option Containers
  pub acl : Option AclRuleData

rule_data : Option AclRule → Option AclRuleData
unfolding to_data
rule_data none = none
rule_data (some acl) = some (to_data acl)

unfoldable pub drive_to_data : DriveMeta → DriveData
unfolding is_null rule_data
drive_to_data d =
    if is_null d
    then record { name = none; uid = none; container = none; acl = none }
    else record { name = d.name; uid = d.uid; container = d.container; acl = rule_data d.acl }

rule_from : Option AclRuleData → Result (Option AclRule)
unfolding from_data
rule_from none = ok none
rule_from (some data_of) = from_data data_of

is_empty_data : DriveData → Bool
is_empty_data e =
    if is_some e.uid
    then false
    else if is_some e.container
    then false
    else if is_some e.acl
    then false
    else true

unfoldable pub drive_from_data : DriveData → Result DriveMeta
unfolding create rule_from is_empty_data
drive_from_data e = elim e.name [
  | none ↦ if is_empty_data e then ok (create none none none none) else err key_error
  | some name ↦ and_result (rule_from e.acl) λ acl. ok (record {
    name = some name;
    uid = e.uid;
    creds = none;
    container = e.container;
    aclrules = none;
    acl = acl;
  })
]
