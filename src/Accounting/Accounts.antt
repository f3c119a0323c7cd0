-- ===== src/Accounting/Accounts.antt =====
-- Acquire/Accounting/_accounts.py, and the parts of Acquire/Accounting/_account.py that it calls: groups of
-- accounts by name. The state is what the object store holds of them: the rules of each group, the UID
-- under the name of each account, and the accounts. A name is under construction while its account is made.
pub mod Held
pub mod Stuck
mod Tests
use acquire.Base.{
  ◌==◌, ℕ, String, str_eq, Bool, true, false, ◌&&◌, Option, none, some, List, [], ◌∷◌,
  if◌then◌else◌, find,
}
use acquire.Base.Int.{ℤ, pos, neg, ltb_ℤ, eqb_ℤ}
use acquire.Base.Result.{Error, Result, ok, err, value_error, account_error, permission_error}
use acquire.Base.Exec.{Exec, return_, raise, lift, get_state, try, ◌>>=◌, ◌>>◌}
use acquire.Accounting.Formats.{Formats, create_decimal}
use acquire.Identity.AclRule.{AclRule, owner, inherit}
use acquire.Identity.AclRules.{AclRules, acl_rule}
use acquire.Identity.AclRules.Build.{create}
use acquire.Identity.AclRules.Resolve.{resolve, no_upstream}
use acquire.Identity.Identifiers.{Guid, Identifiers, eq_guid}

pub record Account : Type 0 where
  pub uid : ℕ
  pub name : String
  pub description : String
  pub overdraft_limit : ℤ
  pub aclrules : AclRules
  pub group_name : Option String

-- The text that is stored under a name.
pub data Entry : Type 0 where
  under_construction : Entry
  uid_of : ℕ → Entry

pub record World : Type 0 where
  pub acls : List (String × AclRules)
  pub uids : List (String × String × Entry)
  pub accounts : List (ℕ × Account)

-- An object of the class `Accounts`.
pub record Accounts : Type 0 where
  pub group : String
  pub user_guid : Guid
  pub aclrules : AclRules

-- The new UID, how the calls on the mutex end, what other clients do before it is had, the formats of
-- numbers, and the available balance of an account.
pub record Surroundings : Type 0 where
  pub new_uid : ℕ
  pub lock : Result (Unit {0})
  pub unlock : Result (Unit {0})
  pub others : World → World
  pub formats : Formats
  pub available : ℕ → ℤ

-- An authorisation, and whether its signature is valid for the request.
pub record Authorisation : Type 0 where
  pub user_guid : Guid
  pub verified : Result (Unit {0})

pub entry_of : String → String → List (String × String × Entry) → Option Entry
entry_of group name [] = none
entry_of group name ((g, n, e) ∷ rest) =
    if str_eq g group && str_eq n name then some e else entry_of group name rest

acls_of : String → List (String × AclRules) → Option AclRules
acls_of group [] = none
acls_of group ((g, rules) ∷ rest) = if str_eq g group then some rules else acls_of group rest

without : String → String → List (String × String × Entry) → List (String × String × Entry)
without group name [] = []
without group name ((g, n, e) ∷ rest) =
    if str_eq g group && str_eq n name
    then without group name rest
    else (g, n, e) ∷ without group name rest

set_entry : Accounts → String → Entry → Exec World (Unit {0})
set_entry g name e w = (ok tt, record w { uids = (g.group, name, e) ∷ w.uids })

delete_entry : Accounts → String → Exec World (Unit {0})
unfolding without
delete_entry g name w = (ok tt, record w { uids = without g.group name w.uids })

-- `Account._save_account`
save_account : Account → Exec World (Unit {0})
save_account a w = (ok tt, record w { accounts = (a.uid, a) ∷ w.accounts })

set_acls : String → AclRules → Exec World (Unit {0})
set_acls group rules w = (ok tt, record w { acls = (group, rules) ∷ w.acls })

-- The rules that a new group gets: those passed, or that its first user owns it.
rules_for_new : Guid → Option AclRules → Result AclRules
rules_for_new user (some rules) = ok rules
rules_for_new none none = err permission_error
rules_for_new (some user) none = ok (create (acl_rule owner) (some user) none [] [] none)

store_rules : String → Guid → Option AclRules → Exec World Accounts
unfolding rules_for_new set_acls
store_rules group user passed = do
  rules ← lift (rules_for_new user passed)
  set_acls group rules
  return_ (record { group = group; user_guid = user; aclrules = rules })

with_rules : String → Guid → Option AclRules → Option AclRules → Exec World Accounts
unfolding store_rules
with_rules group user passed (some rules) =
    return_ (record { group = group; user_guid = user; aclrules = rules })
with_rules group user passed none = store_rules group user passed

group_of : Guid → Option String → String
group_of user (some group) = group
group_of none none = "default"
group_of (some user) none = user

-- The constructor of `Accounts`, with `_get_aclrules`.
unfoldable pub new_accounts : Guid → Option String → Option AclRules → Exec World Accounts
unfolding with_rules group_of acls_of
new_accounts user group passed w =
    with_rules (group_of user group) user passed (acls_of (group_of user group) w.acls) w

allows : (AclRule → Option Bool) → Result AclRule → Result (Unit {0})
allows flag (err why) = err why
allows flag (ok rule) = elim (flag rule) [ some true ↦ ok tt | _ ↦ err permission_error ]

resolved : Accounts → Result AclRule
resolved g =
    resolve g.aclrules true (record { user_guid = some g.user_guid; group_guid = none }) no_upstream
      false

-- `_assert_is_readable` and `_assert_is_writeable`
pub assert_is_readable : Accounts → Result (Unit {0})
unfolding allows resolved
assert_is_readable g = allows (λ r. r.is_readable) (resolved g)

pub assert_is_writeable : Accounts → Result (Unit {0})
unfolding allows resolved
assert_is_writeable g = allows (λ r. r.is_writeable) (resolved g)

loaded : Option Account → Result Account
loaded none = err account_error
loaded (some a) = ok a

-- `Account(uid=...)`, with `_load_account`: no account has the UID "under_construction".
unfoldable pub load_account : Entry → World → Result Account
unfolding loaded
load_account under_construction w = err account_error
load_account (uid_of u) w = loaded (find u w.accounts)

new_account : Surroundings → Accounts → String → Option String → Exec World Account
unfolding save_account
new_account s g name none = raise account_error
new_account s g name (some description) =
    let a : Account = record {
      uid = s.new_uid;
      name = name;
      description = description;
      overdraft_limit = pos 0;
      aclrules = create (acl_rule inherit) none none [] [] none;
      group_name = some g.group;
    } in
    save_account a >> return_ a

save_limit : Surroundings → Account → ℤ → Exec World Account
unfolding save_account
save_limit s a limit =
    if eqb_ℤ a.overdraft_limit limit
    then return_ a
    else if ltb_ℤ (s.available a.uid) (neg limit)
    then raise account_error
    else (save_account (record a { overdraft_limit = limit })
        >> return_ (record a { overdraft_limit = limit }))

-- `Account.set_overdraft_limit`
pub set_overdraft_limit : Surroundings → Account → ℤ → Exec World Account
unfolding save_limit
set_overdraft_limit s a limit = do
  decimal ← lift (create_decimal s.formats limit)
  if ltb_ℤ decimal (pos 0) then raise value_error else save_limit s a decimal

set_limit : Surroundings → Account → Option ℤ → Exec World Account
unfolding set_overdraft_limit
set_limit s a none = return_ a
set_limit s a (some limit) = set_overdraft_limit s a limit

eq_group : Option String → String → Bool
eq_group none group = false
eq_group (some g) group = str_eq g group

-- `Account.set_group`, where the group differs.
set_group : Accounts → Account → Exec World Account
unfolding eq_group save_account
set_group g a =
    if eq_group a.group_name g.group
    then return_ a
    else (save_account (record a { group_name = some g.group })
        >> return_ (record a { group_name = some g.group }))

-- `create_account` where the name has an entry.
existing : Surroundings → Accounts → Option ℤ → Entry → Exec World Account
unfolding load_account set_group set_limit
existing s g limit e = do
  w ← get_state
  a ← lift (load_account e w)
  b ← set_group g a
  set_limit s b limit

give_up : Accounts → String → Error → Exec World Account
unfolding delete_entry
give_up g name why = delete_entry g name >> raise why

-- What is done once the name is under construction, and the mutex given back.
construct : Surroundings → Accounts → String → Option String → Option ℤ → Exec World Account
unfolding new_account give_up set_limit set_entry
construct s g name description limit = do
  a ← try (new_account s g name description) (give_up g name)
  b ← set_limit s a limit
  set_entry g name (uid_of b.uid)
  return_ b

with_mutex :
    Surroundings → Accounts → String → Option String → Option ℤ → Option Entry → Exec World Account
unfolding existing construct set_entry
with_mutex s g name description limit (some e) = lift s.unlock >> existing s g limit e
with_mutex s g name description limit none = do
  set_entry g name under_construction
  lift s.unlock
  construct s g name description limit

meanwhile : Surroundings → Exec World (Unit {0})
meanwhile s w = (ok tt, s.others w)

when_absent :
    Surroundings → Accounts → String → Option String → Option ℤ → Option Entry → Exec World Account
unfolding existing meanwhile with_mutex entry_of
when_absent s g name description limit (some e) = existing s g limit e
when_absent s g name description limit none = do
  meanwhile s
  lift s.lock
  w ← get_state
  with_mutex s g name description limit (entry_of g.group name w.uids)

check_authorisation : Accounts → Option Authorisation → Result (Unit {0})
check_authorisation g none = ok tt
check_authorisation g (some a) = elim g.user_guid [
  | none ↦ a.verified
  | some user ↦ if eq_guid (some user) a.user_guid then a.verified else err permission_error
]

-- `Accounts.create_account`
pub create_account :
    Surroundings
    → Accounts
    → Option String
    → Option String
    → Option ℤ
    → Option Authorisation
    → Exec World Account
unfolding check_authorisation when_absent entry_of assert_is_writeable
create_account s g none description limit authorisation = raise value_error
create_account s g (some name) description limit authorisation = do
  lift (check_authorisation g authorisation)
  lift (assert_is_writeable g)
  w ← get_state
  when_absent s g name description limit (entry_of g.group name w.uids)

-- `Accounts.get_account`: everyone has a main account.
found : Surroundings → Accounts → String → Option Entry → Exec World Account
unfolding create_account load_account
found s g name none =
    if str_eq name "main"
    then create_account s g (some "main") (some "primary user account") (some (pos 0)) none
    else raise account_error
found s g name (some e) = get_state >>= λ w. lift (load_account e w)

pub get_account : Surroundings → Accounts → String → Exec World Account
unfolding found entry_of assert_is_readable
get_account s g name = do
  lift (assert_is_readable g)
  w ← get_state
  found s g name (entry_of g.group name w.uids)

is_entry : ℕ → Option Entry → Bool
is_entry u (some (uid_of v)) = u == v
is_entry u _ = false

-- `Accounts.contains`
unfoldable pub contains : Accounts → Account → Exec World Bool
unfolding is_entry entry_of assert_is_readable
contains g a = do
  lift (assert_is_readable g)
  w ← get_state
  return_ (is_entry a.uid (entry_of g.group a.name w.uids))
