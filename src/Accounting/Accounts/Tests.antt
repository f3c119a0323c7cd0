-- ===== src/Accounting/Accounts/Tests.antt =====
-- Accounts of a user's group, and uses of the theorems on them.
use acquire.Base.{ℕ, String, ◌≡◌, refl, true, Option, none, some, [], ◌∷◌}
use acquire.Base.Int.{ℤ, pos, negsuc, neg}
use acquire.Base.Result.{ok, err, value_error, account_error, permission_error}
use acquire.Accounting.Formats.{Formats, create_decimal}
use acquire.Identity.AclRule.{owner, inherit}
use acquire.Identity.AclRules.{acl_rule}
use acquire.Identity.AclRules.Build.{create}
use acquire.Identity.AclRules.Resolve.{resolve}
use acquire.Accounting.Accounts.{
  Account, Accounts, World, Surroundings, under_construction, uid_of, new_accounts,
  assert_is_readable, assert_is_writeable, create_account, get_account, contains, entry_of,
}
use acquire.Accounting.Accounts.Held.{get_account-create_account}
use acquire.Accounting.Accounts.Stuck.{create_account_stuck}

abbrev plain : Formats
plain = record {
  round6 = λ v. v;
  show = λ _. [];
  read = λ _. none;
  show_time = λ _. [];
  read_time = λ _. none;
  part_of = λ _ _ _. "";
}

abbrev alone : ℕ → Surroundings
alone uid = record {
  new_uid = uid;
  lock = ok tt;
  unlock = ok tt;
  others = λ w. w;
  formats = plain;
  available = λ _. pos 0;
}

abbrev empty : World
empty = record { acls = []; uids = []; accounts = [] }

abbrev group : Accounts
group = record {
  group = "ada";
  user_guid = some "ada";
  aclrules = create (acl_rule owner) (some "ada") none [] [] none;
}

abbrev savings : Account
savings = record {
  uid = 7;
  name = "savings";
  description = "for later";
  overdraft_limit = pos 5;
  aclrules = create (acl_rule inherit) none none [] [] none;
  group_name = some "ada";
}

abbrev saved : World
saved = record {
  acls = [];
  uids = ("ada", "savings", uid_of 7) ∷ ("ada", "savings", under_construction) ∷ [];
  accounts = (7, savings) ∷ (7, record savings { overdraft_limit = pos 0 }) ∷ [];
}

new_group : (new_accounts (some "ada") none none empty).0 ≡ ok group
unfolding new_accounts
new_group = refl

no_owner : (new_accounts none none none empty).0 ≡ err permission_error
unfolding new_accounts
no_owner = refl

readable : assert_is_readable group ≡ ok tt
unfolding assert_is_readable resolve create
readable = refl

writeable : assert_is_writeable group ≡ ok tt
unfolding assert_is_writeable resolve create
writeable = refl

create_savings :
    create_account (alone 7) group (some "savings") (some "for later") (some (pos 5)) none empty
    ≡ (ok savings, saved)
unfolding create_account resolve create create_decimal neg
create_savings = refl

holds_savings : (contains group savings saved).0 ≡ ok true
unfolding contains resolve create
holds_savings = refl

-- Without a description there is no account, and the name is free again.
undescribed :
    create_account (alone 7) group (some "savings") none none none empty
    ≡ (err account_error, empty)
unfolding create_account resolve create
undescribed = refl

get_account-create_account_example :
    get_account (alone 8) group "savings" saved ≡ (ok savings, saved)
get_account-create_account_example =
    get_account-create_account (alone 7) (alone 8) group "savings" (some "for later") (some (pos 5))
      none empty tt tt readable create_savings

create_account_stuck_example :
    (t : World) × (create_account
        (alone 7)
        group
        (some "savings")
        (some "for later")
        (some (negsuc 0))
        none
        empty
      ≡ (err value_error, t))
    × ((s' : Surroundings) → get_account s' group "savings" t ≡ (err account_error, t))
    × ((s' : Surroundings) (description' : Option String) (limit' : Option ℤ)
        → create_account s' group (some "savings") description' limit' none t
          ≡ (err account_error, t))
unfolding create_decimal entry_of neg
create_account_stuck_example =
    create_account_stuck (alone 7) group "savings" "for later" (negsuc 0) (negsuc 0) empty refl refl
      readable writeable refl refl refl refl
