-- ===== src/Accounting/Accounts/Stuck.antt =====
-- A name whose account could not be finished.
use acquire.Base.{String, str_eq_refl, true, ◌≡◌, refl, Option, none, some, List, ◌∷◌}
use acquire.Base.Int.{ℤ, pos, ltb_ℤ}
use acquire.Base.Result.{ok, err, value_error, account_error}
use acquire.Accounting.Formats.{create_decimal}
use acquire.Accounting.Accounts.{
  Accounts, World, Surroundings, Entry, under_construction, entry_of, load_account, save_account,
  new_account, set_overdraft_limit, set_limit, existing, set_entry, construct, with_mutex,
  meanwhile, when_absent, check_authorisation, assert_is_writeable, assert_is_readable,
  create_account, found, get_account,
}

entry_first :
    (group name : String) (e : Entry) (rest : List (String × String × Entry))
    → entry_of group name ((group, name, e) ∷ rest) ≡ some e
unfolding entry_of
entry_first group name e rest = rw (str_eq_refl group, str_eq_refl name) refl

-- The state in which a creation stops at the limit.
begun : Surroundings → Accounts → String → String → World → World
unfolding set_entry new_account save_account
begun s g name description w =
    (new_account s g name (some description) (set_entry g name under_construction w).1).1

-- No call makes anything of a name that is under construction.
module _ (g : Accounts) (name : String) (w : World)
    (stuck : entry_of g.group name w.uids ≡ some under_construction) where
  get_stuck :
      (s : Surroundings)
      → assert_is_readable g ≡ ok tt
      → get_account s g name w ≡ (err account_error, w)
  unfolding get_account found load_account
  get_stuck s readable = rw (readable, stuck) refl

  create_stuck :
      (s : Surroundings) (description : Option String) (limit : Option ℤ)
      → assert_is_writeable g ≡ ok tt
      → create_account s g (some name) description limit none w ≡ (err account_error, w)
  unfolding create_account check_authorisation when_absent existing load_account
  create_stuck s description limit writeable = rw (writeable, stuck) refl

module _ (s : Surroundings) (g : Accounts) (name description : String) (limit : ℤ) (w : World) where
  refused :
      {decimal : ℤ}
      → s.lock ≡ ok tt
      → s.unlock ≡ ok tt
      → assert_is_writeable g ≡ ok tt
      → create_decimal s.formats limit ≡ ok decimal
      → ltb_ℤ decimal (pos 0) ≡ true
      → entry_of g.group name w.uids ≡ none
      → entry_of g.group name (s.others w).uids ≡ none
      → (t : World) × (create_account s g (some name) (some description) (some limit) none w
          ≡ (err value_error, t))
        × (entry_of g.group name t.uids ≡ some under_construction)
  unfolding create_account check_authorisation when_absent meanwhile with_mutex set_entry construct
      new_account save_account set_limit set_overdraft_limit begun
  refused locked unlocked writeable exact negative absent absent' = (
    begun s g name description (s.others w),
    rw (writeable, absent, locked, absent', unlocked, exact, negative) refl,
    entry_first g.group name under_construction (s.others w).uids,
  )

-- With a limit below zero `create_account` raises a `ValueError` once it has put the name under construction
-- and given the mutex back, and leaves it so. From then on `get_account` and `create_account` raise an
-- `AccountError` for the name and change nothing, whatever they are asked for. This is for a user who may
-- write to the group and read it, and a name that was free when the mutex was had.
pub create_account_stuck :
    (s : Surroundings) (g : Accounts) (name description : String) (limit decimal : ℤ) (w : World)
    → s.lock ≡ ok tt
    → s.unlock ≡ ok tt
    → assert_is_readable g ≡ ok tt
    → assert_is_writeable g ≡ ok tt
    → create_decimal s.formats limit ≡ ok decimal
    → ltb_ℤ decimal (pos 0) ≡ true
    → entry_of g.group name w.uids ≡ none
    → entry_of g.group name (s.others w).uids ≡ none
    → (t : World) × (create_account s g (some name) (some description) (some limit) none w
        ≡ (err value_error, t))
      × ((s' : Surroundings) → get_account s' g name t ≡ (err account_error, t))
      × ((s' : Surroundings) (description' : Option String) (limit' : Option ℤ)
          → create_account s' g (some name) description' limit' none t ≡ (err account_error, t))
create_account_stuck s g name description limit decimal w locked unlocked readable writeable exact
      negative absent absent' =
    let (t, raised, stuck) =
      refused s g name description limit w locked unlocked writeable exact negative absent
        absent' in
    (
      t,
      raised,
      λ s'. get_stuck g name t stuck s' readable,
      λ s' d l. create_stuck g name t stuck s' d l writeable,
    )
