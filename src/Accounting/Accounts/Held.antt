-- ===== src/Accounting/Accounts/Held.antt =====
-- What `create_account` returns is what the group then holds under the name.
use acquire.Base.{
  ℕ, String, str_eq_refl, ◌≡◌, refl, sym, ◌∙◌, ap, Option, none, some, List, ◌∷◌, find, All, inl,
  inr, Bool-cases, subst,
}
use acquire.Base.Find.{eqb_true, find-here, find-All}
use acquire.Base.Int.{ℤ, pos, neg, ltb_ℤ, eqb_ℤ}
use acquire.Base.Result.{ok}
use acquire.Base.Exec.{
  Yields, seq-Yields, lift-Yields, try, try-Yields, weaken-Yields, Yields-returned,
}
use acquire.Accounting.Formats.{create_decimal}
use acquire.Accounting.Accounts.{
  Account, Accounts, World, Surroundings, Authorisation, Entry, under_construction, uid_of,
  entry_of, load_account, loaded, save_account, new_account, save_limit, set_overdraft_limit,
  set_limit, eq_group, set_group, existing, give_up, set_entry, construct, with_mutex, meanwhile,
  when_absent, check_authorisation, assert_is_writeable, assert_is_readable, create_account, found,
  get_account,
}

-- Each account is stored under its UID.
abbrev pub AreStored : World → Type 0
AreStored w = All (λ (ua : ℕ × Account). ua.1.uid ≡ ua.0) w.accounts

-- `b` is what became of `a`, and is stored; no name has changed.
record Saved (a : Account) (w : World) (b : Account) (t : World) : Type 0 where
  same_uid : b.uid ≡ a.uid
  same_names : t.uids ≡ w.uids
  stored : find b.uid t.accounts ≡ some b

save-Saved :
    (a b : Account) (w : World)
    → b.uid ≡ a.uid
    → Saved a w b (record w { accounts = (b.uid, b) ∷ w.accounts })
save-Saved a b w h = record {
  same_uid = h;
  same_names = refl;
  stored = find-here b.uid b.uid b w.accounts (eqb_true b.uid b.uid refl);
}

module _ (s : Surroundings) where
  save_limit-Saved :
      (a : Account) (limit : ℤ) (w : World)
      → find a.uid w.accounts ≡ some a
      → Yields (save_limit s a limit w) (Saved a w)
  unfolding save_limit save_account
  save_limit-Saved a limit w h = elim (Bool-cases (eqb_ℤ a.overdraft_limit limit)) [
    | inl e ↦ rw (e) (record { same_uid = refl; same_names = refl; stored = h })
    | inr e ↦ rw (e) (elim (Bool-cases (ltb_ℤ (s.available a.uid) (neg limit))) [
      | inl beyond ↦ rw (beyond) tt
      | inr within ↦ rw (within) (save-Saved a (record a { overdraft_limit = limit }) w refl)
    ])
  ]

  set_limit-Saved :
      (a : Account) (limit : Option ℤ) (w : World)
      → find a.uid w.accounts ≡ some a
      → Yields (set_limit s a limit w) (Saved a w)
  unfolding set_limit set_overdraft_limit
  set_limit-Saved a none w h = record { same_uid = refl; same_names = refl; stored = h }
  set_limit-Saved a (some limit) w h =
      lift-Yields (create_decimal s.formats limit) _ w (Saved a w) λ decimal _.
        elim (Bool-cases (ltb_ℤ decimal (pos 0))) [
          | inl e ↦ rw (e) tt
          | inr e ↦ rw (e) (save_limit-Saved a decimal w h)
        ]

set_group-Saved :
    (g : Accounts) (a : Account) (w : World)
    → find a.uid w.accounts ≡ some a
    → Yields (set_group g a w) (Saved a w)
unfolding set_group save_account
set_group-Saved g a w h = elim (Bool-cases (eq_group a.group_name g.group)) [
  | inl e ↦ rw (e, eq_group) (record { same_uid = refl; same_names = refl; stored = h })
  | inr e ↦ rw (e, eq_group) (save-Saved a (record a { group_name = some g.group }) w refl)
]

-- The group has the account under the name.
pub record IsHeld (g : Accounts) (name : String) (a : Account) (w : World) : Type 0 where
  pub entry : entry_of g.group name w.uids ≡ some (uid_of a.uid)
  pub stored : find a.uid w.accounts ≡ some a

loaded-some : (o : Option Account) {a : Account} → loaded o ≡ ok a → o ≡ some a
unfolding loaded
loaded-some none h = cc
loaded-some (some b) h = cc

load_account-IsHeld :
    (g : Accounts) (name : String) (e : Entry) (w : World) (a : Account)
    → AreStored w
    → entry_of g.group name w.uids ≡ some e
    → load_account e w ≡ ok a
    → IsHeld g name a w
unfolding load_account
load_account-IsHeld g name under_construction w a stored known h = cc
load_account-IsHeld g name (uid_of u) w a stored known h =
    let f : find u w.accounts ≡ some a = loaded-some (find u w.accounts) h in
    let same : a.uid ≡ u = find-All (λ v b. b.uid ≡ v) u w.accounts stored f in
    record {
      entry = known ∙ ap (λ v. some (uid_of v)) (sym same);
      stored = subst (λ v. find v w.accounts ≡ some a) (sym same) f;
    }

Saved-IsHeld :
    (g : Accounts) (name : String) (a b : Account) (w t : World)
    → IsHeld g name a w
    → Saved a w b t
    → IsHeld g name b t
Saved-IsHeld g name a b w t h k = record {
  entry =
      ap (entry_of g.group name) k.same_names
      ∙ h.entry
      ∙ ap (λ v. some (uid_of v)) (sym k.same_uid);
  stored = k.stored;
}

entry_here :
    (group name : String) (e : Entry) (rest : List (String × String × Entry))
    → entry_of group name ((group, name, e) ∷ rest) ≡ some e
unfolding entry_of
entry_here group name e rest = rw (str_eq_refl group, str_eq_refl name) refl

module _ (s : Surroundings) (g : Accounts) (name : String) (limit : Option ℤ) where
  existing-IsHeld :
      (e : Entry) (w : World)
      → AreStored w
      → entry_of g.group name w.uids ≡ some e
      → Yields (existing s g limit e w) (IsHeld g name)
  unfolding existing
  existing-IsHeld e w stored known = lift-Yields (load_account e w) _ w (IsHeld g name) λ a h.
      let held : IsHeld g name a w = load_account-IsHeld g name e w a stored known h in
      seq-Yields (set_group g a) (λ b. set_limit s b limit) w (Saved a w) (IsHeld g name)
        (set_group-Saved g a w held.stored)
        λ b t k.
          let held' : IsHeld g name b t = Saved-IsHeld g name a b w t held k in
          weaken-Yields (set_limit s b limit t) (set_limit-Saved s b limit t held'.stored)
            λ c u k'. Saved-IsHeld g name b c t u held' k'

  new_account-stored :
      (description : Option String) (w : World)
      → Yields (new_account s g name description w) (λ a t. find a.uid t.accounts ≡ some a)
  unfolding new_account save_account
  new_account-stored none w = tt
  new_account-stored (some description) w =
      find-here s.new_uid s.new_uid _ w.accounts (eqb_true s.new_uid s.new_uid refl)

  construct-IsHeld :
      (description : Option String) (w : World)
      → Yields (construct s g name description limit w) (IsHeld g name)
  unfolding construct give_up set_entry
  construct-IsHeld description w =
      seq-Yields (try (new_account s g name description) (give_up g name)) _ w
        (λ a t. find a.uid t.accounts ≡ some a) (IsHeld g name)
        (try-Yields (new_account s g name description) (give_up g name) w _
          (new_account-stored description w) (λ why t. tt))
        λ a t h.
          seq-Yields (set_limit s a limit) _ t (Saved a t) (IsHeld g name)
            (set_limit-Saved s a limit t h)
            λ b u k. record {
              entry = entry_here g.group name (uid_of b.uid) u.uids;
              stored = k.stored;
            }

  with_mutex-IsHeld :
      (description : Option String) (known : Option Entry) (w : World)
      → AreStored w
      → entry_of g.group name w.uids ≡ known
      → Yields (with_mutex s g name description limit known w) (IsHeld g name)
  unfolding with_mutex set_entry
  with_mutex-IsHeld description (some e) w stored h =
      lift-Yields s.unlock _ w (IsHeld g name) λ _ _. existing-IsHeld e w stored h
  with_mutex-IsHeld description none w stored h =
      lift-Yields s.unlock _ _ (IsHeld g name) λ _ _. construct-IsHeld description _

  when_absent-IsHeld :
      (description : Option String) (known : Option Entry) (w : World)
      → AreStored w
      → AreStored (s.others w)
      → entry_of g.group name w.uids ≡ known
      → Yields (when_absent s g name description limit known w) (IsHeld g name)
  unfolding when_absent meanwhile
  when_absent-IsHeld description (some e) w stored later h = existing-IsHeld e w stored h
  when_absent-IsHeld description none w stored later h =
      lift-Yields s.lock _ (s.others w) (IsHeld g name) λ _ _.
        with_mutex-IsHeld description (entry_of g.group name (s.others w).uids) (s.others w) later
          refl

  pub create_account-IsHeld :
      (description : Option String) (authorisation : Option Authorisation) (w : World)
      → AreStored w
      → AreStored (s.others w)
      → Yields (create_account s g (some name) description limit authorisation w) (IsHeld g name)
  unfolding create_account
  create_account-IsHeld description authorisation w stored later =
      lift-Yields (check_authorisation g authorisation) _ w (IsHeld g name) λ _ _.
        lift-Yields (assert_is_writeable g) _ w (IsHeld g name)
          λ _ _. when_absent-IsHeld description (entry_of g.group name w.uids) w stored later refl

held_get :
    (s : Surroundings) (g : Accounts) (name : String) (a : Account) (w : World)
    → assert_is_readable g ≡ ok tt
    → IsHeld g name a w
    → get_account s g name w ≡ (ok a, w)
unfolding get_account found load_account loaded
held_get s g name a w readable h = rw (readable, h.entry, h.stored) refl

-- The account that `create_account` returns, whether it was new or not, is the one that `get_account` returns
-- for the name from then on, with the state left as it is. This is for a user who may read the group, where
-- each account is stored under its UID, also after what other clients did before the mutex was had.
pub get_account-create_account :
    (s s' : Surroundings) (g : Accounts) (name : String) (description : Option String)
    (limit : Option ℤ) (authorisation : Option Authorisation) (w : World) {a : Account} {t : World}
    → AreStored w
    → AreStored (s.others w)
    → assert_is_readable g ≡ ok tt
    → create_account s g (some name) description limit authorisation w ≡ (ok a, t)
    → get_account s' g name t ≡ (ok a, t)
get_account-create_account s s' g name description limit authorisation w {a} {t} stored later
      readable returned =
    held_get s' g name a t readable (
      Yields-returned (create_account s g (some name) description limit authorisation w)
        (IsHeld g name) returned
        (create_account-IsHeld s g name limit description authorisation w stored later))
