-- ===== src/Storage/DriveMeta/Seen.antt =====
-- What a user sees of a drive after `resolve_acl`.
use acquire.Base.{
  ◌≡◌, ◌≢◌, refl, Bool, true, false, Option, none, some, is_some, inl, inr, Bool-cases, arith,
}
use Prim.{absurd}
use acquire.Base.Result.{Result, ok, err, Error, permission_error}
use acquire.Base.Exec.{lift, ◌>>=◌, ◌>>◌}
use acquire.Identity.AclRule.{
  Permission, AclRule, of_flags, denied, multiply, perm_min, denied_all, is_fully_resolved,
  force_resolve, or_else,
}
use acquire.Identity.Identifiers.{Identifiers}
use acquire.Identity.AclRules.{AclRules}
use acquire.Identity.AclRules.Resolve.{Upstream, resolve, resolve_rule}
use acquire.Storage.DriveMeta.{
  DriveMeta, narrow, set_acl, hide_rules, hide_denied, deny, conclude, resolve_with, resolve_any,
  resolve_acl,
}

-- A rule grants no more than the `open_aclrule` does.
pub record IsWithin (a b : AclRule) : Type 0 where
  pub owner : a.is_owner ≡ some true → b.is_owner ≡ some true
  pub reader : a.is_readable ≡ some true → b.is_readable ≡ some true
  pub writer : a.is_writeable ≡ some true → b.is_writeable ≡ some true
  pub executer : a.is_executable ≡ some true → b.is_executable ≡ some true

abbrev pub IsNarrow : Option AclRule → AclRule → Type 0
IsNarrow none acl = Unit
IsNarrow (some open_aclrule) acl = IsWithin acl open_aclrule

-- What is left to see is what the rule allows for.
pub record Shows (d : DriveMeta) (acl : AclRule) (t : DriveMeta) : Type 0 where
  pub kept : t.acl ≡ some acl
  pub no_rules : acl.is_owner ≢ some true → t.aclrules ≡ none
  pub hidden :
      denied_all acl ≡ true
      → (t.name ≡ none) × (t.uid ≡ none) × (t.creds ≡ none) × (t.container ≡ none)
  pub shown :
      denied_all acl ≡ false
      → (t.name ≡ d.name) × (t.uid ≡ d.uid) × (t.creds ≡ d.creds) × (t.container ≡ d.container)

pub data Seen (d : DriveMeta) (open_aclrule : Option AclRule)
    : Result (Option AclRule) × DriveMeta → Type 0 where
  refused : (why : Error) → Seen d open_aclrule (err why, d)
  seen :
      (acl : AclRule) (t : DriveMeta)
      → IsNarrow open_aclrule acl
      → Shows d acl t
      → Seen d open_aclrule (ok t.acl, t)

both_grant : (p q : Permission) → is_some q ≡ true → perm_min p q ≡ some true → q ≡ some true
unfolding perm_min
both_grant p none s h = cc
both_grant none (some b) s h = h
both_grant (some true) (some b) s h = h
both_grant (some false) (some b) s h = cc

forced_grant : (p q : Permission) → perm_min p (or_else q (some false)) ≡ some true → q ≡ some true
unfolding perm_min
forced_grant none none h = cc
forced_grant (some true) none h = cc
forced_grant (some false) none h = cc
forced_grant none (some b) h = h
forced_grant (some true) (some b) h = h
forced_grant (some false) (some b) h = cc

forced-IsWithin : (a o : AclRule) → IsWithin (multiply a (force_resolve false o)) o
unfolding multiply force_resolve
forced-IsWithin a o = record {
  owner = forced_grant a.is_owner o.is_owner;
  reader = forced_grant a.is_readable o.is_readable;
  writer = forced_grant a.is_writeable o.is_writeable;
  executer = forced_grant a.is_executable o.is_executable;
}

resolved-IsWithin : (a o : AclRule) → is_fully_resolved o ≡ true → IsWithin (multiply a o) o
unfolding multiply is_fully_resolved
resolved-IsWithin a o h = record {
  owner = both_grant a.is_owner o.is_owner (ground arith);
  reader = both_grant a.is_readable o.is_readable (ground arith);
  writer = both_grant a.is_writeable o.is_writeable (ground arith);
  executer = both_grant a.is_executable o.is_executable (ground arith);
}

record Narrowed (open_aclrule : Option AclRule) (r : Result AclRule) : Type 0 where
  acl : AclRule
  found : r ≡ ok acl
  is_narrow : IsNarrow open_aclrule acl

narrow-Narrowed :
    (open_aclrule : Option AclRule) (a : AclRule) → Narrowed open_aclrule (narrow open_aclrule a)
unfolding narrow resolve_rule
narrow-Narrowed none a = record { acl = a; found = refl; is_narrow = tt }
narrow-Narrowed (some o) a = elim (Bool-cases (is_fully_resolved o)) [
  | inl e ↦
      rw (e) (record { acl = multiply a o; found = refl; is_narrow = resolved-IsWithin a o e })
  | inr e ↦ rw (e) (record {
    acl = multiply a (force_resolve false o);
    found = refl;
    is_narrow = forced-IsWithin a o;
  })
]

hide_rules-Shows_by :
    (o r w x : Permission) (d : DriveMeta)
    → denied_all (of_flags o r w x) ≡ false
    → Shows d
        (of_flags o r w x)
        (hide_rules (of_flags o r w x) (record d { acl = some (of_flags o r w x) }))
unfolding hide_rules
hide_rules-Shows_by none r w x d e = record {
  kept = refl;
  no_rules = λ _. refl;
  hidden = λ h. cc;
  shown = λ _. (refl, refl, refl, refl);
}
hide_rules-Shows_by (some true) r w x d e = record {
  kept = refl;
  no_rules = λ h. absurd (h refl);
  hidden = λ h. cc;
  shown = λ _. (refl, refl, refl, refl);
}
hide_rules-Shows_by (some false) r w x d e = record {
  kept = refl;
  no_rules = λ _. refl;
  hidden = λ h. cc;
  shown = λ _. (refl, refl, refl, refl);
}

denied-IsNarrow : (open_aclrule : Option AclRule) → IsNarrow open_aclrule denied
denied-IsNarrow none = tt
denied-IsNarrow (some o) = record {
  owner = λ h. cc;
  reader = λ h. cc;
  writer = λ h. cc;
  executer = λ h. cc;
}

deny-Shows : (d t : DriveMeta) → Shows d denied (deny t)
unfolding deny denied_all
deny-Shows d t = record {
  kept = refl;
  no_rules = λ _. refl;
  hidden = λ _. (refl, refl, refl, refl);
  shown = λ h. cc;
}

conclude-Seen :
    (open_aclrule : Option AclRule) (acl : AclRule) (d : DriveMeta)
    → IsNarrow open_aclrule acl
    → Seen d open_aclrule (conclude acl (record d { acl = some acl }))
unfolding conclude hide_denied
conclude-Seen open_aclrule acl d n = elim (Bool-cases (denied_all acl)) [
  | inl e ↦ rw (e) (
      seen denied (deny (hide_rules acl (record d { acl = some acl })))
        (denied-IsNarrow open_aclrule) (deny-Shows d d))
  | inr e ↦ rw (e) (
      seen acl (hide_rules acl (record d { acl = some acl })) n
        (hide_rules-Shows_by acl.is_owner acl.is_readable acl.is_writeable acl.is_executable d e))
]

resolved-Seen :
    (open_aclrule : Option AclRule) (d : DriveMeta) (outcome : Result AclRule)
    → Seen d open_aclrule (
        (lift outcome >>= λ acl.
        set_acl acl
        >> (lift (narrow open_aclrule acl) >>= λ narrowed. set_acl narrowed >> conclude narrowed))
          d)
unfolding set_acl
resolved-Seen open_aclrule d (err why) = refused why
resolved-Seen open_aclrule d (ok a) =
    let n = narrow-Narrowed open_aclrule a in
    rw (n.found) (conclude-Seen open_aclrule n.acl d n.is_narrow)

resolve_any-Seen :
    (rules : Option AclRules) (ids : Identifiers) (up : Upstream) (must_resolve unresolved : Bool)
    (open_aclrule : Option AclRule) (d : DriveMeta)
    → Seen d open_aclrule (resolve_any rules ids up must_resolve unresolved open_aclrule d)
unfolding resolve_any resolve_with
resolve_any-Seen none ids up must_resolve unresolved open_aclrule d = refused permission_error
resolve_any-Seen (some rules) ids up must_resolve unresolved open_aclrule d =
    resolved-Seen open_aclrule d (resolve rules must_resolve ids up unresolved)

-- `resolve_acl` either raises and changes nothing, or returns the rule that the object keeps from then on. It
-- grants nothing that an `open_aclrule` does not grant. Unless it makes the user an owner the rules of
-- the drive are gone; if it denies all the name, UID, credentials and container are gone too, and they are as before
-- otherwise.
pub resolve_acl-Seen :
    (ids : Identifiers) (up : Upstream) (must_resolve unresolved : Bool)
    (open_aclrule : Option AclRule) (d : DriveMeta)
    → Seen d open_aclrule (resolve_acl ids up must_resolve unresolved open_aclrule d)
unfolding resolve_acl
resolve_acl-Seen ids up must_resolve unresolved open_aclrule d =
    resolve_any-Seen d.aclrules ids up must_resolve unresolved open_aclrule d
