-- ===== src/Storage/DriveMeta/Tests.antt =====
-- A drive that its owner shares, and uses of the theorems on it.
use acquire.Base.{◌≡◌, refl, false, none, some, [], ◌∷◌}
use acquire.Base.Texts.{codes}
use acquire.Base.Result.{ok, err, permission_error}
use acquire.Identity.AclRule.{writer, reader, denied, denied_all}
use acquire.Identity.Identifiers.{identifiers}
use acquire.Identity.AclRules.{
  acl_rule, user_rules, entry, end, rule_list, no_default, cons, nil, max,
}
use acquire.Identity.AclRules.Resolve.{no_upstream, resolve}
use acquire.Storage.DriveMeta.{
  DriveMeta, one, many, create, guid, container_uid, container_uids, nested, resolve_acl,
  drive_to_data, drive_from_data, is_top_level,
}
use acquire.Storage.DriveMeta.Seen.{Seen, resolve_acl-Seen}
use acquire.Storage.DriveMeta.Data.{told, drive_from_data-drive_to_data}

-- Only ada has a rule.
abbrev shared : DriveMeta
shared =
    create (some (codes "work")) (some (codes "d1")) (some (many (codes "d0" ∷ codes "d9" ∷ []))) (
      some (
        rule_list no_default max
          (cons none (user_rules (entry (some "ada") (acl_rule writer) end)) nil)))

abbrev seen_by_ada : DriveMeta
seen_by_ada = record shared { aclrules = none; acl = some reader }

abbrev seen_by_eve : DriveMeta
seen_by_eve = record {
  name = none;
  uid = none;
  creds = none;
  container = none;
  aclrules = none;
  acl = some denied;
}

-- A writer reads through a link for readers.
ada_reads :
    resolve_acl (identifiers (some "ada")) no_upstream false false (some reader) shared
    ≡ (ok (some reader), seen_by_ada)
unfolding create resolve_acl resolve identifiers denied_all
ada_reads = refl

eve_denied :
    resolve_acl (identifiers (some "eve")) no_upstream false false (some reader) shared
    ≡ (ok (some denied), seen_by_eve)
unfolding create resolve_acl resolve identifiers denied_all
eve_denied = refl

-- Who is no owner cannot resolve a second time.
ada_again :
    (resolve_acl (identifiers (some "ada")) no_upstream false false none seen_by_ada).0
    ≡ err permission_error
unfolding create resolve_acl
ada_again = refl

resolve_acl-Seen_example : Seen shared (some reader) (ok (some reader), seen_by_ada)
unfolding create resolve_acl resolve identifiers denied_all
resolve_acl-Seen_example =
    resolve_acl-Seen (identifiers (some "ada")) no_upstream false false (some reader) shared

drive_from_data-drive_to_data_example : drive_from_data (drive_to_data seen_by_ada) ≡ ok seen_by_ada
unfolding create told
drive_from_data-drive_to_data_example = drive_from_data-drive_to_data seen_by_ada

-- A drive in one other drive: its container is a list in a list.
abbrev inner : DriveMeta
inner = create (some (codes "old")) (some (codes "d2")) (some (many (codes "d1" ∷ []))) none

inner_uid : container_uid inner ≡ ok (some (many (codes "d1" ∷ [])))
unfolding create container_uid
inner_uid = refl

inner_uids : container_uids inner ≡ nested (codes "d1")
unfolding create container_uids
inner_uids = refl

-- A container that is given as a text: its last letter is taken for the UID.
letter :
    container_uid (create (some (codes "old")) none (some (one (codes "d1"))) none)
    ≡ ok (some (one (codes "1")))
unfolding create container_uid
letter = refl

no_guid : guid shared ≡ err permission_error
unfolding create guid
no_guid = refl

inner_level : is_top_level inner ≡ false
unfolding create is_top_level
inner_level = refl
