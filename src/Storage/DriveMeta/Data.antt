-- ===== src/Storage/DriveMeta/Data.antt =====
-- The JSON form of a drive's metadata.
use acquire.Base.{◌≡◌, refl, Option, none, some}
use acquire.Base.Texts.{Text}
use acquire.Base.Result.{ok}
use acquire.Identity.AclRule.{AclRule}
use acquire.Identity.AclRules.{AclRules}
use acquire.Identity.AclRule.Data.{from_data-to_data}
use acquire.Storage.DriveMeta.{
  Containers, DriveMeta, create, is_null, drive_to_data, drive_from_data, rule_from, rule_data,
}

-- What other services get to know of a drive.
unfoldable pub told : DriveMeta → DriveMeta
unfolding create
told d = elim d.name [
  | none ↦ create none none none none
  | some name ↦ record d { creds = none; aclrules = none }
]

rule_from-rule_data : (acl : Option AclRule) → rule_from (rule_data acl) ≡ ok acl
unfolding rule_from rule_data
rule_from-rule_data none = refl
rule_from-rule_data (some acl) = from_data-to_data acl

by_name :
    (name uid creds : Option Text) (container : Option Containers) (aclrules : Option AclRules)
    (acl : Option AclRule)
    → drive_from_data (
        drive_to_data (record {
          name = name;
          uid = uid;
          creds = creds;
          container = container;
          aclrules = aclrules;
          acl = acl;
        }))
      ≡ ok (
          told (record {
            name = name;
            uid = uid;
            creds = creds;
            container = container;
            aclrules = aclrules;
            acl = acl;
          }))
unfolding drive_from_data drive_to_data is_null told
by_name none uid creds container aclrules acl = refl
by_name (some name) uid creds container aclrules acl = rw (rule_from-rule_data acl) refl

-- `from_data` gives back what `to_data` wrote: name, UID, container and the resolved rule of a drive, without the
-- credentials and the rules of the drive, and nothing of a drive without a name.
pub drive_from_data-drive_to_data :
    (d : DriveMeta) → drive_from_data (drive_to_data d) ≡ ok (told d)
drive_from_data-drive_to_data d = by_name d.name d.uid d.creds d.container d.aclrules d.acl
