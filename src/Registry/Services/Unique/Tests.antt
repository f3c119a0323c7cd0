-- ===== src/Registry/Services/Unique/Tests.antt =====
-- Two services that a registry takes up at two URLs, and the use of the theorem on their UIDs.
use acquire.Base.{◌≡◌, ◌≢◌, refl, true, false, none, some, List, [], ◌∷◌}
use acquire.Base.Texts.{Text, codes, same, same-false, before}
use acquire.Base.Result.{ok}
use acquire.Registry.Uids.{settle, next_vals}
use acquire.Registry.Uids.Generate.{Locks, generate}
use acquire.Registry.Urls.{Service, Surroundings}
use acquire.Registry.Services.{Store, look_up, register_service}
use acquire.Registry.Services.Apart.{IsApart}
use acquire.Registry.Services.Quota.{Call, register, make_call, make_calls}
use acquire.Registry.Services.Unique.{make_calls_apart}

abbrev storage : Text
storage = codes "example.com/t/storage"

abbrev access : Text
access = codes "example.com/t/access"

-- A service under construction.
abbrev new_at : Text → Service
new_at url = record {
  uid = codes "STAGE1";
  service_url = codes "https://example.com/t";
  canonical_url = url;
  has_user = true;
  has_public_key = true;
  last_key_update = some 0;
  key_update_interval = some 60;
}

abbrev answering : Service → Surroundings
answering service = record {
  now = 1000000;
  netloc = λ _. codes "example.com:443";
  path = λ _. codes "/t/";
  random_passphrase = codes "open";
  respond = λ _. ok (codes "open", service);
  refreshed = λ s. ok s;
}

abbrev held : Locks
held = record { lock = ok tt; unlock = ok tt }

abbrev b4 : Text
b4 = codes "b4-b4"

abbrev registry : Service
registry = record (new_at (codes "example.com/t/registry")) { uid = b4 }

abbrev empty : Store
empty = record { services = []; urls = []; pending = λ _. []; active = λ _. []; last_uid = none }

empty-IsApart : IsApart b4 empty
empty-IsApart = record { valid = tt; issued = tt; apart = tt }

abbrev register_at : Text → Call
register_at url = register (answering (new_at url)) held false (new_at url)

-- The first service registers again after the second.
abbrev calls : List Call
calls = register_at storage ∷ register_at access ∷ register_at storage ∷ []

storage_found : look_up storage (make_calls b4 registry calls empty).urls ≡ some (codes "b4-a0")
unfolding make_calls make_call register_service look_up settle next_vals generate same before
storage_found = refl

access_found : look_up access (make_calls b4 registry calls empty).urls ≡ some (codes "b4-a1")
unfolding make_calls make_call register_service look_up settle next_vals generate same before
access_found = refl

differing : storage ≢ access
unfolding same
differing = same-false storage access refl

make_calls_apart_example :
    look_up access (make_calls b4 registry calls empty).urls ≢ some (codes "b4-a0")
make_calls_apart_example =
    make_calls_apart b4 registry calls empty empty-IsApart storage access (codes "b4-a0") differing
      storage_found
