-- ===== src/Registry/Services.antt =====
-- `Registry.register_service`, `get_service` and what they call. The object store of the registry is a record: the data of the services by UID, the UIDs by URL, the
-- UIDs that stand as keys under `pending` and under `active` of each domain, and the last UID given away.
pub mod Counts
pub mod Registering
pub mod Quota
pub mod Apart
pub mod Found
pub mod Unique
use acquire.Base.{
  ◌==◌, ℕ, ◌+◌, ◌*◌, Bool, true, false, not, ◌&&◌, ◌||◌, List, [], ◌∷◌, ◌++◌, ltb, if◌then◌else◌,
  Option, none, some, length,
}
use acquire.Base.Texts.{Text, codes, same, starts_with, before}
use acquire.Base.Result.{
  Error, Result, ok, err, permission_error, value_error, missing_service_error,
}
use acquire.Base.Exec.{Exec, return_, raise, lift, get_state, ◌>>=◌, ◌>>◌}
use acquire.Registry.Urls.{
  Service, Surroundings, is_stage1, should_refresh_keys, get_canonical_url, get_domain,
  challenge_service,
}
use acquire.Registry.Uids.Generate.{Locks, Stored, generate}

pub record Store : Type 0 where
  pub services : List (Text × Service)
  pub urls : List (Text × Text)
  pub pending : Text → List Text
  pub active : Text → List Text
  pub last_uid : Stored

pub look_up : {A : Type 0} → Text → List (Text × A) → Option A
look_up k [] = none
look_up k ((i, a) ∷ rest) = if same i k then some a else look_up k rest

pub listed : Text → List Text → Bool
listed name [] = false
listed name (n ∷ names) = same n name || listed name names

-- A key that is there already is written again.
pub add_name : Text → List Text → List Text
unfolding listed
add_name name names = if listed name names then names else name ∷ names

pub remove_name : Text → List Text → List Text
remove_name name [] = []
remove_name name (n ∷ names) =
    if same n name then remove_name name names else n ∷ remove_name name names

pub at_domain : Text → (List Text → List Text) → (Text → List Text) → Text → List Text
at_domain domain change names d = if same d domain then change (names d) else names d

-- The assignments to keys of the object store.
set_service : Text → Service → Exec Store (Unit {0})
set_service uid service w = (ok tt, record w { services = (uid, service) ∷ w.services })

set_url : Text → Text → Exec Store (Unit {0})
set_url url uid w = (ok tt, record w { urls = (url, uid) ∷ w.urls })

set_pending : Text → Text → Exec Store (Unit {0})
unfolding at_domain add_name
set_pending domain uid w = (ok tt, record w { pending = at_domain domain (add_name uid) w.pending })

delete_pending : Text → Text → Exec Store (Unit {0})
unfolding at_domain remove_name
delete_pending domain uid w =
    (ok tt, record w { pending = at_domain domain (remove_name uid) w.pending })

set_active : Text → Text → Exec Store (Unit {0})
unfolding at_domain add_name
set_active domain uid w = (ok tt, record w { active = at_domain domain (add_name uid) w.active })

guard : Bool → Error → Result (Unit {0})
guard true why = ok tt
guard false why = err why

-- `_generate_service_uid`, on the key that it keeps; its loop needs two rounds.
new_uid : Locks → Text → Exec Store (Option Text)
new_uid locks registry_uid w = (
  (generate locks 2 registry_uid w.last_uid).0,
  record w { last_uid = (generate locks 2 registry_uid w.last_uid).1 },
)

-- A service that registers again from a URL keeps its UID, unless a new one is asked for.
choose_uid : Locks → Text → Bool → Option Text → Exec Store (Option Text)
unfolding new_uid
choose_uid locks registry_uid force_new_uid none = new_uid locks registry_uid
choose_uid locks registry_uid true (some uid) = new_uid locks registry_uid
choose_uid locks registry_uid false (some uid) = return_ (some uid)

save : Text → Service → Option Text → Exec Store (Option Text)
unfolding set_service set_url set_pending
save domain service none = return_ none
save domain service (some uid) = do
  set_service uid service
  set_url service.canonical_url uid
  set_pending domain uid
  return_ (some uid)

-- The quotas of a domain: fewer than 4 that are pending, and fewer than 16 in all.
check_quota : Text → Store → Result (Unit {0})
check_quota domain w =
    if ltb (length (w.pending domain)) 4
    then if ltb (length (w.active domain) + length (w.pending domain)) 16
      then ok tt
      else err permission_error
    else err permission_error

-- `Registry.register_service`, from the challenge on.
enrol : Surroundings → Locks → Text → Bool → Service → Text → Exec Store (Option Text)
unfolding guard choose_uid save is_stage1 look_up challenge_service
enrol s locks registry_uid force_new_uid service domain = do
  answer ← lift (challenge_service s service)
  lift (guard (is_stage1 answer) permission_error)
  w ← get_state
  uid ← choose_uid locks registry_uid force_new_uid (look_up answer.canonical_url w.urls)
  save domain answer uid

-- `Registry.register_service`
pub register_service : Surroundings → Locks → Text → Bool → Service → Exec Store (Option Text)
unfolding guard check_quota is_stage1 get_domain enrol
register_service s locks registry_uid force_new_uid service = do
  lift (guard (is_stage1 service) permission_error)
  domain ← lift (get_domain s registry_uid service.service_url)
  w ← get_state
  lift (check_quota domain w)
  enrol s locks registry_uid force_new_uid service domain

-- How `get_service` is asked for a service.
pub data Sought : Type 0 where
  by_uid by_url : Text → Sought

is_this : Surroundings → Service → Sought → Bool
unfolding get_canonical_url
is_this s this_service (by_uid uid) = same this_service.uid uid
is_this s this_service (by_url url) = same this_service.canonical_url (get_canonical_url s url none)

-- `Registry.get_service_key`
get_service_key : Surroundings → Sought → Store → Option Text
unfolding look_up get_canonical_url
get_service_key s (by_uid uid) w = some uid
get_service_key s (by_url url) w = look_up (get_canonical_url s url none) w.urls

fetch : Option Text → Store → Option (Text × Service)
unfolding look_up
fetch none w = none
fetch (some uid) w = elim (look_up uid w.services) [
  | none ↦ none
  | some service ↦ some (uid, service)
]

move_to_active : Text → Text → Service → Exec Store Service
unfolding delete_pending set_active set_service
move_to_active key domain answer = do
  delete_pending domain answer.uid
  set_active domain answer.uid
  set_service key answer
  return_ answer

-- A service that was under construction, as it describes itself now, moves from pending to active.
activate : Surroundings → Text → Text → Service → Exec Store Service
unfolding guard challenge_service is_stage1 get_domain move_to_active
activate s registry_uid key service = do
  answer ← lift (challenge_service s service)
  lift (guard (not (is_stage1 answer)) missing_service_error)
  domain ← lift (get_domain s registry_uid answer.service_url)
  move_to_active key domain answer

refresh : Surroundings → Text → Service → Exec Store Service
unfolding set_service
refresh s key service = do fresh ← lift (s.refreshed service); set_service key fresh; return_ fresh

found : Surroundings → Text → Option (Text × Service) → Exec Store Service
unfolding activate refresh is_stage1 should_refresh_keys
found s registry_uid none = raise missing_service_error
found s registry_uid (some (key, service)) =
    if is_stage1 service
    then activate s registry_uid key service
    else if should_refresh_keys s.now service
    then refresh s key service
    else return_ service

-- `Registry.get_service`
pub get_service : Surroundings → Text → Service → Sought → Exec Store Service
unfolding is_this get_service_key fetch found
get_service s registry_uid this_service sought w =
    if is_this s this_service sought
    then (ok this_service, w)
    else found s registry_uid (fetch (get_service_key s sought w) w) w
