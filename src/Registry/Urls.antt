-- ===== src/Registry/Urls.antt =====
-- `Service` as the registry reads it: its URLs and domain (`Service.get_canonical_url`, `_get_domain`), when
-- its keys are due (`should_refresh_keys`), and how it answers (`Registry.challenge_service`).
use acquire.Base.{
  ◌==◌, ℕ, ◌+◌, ◌*◌, Bool, true, false, not, ◌&&◌, ◌||◌, [], ◌∷◌, ◌++◌, ltb, if◌then◌else◌, Option,
  none, some,
}
use acquire.Base.Texts.{Text, codes, same, starts_with, before}
use acquire.Base.Result.{Result, ok, err, permission_error, value_error}

-- What the registry reads of a service, times in microseconds and the interval in seconds.
pub record Service : Type 0 where
  pub uid : Text
  pub service_url : Text
  pub canonical_url : Text
  pub has_user : Bool
  pub has_public_key : Bool
  pub last_key_update : Option ℕ
  pub key_update_interval : Option ℕ

-- The clock, `urlparse`, the passphrase that is drawn, and what comes back over the network: the response to
-- a challenge with the service's own data, and the service with its keys refreshed.
pub record Surroundings : Type 0 where
  pub now : ℕ
  pub netloc : Text → Text
  pub path : Text → Text
  pub random_passphrase : Text
  pub respond : Service → Result (Text × Service)
  pub refreshed : Service → Result Service

-- A service that a registry has not given a UID yet.
unfoldable pub is_stage1 : Service → Bool
is_stage1 service = same service.uid (codes "STAGE1")

interval : Option ℕ → ℕ
interval none = 1000000
interval (some seconds) = seconds * 1000000

update_due : ℕ → Option ℕ → Option ℕ → Bool
unfolding interval
update_due now none every = true
update_due now (some last) every = ltb (last + interval every) now

-- `Service.should_refresh_keys`
unfoldable pub should_refresh_keys : ℕ → Service → Bool
unfolding is_stage1 update_due
should_refresh_keys now service =
    if is_stage1 service
    then true
    else if not service.has_user || not service.has_public_key
    then true
    else update_due now service.last_key_update service.key_update_interval

is_empty : Text → Bool
is_empty [] = true
is_empty (_ ∷ _) = false

-- `text.find(".") != -1`
has_dot : Text → Bool
has_dot [] = false
has_dot (c ∷ cs) = c == b'.' || has_dot cs

-- `while url.endswith("/"): url = url[0:-1]`
without_slashes : Text → Text
unfolding is_empty
without_slashes [] = []
without_slashes (c ∷ cs) =
    let rest = without_slashes cs in if c == b'/' && is_empty rest then [] else c ∷ rest

with_scheme : Text → Text
with_scheme url = if starts_with (codes "http") url then url else codes "https://" ++ url

with_path : Text → Text → Option Text → Text
unfolding is_empty
with_path domain path none = if is_empty path then domain else domain ++ path
with_path domain path (some service_type) =
    if is_empty path then domain ++ (codes "/t/" ++ service_type) else domain ++ path

-- `Service.get_canonical_url`; a domain without a dot is one of the tests.
unfoldable pub get_canonical_url : Surroundings → Text → Option Text → Text
unfolding with_scheme has_dot with_path without_slashes
get_canonical_url s service_url service_type =
    let url : Text = with_scheme service_url in
    let domain : Text = before b':' (s.netloc url) in
    if has_dot domain then without_slashes (with_path domain (s.path url) service_type) else domain

-- `_get_domain`: outside of tests there must be one.
unfoldable pub get_domain : Surroundings → Text → Text → Result Text
unfolding is_empty
get_domain s registry_uid url =
    if is_empty (before b':' (s.netloc url))
    then if same registry_uid (codes "Z9-Z9") then ok (codes "testing") else err value_error
    else ok (before b':' (s.netloc url))

answered : Text → Result (Text × Service) → Result Service
answered challenge (err why) = err why
answered challenge (ok (response, info)) =
    if same response challenge then ok info else err permission_error

-- `Registry.challenge_service`: the service as it describes itself, if it could read the challenge.
unfoldable pub challenge_service : Surroundings → Service → Result Service
unfolding answered
challenge_service s service = answered s.random_passphrase (s.respond service)
