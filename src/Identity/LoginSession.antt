-- ===== src/Identity/LoginSession.antt =====
-- Acquire/Identity/_loginsession.py: a login session, its states, and the two places in the object store
-- where it is: its data under its state and UID, and its state under its UID. A session of `none` is null.
pub mod Stored
pub mod Revoked
mod Tests
use acquire.Base.{
  ℕ, Bool, true, false, not, Option, none, some, List, [], ◌∷◌, if◌then◌else◌, ◌==◌, ◌&&◌, find,
}
use acquire.Base.Result.{
  Error, Result, ok, err, attribute_error, permission_error, login_session_error,
}
use acquire.Base.Exec.{Exec, return_, raise, lift, ◌>>=◌, ◌>>◌, and_then}

pub data Status : Type 0 where
  pending approved denied suspicious logged_out : Status

-- Texts and keys are numbers, of which only the equality matters.
pub record LoginSession : Type 0 where
  pub uid : ℕ
  pub username : ℕ
  pub request_datetime : ℕ
  pub pubkey : Option ℕ
  pub pubcert : Option ℕ
  pub status : Option Status
  pub login_datetime : Option ℕ
  pub logout_datetime : Option ℕ
  pub ipaddr : Option ℕ
  pub hostname : Option ℕ
  pub login_message : Option ℕ
  pub scope : Option ℕ
  pub permissions : Option ℕ
  pub user_uid : Option ℕ
  pub device_uid : Option ℕ

-- The dictionary of `to_data`.
pub record SessionData : Type 0 where
  pub uid : ℕ
  pub username : ℕ
  pub request_datetime : ℕ
  pub public_certificate : ℕ
  pub status : Option Status
  pub public_key : Option ℕ
  pub login_datetime : Option ℕ
  pub logout_datetime : Option ℕ
  pub ipaddr : Option ℕ
  pub hostname : Option ℕ
  pub login_message : Option ℕ
  pub scope : Option ℕ
  pub permissions : Option ℕ
  pub user_uid : Option ℕ
  pub device_uid : Option ℕ

pub record World : Type 0 where
  pub session : Option LoginSession
  pub sessions : List (Status × ℕ × SessionData)
  pub statuses : List (ℕ × Status)

pub eq_status : Status → Status → Bool
eq_status pending pending = true
eq_status approved approved = true
eq_status denied denied = true
eq_status suspicious suspicious = true
eq_status logged_out logged_out = true
eq_status _ _ = false

pub has_status : Option Status → Status → Bool
has_status none new = false
has_status (some old) new = eq_status old new

pub find_session : Status → ℕ → List (Status × ℕ × SessionData) → Option SessionData
find_session s uid [] = none
find_session s uid ((t, k, d) ∷ ds) =
    if eq_status t s && k == uid then some d else find_session s uid ds

pub delete_session : Status → ℕ → List (Status × ℕ × SessionData) → List (Status × ℕ × SessionData)
delete_session s uid [] = []
delete_session s uid ((t, k, d) ∷ ds) =
    if eq_status t s && k == uid
    then delete_session s uid ds
    else (t, k, d) ∷ delete_session s uid ds

-- The object under the key of a session's present state; a session without a state is under no key.
pub delete_old :
    Option Status → ℕ → List (Status × ℕ × SessionData) → List (Status × ℕ × SessionData)
delete_old none uid ds = ds
delete_old (some s) uid ds = delete_session s uid ds

data_with : LoginSession → Option ℕ → Result SessionData
data_with s none = err attribute_error
data_with s (some cert) = ok (record {
  uid = s.uid;
  username = s.username;
  request_datetime = s.request_datetime;
  public_certificate = cert;
  status = s.status;
  public_key = s.pubkey;
  login_datetime = s.login_datetime;
  logout_datetime = s.logout_datetime;
  ipaddr = s.ipaddr;
  hostname = s.hostname;
  login_message = s.login_message;
  scope = s.scope;
  permissions = s.permissions;
  user_uid = s.user_uid;
  device_uid = s.device_uid;
})

-- `LoginSession.to_data`; a certificate of `None` has no `to_data`.
pub to_data : LoginSession → Result SessionData
to_data s = data_with s s.pubcert

-- `LoginSession.from_data`, which reads the time of the login into an attribute `_login_datatime` that nothing reads.
pub from_data : SessionData → LoginSession
from_data d = record {
  uid = d.uid;
  username = d.username;
  request_datetime = d.request_datetime;
  pubkey = d.public_key;
  pubcert = some d.public_certificate;
  status = d.status;
  login_datetime = none;
  logout_datetime = d.logout_datetime;
  ipaddr = d.ipaddr;
  hostname = d.hostname;
  login_message = d.login_message;
  scope = d.scope;
  permissions = d.permissions;
  user_uid = d.user_uid;
  device_uid = d.device_uid;
}

-- The writes under the key of the new state and under the UID.
write_session : LoginSession → Status → Exec World (Unit {0})
write_session s new = lift (to_data s) >>= λ d. λ w. (
  ok tt,
  record w { sessions = (new, s.uid, d) ∷ w.sessions; statuses = (s.uid, new) ∷ w.statuses },
)

change_status : LoginSession → Status → Exec World (Unit {0})
change_status s new w =
    let s' = record s { status = some new } in
    write_session s' new
      (record w { session = some s'; sessions = delete_old s.status s.uid w.sessions })

-- `LoginSession._set_status`
pub set_status : Status → Exec World (Unit {0})
set_status new w = elim w.session [
  | none ↦ (err permission_error, w)
  | some s ↦ if has_status s.status new then (ok tt, w) else change_status s new w
]

-- An attribute of the session that is assigned to.
set_session : LoginSession → Exec World (Unit {0})
set_session s w = (ok tt, record w { session = some s })

-- `LoginSession.set_suspicious`
pub set_suspicious : Exec World (Unit {0})
set_suspicious w = elim w.session [ none ↦ (ok tt, w) | some s ↦ set_status suspicious w ]

-- `LoginSession.set_approved`
pub set_approved : ℕ → Option ℕ → Option ℕ → Exec World (Unit {0})
set_approved now user_uid device_uid w = elim w.session [
  | none ↦ (err permission_error, w)
  | some s ↦
      if has_status s.status pending
      then (set_session
              (record s { login_datetime = some now; user_uid = user_uid; device_uid = device_uid })
            >> set_status approved)
          w
      else (err login_session_error, w)
]

-- `LoginSession.set_denied`
pub set_denied : Exec World (Unit {0})
set_denied w = elim w.session [
  | none ↦ (err permission_error, w)
  | some s ↦ (set_session (record s { pubkey = none; pubcert = none }) >> set_status denied) w
]

-- `LoginSession.set_logged_out`, with the outcome of the checks of its authorisation and of its signature.
pub set_logged_out : ℕ → Result (Unit {0}) → Result (Unit {0}) → Exec World (Unit {0})
set_logged_out now authorised signed w = elim w.session [
  | none ↦ (err permission_error, w)
  | some s ↦
      (lift authorised
          >> lift signed
          >> set_session (record s { logout_datetime = some now; pubkey = none })
          >> set_status logged_out)
        w
]

-- `LoginSession.public_key`
pub public_key : Option LoginSession → Result (Option ℕ)
public_key none = err login_session_error
public_key (some s) = if has_status s.status approved then ok s.pubkey else err login_session_error

-- `LoginSession.get_status`
pub get_status : World → ℕ → Result Status
get_status w uid = elim (find uid w.statuses) [ none ↦ err login_session_error | some s ↦ ok s ]

load_from : World → ℕ → Result Status → Result LoginSession
load_from w uid (err why) = err why
load_from w uid (ok s) = elim (find_session s uid w.sessions) [
  | none ↦ err login_session_error
  | some d ↦ ok (from_data d)
]

-- `LoginSession.load` by a UID
pub load : World → Option Status → ℕ → Result LoginSession
load w none uid = load_from w uid (get_status w uid)
load w (some s) uid = load_from w uid (ok s)

-- The constructor, where a username is `none` also if it is empty. Without a public key the session is null.
pub new_session : LoginSession → Option ℕ → Exec World (Unit {0})
new_session request username w = elim request.pubkey [
  | none ↦ (ok tt, record w { session = none })
  | some _ ↦ elim username [
    | none ↦ (err permission_error, record w { session = none })
    | some name ↦
        (set_session (record request {
          username = name;
          status = none;
          login_datetime = none;
          logout_datetime = none;
        })
            >> set_status pending)
          w
  ]
]
