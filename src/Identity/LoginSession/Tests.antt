-- ===== src/Identity/LoginSession/Tests.antt =====
-- Uses of the theorems on login sessions: one that waits for approval.
use acquire.Base.{none, some, [], ◌∷◌, ◌≡◌, refl, inr}
use acquire.Base.Result.{ok, err, attribute_error, login_session_error}
use acquire.Identity.LoginSession.{
  pending, approved, LoginSession, SessionData, World, eq_status, set_status, set_denied,
  set_approved, public_key, get_status, load,
}
use acquire.Identity.LoginSession.Stored.{load-set_status, set_denied-loses, reloaded}
use acquire.Identity.LoginSession.Revoked.{suspect, approve, log_out, run, closed-stays_closed}

abbrev waiting : LoginSession
waiting = record {
  uid = 5;
  username = 6;
  request_datetime = 1000;
  pubkey = some 7;
  pubcert = some 8;
  status = some pending;
  login_datetime = none;
  logout_datetime = none;
  ipaddr = some 9;
  hostname = none;
  login_message = none;
  scope = none;
  permissions = none;
  user_uid = none;
  device_uid = none;
}

abbrev waiting_data : SessionData
waiting_data = record {
  uid = 5;
  username = 6;
  request_datetime = 1000;
  public_certificate = 8;
  status = some pending;
  public_key = some 7;
  login_datetime = none;
  logout_datetime = none;
  ipaddr = some 9;
  hostname = none;
  login_message = none;
  scope = none;
  permissions = none;
  user_uid = none;
  device_uid = none;
}

abbrev at_start : World
at_start = record {
  session = some waiting;
  sessions = (pending, 5, waiting_data) ∷ [];
  statuses = (5, pending) ∷ [];
}

load-set_status_example :
    ((set_status approved at_start).0 ≡ ok tt)
    × (load (set_status approved at_start).1 none 5
        ≡ ok (reloaded (record waiting { status = some approved })))
    × (load (set_status approved at_start).1 (some pending) 5 ≡ err login_session_error)
unfolding eq_status
load-set_status_example = load-set_status waiting 8 pending approved at_start refl refl refl refl

set_denied-loses_example :
    ((set_denied at_start).0 ≡ err attribute_error)
    × (get_status (set_denied at_start).1 5 ≡ ok pending)
    × (load (set_denied at_start).1 none 5 ≡ err login_session_error)
unfolding eq_status
set_denied-loses_example = set_denied-loses waiting pending at_start refl refl refl refl

closed-stays_closed_example :
    (public_key
        (run
          (log_out 2000 (ok tt) (ok tt) ∷ approve 3000 none none ∷ suspect ∷ [])
          at_start).session
      ≡ err login_session_error)
    × (set_approved 4000
          (some 1)
          none
          (run (log_out 2000 (ok tt) (ok tt) ∷ approve 3000 none none ∷ suspect ∷ []) at_start)
        ≡ (
          err login_session_error,
          run (log_out 2000 (ok tt) (ok tt) ∷ approve 3000 none none ∷ suspect ∷ []) at_start,
        ))
closed-stays_closed_example =
    closed-stays_closed (log_out 2000 (ok tt) (ok tt)) (approve 3000 none none ∷ suspect ∷ [])
      waiting at_start 4000 (some 1) none (inr (inr (2000, refl))) refl
