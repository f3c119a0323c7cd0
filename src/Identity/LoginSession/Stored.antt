-- ===== src/Identity/LoginSession/Stored.antt =====
-- Acquire/Identity/_loginsession.py: what `_set_status` leaves in the object store, and what `load` finds there.
use acquire.Base.{
  ℕ, true, false, none, some, List, [], ◌∷◌, ◌≡◌, refl, ap, sym, ◌∙◌, inl, inr, Bool-cases, subst,
  ◌==◌, ◌&&◌, find,
}
use acquire.Base.Find.{eqb_true, find-here}
use acquire.Base.Result.{ok, err, attribute_error, login_session_error}
use acquire.Identity.LoginSession.{
  Status, pending, approved, denied, suspicious, logged_out, LoginSession, SessionData, World,
  eq_status, has_status, find_session, delete_session, delete_old, data_with, to_data, from_data,
  write_session, change_status, set_status, set_session, set_denied, get_status, load_from, load,
}
use acquire.Identity.LoginSession.Revoked.{eq_status_sound}

eq_status_refl : (s : Status) → eq_status s s ≡ true
unfolding eq_status
eq_status_refl pending = refl
eq_status_refl approved = refl
eq_status_refl denied = refl
eq_status_refl suspicious = refl
eq_status_refl logged_out = refl

eq_status_sym : (s t : Status) → eq_status s t ≡ false → eq_status t s ≡ false
eq_status_sym s t h = elim (Bool-cases (eq_status t s)) [
  | inl e ↦
      let same : eq_status s t ≡ true =
        subst (λ x. eq_status x t ≡ true) (eq_status_sound t s e) (eq_status_refl t) in
      cc
  | inr e ↦ e
]

delete_session-find :
    (s : Status) (uid : ℕ) (ds : List (Status × ℕ × SessionData))
    → find_session s uid (delete_session s uid ds) ≡ none
unfolding find_session delete_session
delete_session-find s uid [] = refl
delete_session-find s uid ((t, k, d) ∷ ds) = elim (Bool-cases (eq_status t s && k == uid)) [
  | inl e ↦ rw (e) (delete_session-find s uid ds)
  | inr e ↦ rw (e, e) (delete_session-find s uid ds)
]

-- What is read back of a session: the time of its login is lost.
abbrev pub reloaded : LoginSession → LoginSession
reloaded s = record s { login_datetime = none }

find_session-here :
    (s : Status) (uid : ℕ) (d : SessionData) (ds : List (Status × ℕ × SessionData))
    → find_session s uid ((s, uid, d) ∷ ds) ≡ some d
unfolding find_session
find_session-here s uid d ds = rw (eq_status_refl s, eqb_true uid uid refl) refl

find_session-there :
    (s t : Status) (uid k : ℕ) (d : SessionData) (ds : List (Status × ℕ × SessionData))
    → eq_status t s ≡ false
    → find_session s uid ((t, k, d) ∷ ds) ≡ find_session s uid ds
unfolding find_session
find_session-there s t uid k d ds h = rw (h) refl

get_status-found :
    (w : World) (uid : ℕ) (s : Status) → find uid w.statuses ≡ some s → get_status w uid ≡ ok s
unfolding get_status
get_status-found w uid s h = rw (get_status, h) refl

load_from-found :
    (w : World) (uid : ℕ) (s : Status) (d : SessionData)
    → find_session s uid w.sessions ≡ some d
    → load_from w uid (ok s) ≡ ok (from_data d)
unfolding load_from
load_from-found w uid s d h = rw (load_from, h) refl

load_from-missing :
    (w : World) (uid : ℕ) (s : Status)
    → find_session s uid w.sessions ≡ none
    → load_from w uid (ok s) ≡ err login_session_error
unfolding load_from
load_from-missing w uid s h = rw (load_from, h) refl

module _ (s : LoginSession) (cert : ℕ) (old new : Status) (w : World) where
  stored : SessionData
  stored = record {
    uid = s.uid;
    username = s.username;
    request_datetime = s.request_datetime;
    public_certificate = cert;
    status = some new;
    public_key = s.pubkey;
    login_datetime = s.login_datetime;
    logout_datetime = s.logout_datetime;
    ipaddr = s.ipaddr;
    hostname = s.hostname;
    login_message = s.login_message;
    scope = s.scope;
    permissions = s.permissions;
    user_uid = s.user_uid;
    device_uid = s.device_uid;
  }

  after : World
  after = record {
    session = some (record s { status = some new });
    sessions = (new, s.uid, stored) ∷ delete_session old s.uid w.sessions;
    statuses = (s.uid, new) ∷ w.statuses;
  }

  set_status-after :
      w.session ≡ some s
      → s.pubcert ≡ some cert
      → s.status ≡ some old
      → eq_status old new ≡ false
      → set_status new w ≡ (ok tt, after)
  unfolding set_status change_status write_session to_data data_with has_status delete_old after
      stored
  set_status-after is_s has_cert was other = rw (is_s, was, other, has_cert, data_with) refl

  get_status-after : get_status after s.uid ≡ ok new
  unfolding after
  get_status-after =
      get_status-found after s.uid new
        (find-here s.uid s.uid new w.statuses (eqb_true s.uid s.uid refl))

  load_new-after :
      s.pubcert ≡ some cert
      → load_from after s.uid (ok new) ≡ ok (reloaded (record s { status = some new }))
  unfolding after from_data stored
  load_new-after has_cert =
      load_from-found after s.uid new stored
        (find_session-here new s.uid stored (delete_session old s.uid w.sessions))
      ∙ ap (λ c. ok (reloaded (record s { status = some new; pubcert = c }))) (sym has_cert)

  load_old-after :
      eq_status old new ≡ false → load_from after s.uid (ok old) ≡ err login_session_error
  unfolding after
  load_old-after other = load_from-missing after s.uid old (
      find_session-there old new s.uid s.uid stored (delete_session old s.uid w.sessions)
        (eq_status_sym old new other)
      ∙ delete_session-find old s.uid w.sessions)

-- Setting a session that has its certificate into another state raises nothing. Then `load` finds the session by its
-- UID, in the new state and with all it held but the time of its login, and no session with that UID in its old state.
pub load-set_status :
    (s : LoginSession) (cert : ℕ) (old new : Status) (w : World)
    → w.session ≡ some s
    → s.pubcert ≡ some cert
    → s.status ≡ some old
    → eq_status old new ≡ false
    → ((set_status new w).0 ≡ ok tt)
      × (load (set_status new w).1 none s.uid ≡ ok (reloaded (record s { status = some new })))
      × (load (set_status new w).1 (some old) s.uid ≡ err login_session_error)
unfolding load
load-set_status s cert old new w is_s has_cert was other =
    rw (set_status-after s cert old new w is_s has_cert was other) (
      refl,
      ap (load_from (after s cert old new w) s.uid) (get_status-after s cert old new w)
          ∙ load_new-after s cert old new w has_cert,
      load_old-after s cert old new w other,
    )

-- Denying a session raises an attribute error once its data is deleted: its status under the UID is what it was, and
-- `load` finds no session there.
pub set_denied-loses :
    (s : LoginSession) (old : Status) (w : World)
    → w.session ≡ some s
    → s.status ≡ some old
    → eq_status old denied ≡ false
    → find s.uid w.statuses ≡ some old
    → ((set_denied w).0 ≡ err attribute_error)
      × (get_status (set_denied w).1 s.uid ≡ ok old)
      × (load (set_denied w).1 none s.uid ≡ err login_session_error)
unfolding set_denied set_session set_status change_status write_session to_data data_with has_status
    delete_old load load_from get_status find_session delete_session
set_denied-loses s old w is_s was other known =
    rw (is_s, was, other, known, delete_session-find old s.uid w.sessions) (refl, refl, refl)
