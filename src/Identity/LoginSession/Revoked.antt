-- ===== src/Identity/LoginSession/Revoked.antt =====
-- Acquire/Identity/_loginsession.py: a session that is denied, suspicious or logged out stays closed.
use acquire.Base.{
  ℕ, true, false, Option, none, some, List, [], ◌∷◌, ◌≡◌, ◌⊎◌, refl, ap, sym, inl, inr, Bool-cases,
  Option-cases, subst,
}
use acquire.Base.Result.{Error, Result, ok, err, login_session_error}
use acquire.Base.Exec.{Exec}
use acquire.Identity.LoginSession.{
  Status, pending, approved, denied, suspicious, logged_out, LoginSession, World, eq_status,
  has_status, data_with, to_data, write_session, change_status, set_status, set_session,
  set_suspicious, set_approved, set_denied, set_logged_out, public_key,
}

-- What may be asked of a session, with what each takes from outside.
pub data Operation : Type 0 where
  suspect deny : Operation
  approve : ℕ → Option ℕ → Option ℕ → Operation
  log_out : ℕ → Result (Unit {0}) → Result (Unit {0}) → Operation

pub operate : Operation → Exec World (Unit {0})
operate suspect = set_suspicious
operate deny = set_denied
operate (approve now user_uid device_uid) = set_approved now user_uid device_uid
operate (log_out now authorised signed) = set_logged_out now authorised signed

-- The world after operations of which each may have raised.
pub run : List Operation → World → World
run [] w = w
run (o ∷ os) w = run os (operate o w).1

-- The session is neither waiting for approval nor approved.
abbrev pub IsRevoked : World → Type 0
IsRevoked w =
    (s : LoginSession) × (w.session ≡ some s)
    × (has_status s.status pending ≡ false)
    × (has_status s.status approved ≡ false)

change_status-session :
    (s : LoginSession) (new : Status) (w : World)
    → (change_status s new w).1.session ≡ some (record s { status = some new })
unfolding change_status write_session to_data data_with
change_status-session s new w = elim (Option-cases s.pubcert) [
  | inl e ↦ rw (e) refl
  | inr (cert, e) ↦ rw (e) refl
]

pub eq_status_sound : (s t : Status) → eq_status s t ≡ true → s ≡ t
unfolding eq_status
eq_status_sound pending pending h = refl
eq_status_sound approved approved h = refl
eq_status_sound denied denied h = refl
eq_status_sound suspicious suspicious h = refl
eq_status_sound logged_out logged_out h = refl
eq_status_sound _ _ h = cc

has_status_sound : (o : Option Status) (t : Status) → has_status o t ≡ true → o ≡ some t
unfolding has_status
has_status_sound none t h = cc
has_status_sound (some s) t h = ap (λ (x : Status). some x) (eq_status_sound s t h)

abbrev IsClosing : Status → Type 0
IsClosing new = (has_status (some new) pending ≡ false) × (has_status (some new) approved ≡ false)

-- Setting a state that closes the session closes it, whether the writes succeed or not.
set_status-IsRevoked :
    (new : Status) (s : LoginSession) (w : World)
    → IsClosing new
    → w.session ≡ some s
    → IsRevoked (set_status new w).1
unfolding set_status
set_status-IsRevoked new s w closing is_s = elim (Bool-cases (has_status s.status new)) [
  | inl e ↦
      let now = has_status_sound s.status new e in
      rw (is_s, e)
        (
          s,
          refl,
          subst (λ o. has_status o pending ≡ false) (sym now) closing.0,
          subst (λ o. has_status o approved ≡ false) (sym now) closing.1,
        )
  | inr e ↦
      rw (is_s, e)
        (
          record s { status = some new },
          change_status-session s new (record w { session = some s }),
          closing.0,
          closing.1,
        )
]

suspicious-IsClosing : IsClosing suspicious
unfolding has_status eq_status
suspicious-IsClosing = (refl, refl)

denied-IsClosing : IsClosing denied
unfolding has_status eq_status
denied-IsClosing = (refl, refl)

logged_out-IsClosing : IsClosing logged_out
unfolding has_status eq_status
logged_out-IsClosing = (refl, refl)

module _ (s : LoginSession) (w : World) (is_s : w.session ≡ some s) where
  set_suspicious-IsRevoked : IsRevoked (set_suspicious w).1
  unfolding set_suspicious
  set_suspicious-IsRevoked =
      rw (is_s) (
        set_status-IsRevoked suspicious s (record w { session = some s }) suspicious-IsClosing refl)

  set_denied-IsRevoked : IsRevoked (set_denied w).1
  unfolding set_denied set_session
  set_denied-IsRevoked =
      let s' = record s { pubkey = none; pubcert = none } in
      rw (is_s)
        (set_status-IsRevoked denied s' (record w { session = some s' }) denied-IsClosing refl)

  -- Where the checks of a logout succeed, the session is closed.
  logged_out-IsRevoked : (now : ℕ) → IsRevoked (set_logged_out now (ok tt) (ok tt) w).1
  unfolding set_logged_out set_session
  logged_out-IsRevoked now =
      let s' = record s { logout_datetime = some now; pubkey = none } in
      rw (is_s) (
        set_status-IsRevoked logged_out s' (record w { session = some s' }) logged_out-IsClosing
          refl)

  set_logged_out-unchanged :
      (now : ℕ) (authorised signed : Result (Unit {0})) (why : Error)
      → (authorised ≡ err why) ⊎ (signed ≡ err why)
      → (set_logged_out now authorised signed w).1 ≡ w
  unfolding set_logged_out
  set_logged_out-unchanged now (err e) signed why h = rw (is_s) refl
  set_logged_out-unchanged now (ok _) (err e) why h = rw (is_s) refl
  set_logged_out-unchanged now (ok _) (ok _) why (inl h) = cc
  set_logged_out-unchanged now (ok _) (ok _) why (inr h) = cc

  set_logged_out-IsRevoked :
      (now : ℕ) (authorised signed : Result (Unit {0}))
      → IsRevoked w
      → IsRevoked (set_logged_out now authorised signed w).1
  set_logged_out-IsRevoked now (ok _) (ok _) h = logged_out-IsRevoked now
  set_logged_out-IsRevoked now (err e) signed h =
      subst IsRevoked (sym (set_logged_out-unchanged now (err e) signed e (inl refl))) h
  set_logged_out-IsRevoked now (ok _) (err e) h =
      subst IsRevoked (sym (set_logged_out-unchanged now (ok tt) (err e) e (inr refl))) h

set_approved-fails :
    (now : ℕ) (user_uid device_uid : Option ℕ) (w : World)
    → IsRevoked w
    → set_approved now user_uid device_uid w ≡ (err login_session_error, w)
unfolding set_approved
set_approved-fails now user_uid device_uid w (s, is_s, not_pending, _) = rw (is_s, not_pending) refl

operate-IsRevoked : (o : Operation) (w : World) → IsRevoked w → IsRevoked (operate o w).1
unfolding operate
operate-IsRevoked suspect w h = set_suspicious-IsRevoked h.0 w h.1
operate-IsRevoked deny w h = set_denied-IsRevoked h.0 w h.1
operate-IsRevoked (approve now user_uid device_uid) w h =
    subst (λ o. IsRevoked o.1) (sym (set_approved-fails now user_uid device_uid w h)) h
operate-IsRevoked (log_out now authorised signed) w h =
    set_logged_out-IsRevoked h.0 w h.1 now authorised signed h

run-IsRevoked : (os : List Operation) (w : World) → IsRevoked w → IsRevoked (run os w)
unfolding run
run-IsRevoked [] w h = h
run-IsRevoked (o ∷ os) w h = run-IsRevoked os (operate o w).1 (operate-IsRevoked o w h)

public_key-fails : (w : World) → IsRevoked w → public_key w.session ≡ err login_session_error
unfolding public_key
public_key-fails w (s, is_s, _, not_approved) = rw (is_s, not_approved) refl

-- After a logout whose checks succeed, or a denial or a suspicion, a session gives no public key any more and is not
-- approved again, whatever operations follow and whether they return or raise.
pub closed-stays_closed :
    (first : Operation) (os : List Operation) (s : LoginSession) (w : World) (now : ℕ)
    (user_uid device_uid : Option ℕ)
    → (first ≡ deny) ⊎ ((first ≡ suspect) ⊎ ((time : ℕ) × (first ≡ log_out time (ok tt) (ok tt))))
    → w.session ≡ some s
    → (public_key (run (first ∷ os) w).session ≡ err login_session_error)
      × (set_approved now user_uid device_uid (run (first ∷ os) w)
          ≡ (err login_session_error, run (first ∷ os) w))
unfolding run operate
closed-stays_closed first os s w now user_uid device_uid which is_s =
    let closed : IsRevoked (operate first w).1 = elim which [
      | inl e ↦ rw (e) (set_denied-IsRevoked s w is_s)
      | inr (inl e) ↦ rw (e) (set_suspicious-IsRevoked s w is_s)
      | inr (inr (time, e)) ↦ rw (e) (logged_out-IsRevoked s w is_s time)
    ] in
    let after = run-IsRevoked os (operate first w).1 closed in
    (
      public_key-fails (run os (operate first w).1) after,
      set_approved-fails now user_uid device_uid (run os (operate first w).1) after,
    )
