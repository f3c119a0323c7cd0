-- ===== src/Registry/Services/Unique.antt =====
-- Every URL of the registry has a UID of its own, over any sequence of its calls.
mod Tests
use acquire.Base.{
  ℕ, suc, ◌≡◌, ◌≢◌, refl, sym, ◌∙◌, ap, subst, Bool, true, false, not, Option, none, some, List, [],
  ◌∷◌, if◌then◌else◌, inl, inr, Bool-cases,
}
use acquire.Base.Texts.{Text}
use acquire.Base.Result.{Result, ok, err, Error, permission_error, missing_service_error}
use acquire.Base.Exec.{Exec, lift, return_, Yields, ◌>>=◌}
use acquire.Base.Exec.Runs.{lift-runs, seq-runs}
use acquire.Registry.Uids.Generate.{Locks, generate}
use acquire.Registry.Uids.Order.{After, IsStored}
use acquire.Registry.Uids.Generate.Distinct.{Fresh, Gave, kept, lost, gave, generate-Gave}
use acquire.Registry.Urls.{
  Service, Surroundings, is_stage1, should_refresh_keys, get_domain, challenge_service,
}
use acquire.Registry.Services.Apart.{
  Issued, Fits, IsApart, All-Issued, Fresh-Issued, Fresh-Fits, look_up-All, look_up-Fits,
}
use acquire.Registry.Services.{
  Store, look_up, guard, new_uid, choose_uid, save, check_quota, enrol, register_service, Sought,
  is_this, move_to_active, activate, refresh, found, get_service, set_service,
}
use acquire.Registry.Services.Found.{Alike, get_service-Alike}
use acquire.Registry.Services.Quota.{Call, register, get, make_call, make_calls}

module _ (registry_uid : Text) where
  abbrev Keeps : Store → Store → Type 0
  Keeps w t = IsApart registry_uid w → IsApart registry_uid t

  Keeps-refl : (w : Store) → Keeps w w
  Keeps-refl w h = h

  Keeps-trans : (w t u : Store) → Keeps w t → Keeps t u → Keeps w u
  Keeps-trans w t u h k x = k (h x)

  -- A UID that the URL may have.
  record Free (url uid : Text) (w : Store) : Type 0 where
    given : Issued registry_uid w.last_uid uid
    fits : Fits url uid w.urls

  abbrev Chosen : Text → Option Text → Store → Type 0
  Chosen url none w = Unit
  Chosen url (some uid) w = Free url uid w

  later_apart :
      (w : Store) (uid : Text) (last : List ℕ)
      → Fresh registry_uid w.last_uid uid last
      → Keeps w (record w { last_uid = some last })
  later_apart w uid last f h = record {
    valid = f.valid;
    issued = All-Issued registry_uid w.last_uid last w.urls f.later h.issued;
    apart = h.apart;
  }

  given_apart :
      (w : Store) (outcome : Result (Option Text) × Option (List ℕ))
      → Gave registry_uid w.last_uid outcome
      → Keeps w (record w { last_uid = outcome.1 })
  given_apart w _ (kept why) h = record { valid = h.valid; issued = h.issued; apart = h.apart }
  given_apart w _ (lost why uid last f) h = later_apart w uid last f h
  given_apart w _ (gave uid last f) h = later_apart w uid last f h

  given_free :
      (url : Text) (w : Store) (outcome : Result (Option Text) × Option (List ℕ))
      → Gave registry_uid w.last_uid outcome
      → IsApart registry_uid w
      → Yields {S = Store} (outcome.0, record w { last_uid = outcome.1 }) (Chosen url)
  given_free url w _ (kept why) h = tt
  given_free url w _ (lost why uid last f) h = tt
  given_free url w _ (gave uid last f) h = record {
    given = Fresh-Issued registry_uid w.last_uid uid last f;
    fits = Fresh-Fits registry_uid w.last_uid url uid last w.urls f h.issued;
  }

  choose_uid-Keeps :
      (locks : Locks) (force_new_uid : Bool) (known : Option Text) (w : Store)
      → Keeps w (choose_uid locks registry_uid force_new_uid known w).1
  unfolding choose_uid new_uid
  choose_uid-Keeps locks force_new_uid none w h =
      given_apart w _ (generate-Gave registry_uid w.last_uid h.valid locks 0) h
  choose_uid-Keeps locks true (some uid) w h =
      given_apart w _ (generate-Gave registry_uid w.last_uid h.valid locks 0) h
  choose_uid-Keeps locks false (some uid) w h = h

  choose_uid-Chosen :
      (locks : Locks) (force_new_uid : Bool) (known : Option Text) (url : Text) (w : Store)
      → Chosen url known w
      → IsApart registry_uid w
      → Yields (choose_uid locks registry_uid force_new_uid known w) (Chosen url)
  unfolding choose_uid new_uid
  choose_uid-Chosen locks force_new_uid none url w c h =
      given_free url w _ (generate-Gave registry_uid w.last_uid h.valid locks 0) h
  choose_uid-Chosen locks true (some uid) url w c h =
      given_free url w _ (generate-Gave registry_uid w.last_uid h.valid locks 0) h
  choose_uid-Chosen locks false (some uid) url w c h = c

  known_by :
      (url : Text) (known : Option Text) (w : Store)
      → look_up url w.urls ≡ known
      → IsApart registry_uid w
      → Chosen url known w
  known_by url none w e h = tt
  known_by url (some uid) w e h = record {
    given = look_up-All (λ e. Issued registry_uid w.last_uid e.1) url w.urls e h.issued;
    fits = look_up-Fits url w.urls e h.apart;
  }

  save-Keeps :
      (domain : Text) (service : Service) (uid : Option Text) (w : Store)
      → Chosen service.canonical_url uid w
      → Keeps w (save domain service uid w).1
  unfolding save
  save-Keeps domain service none w c h = h
  save-Keeps domain service (some uid) w c h = record {
    valid = h.valid;
    issued = (c.given, h.issued);
    apart = (c.fits, h.apart);
  }

  enrol-Keeps :
      (s : Surroundings) (locks : Locks) (force_new_uid : Bool) (service : Service) (domain : Text)
      (w : Store)
      → IsApart registry_uid w
      → Keeps w (enrol s locks registry_uid force_new_uid service domain w).1
  unfolding enrol
  enrol-Keeps s locks force_new_uid service domain w h =
      lift-runs Keeps Keeps-refl Keeps-trans (challenge_service s service) _ w λ answer _.
        lift-runs Keeps Keeps-refl Keeps-trans (guard (is_stage1 answer) _) _ w λ _ _.
          let known : Option Text = look_up answer.canonical_url w.urls in
          seq-runs Keeps Keeps-refl Keeps-trans (choose_uid locks registry_uid force_new_uid known)
            (save domain answer) w (Chosen answer.canonical_url)
            (choose_uid-Chosen locks force_new_uid known answer.canonical_url w
              (known_by answer.canonical_url known w refl h) h)
            (choose_uid-Keeps locks force_new_uid known w)
            (λ uid t c. save-Keeps domain answer uid t c)

  register_service-Keeps :
      (s : Surroundings) (locks : Locks) (force_new_uid : Bool) (service : Service) (w : Store)
      → Keeps w (register_service s locks registry_uid force_new_uid service w).1
  unfolding register_service
  register_service-Keeps s locks force_new_uid service w h =
      lift-runs Keeps Keeps-refl Keeps-trans (guard (is_stage1 service) _) _ w
        (λ _ _.
          lift-runs Keeps Keeps-refl Keeps-trans (get_domain s registry_uid service.service_url) _ w
            λ domain _.
              lift-runs Keeps Keeps-refl Keeps-trans (check_quota domain w) _ w
                λ _ _. enrol-Keeps s locks force_new_uid service domain w h)
        h

Alike-Keeps : (registry_uid : Text) (w t : Store) → Alike w t → Keeps registry_uid w t
Alike-Keeps registry_uid w t e h = record {
  valid = rw (e.last_uid) h.valid;
  issued = rw (e.urls, e.last_uid) h.issued;
  apart = rw (e.urls) h.apart;
}

make_call-Keeps :
    (registry_uid : Text) (this_service : Service) (call : Call) (w : Store)
    → Keeps registry_uid w (make_call registry_uid this_service call w)
unfolding make_call
make_call-Keeps registry_uid this_service (register s locks force_new_uid service) w =
    register_service-Keeps registry_uid s locks force_new_uid service w
make_call-Keeps registry_uid this_service (get s sought) w =
    Alike-Keeps registry_uid w _ (get_service-Alike s registry_uid this_service sought w)

make_calls-Keeps :
    (registry_uid : Text) (this_service : Service) (calls : List Call) (w : Store)
    → Keeps registry_uid w (make_calls registry_uid this_service calls w)
unfolding make_calls
make_calls-Keeps registry_uid this_service [] w h = h
make_calls-Keeps registry_uid this_service (call ∷ calls) w h =
    make_calls-Keeps registry_uid this_service calls _
      (make_call-Keeps registry_uid this_service call w h)

-- Through any sequence of calls of `register_service` and `get_service`, whether they return or raise, two
-- URLs of the registry that differ do not have the same UID. This is from a state where that is so and
-- where every UID of a URL was printed from values up to the last ones that are stored.
pub make_calls_apart :
    (registry_uid : Text) (this_service : Service) (calls : List Call) (w : Store)
    → IsApart registry_uid w
    → (url other uid : Text) → url ≢ other
    → look_up url (make_calls registry_uid this_service calls w).urls ≡ some uid
    → look_up other (make_calls registry_uid this_service calls w).urls ≢ some uid
make_calls_apart registry_uid this_service calls w h url other uid differ found_url found_other =
    let k : IsApart registry_uid (make_calls registry_uid this_service calls w) =
      make_calls-Keeps registry_uid this_service calls w h in
    differ (
      look_up-All (λ (e : Text × Text). uid ≡ e.1 → url ≡ e.0) other _ found_other
        (look_up-Fits url _ found_url k.apart) refl)
