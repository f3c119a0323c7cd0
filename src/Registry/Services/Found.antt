-- ===== src/Registry/Services/Found.antt =====
-- `get_service` leaves the UIDs of the URLs alone.
use acquire.Base.{◌≡◌, refl, ◌∙◌, not, Option, none, some, inl, inr, Bool-cases}
use acquire.Base.Texts.{Text}
use acquire.Base.Result.{missing_service_error}
use acquire.Base.Exec.{return_}
use acquire.Base.Exec.Runs.{lift-runs, either-runs}
use acquire.Registry.Urls.{
  Service, Surroundings, is_stage1, should_refresh_keys, get_domain, challenge_service,
}
use acquire.Registry.Services.{
  Store, guard, Sought, is_this, move_to_active, activate, refresh, found, get_service, set_service,
}

pub record Alike (w t : Store) : Type 0 where
  pub urls : t.urls ≡ w.urls
  pub last_uid : t.last_uid ≡ w.last_uid

Alike-refl : (w : Store) → Alike w w
Alike-refl w = record { urls = refl; last_uid = refl }

Alike-trans : (w t u : Store) → Alike w t → Alike t u → Alike w u
Alike-trans w t u h k = record { urls = k.urls ∙ h.urls; last_uid = k.last_uid ∙ h.last_uid }

refresh-Alike :
    (s : Surroundings) (key : Text) (service : Service) (w : Store)
    → Alike w (refresh s key service w).1
unfolding refresh set_service
refresh-Alike s key service w =
    lift-runs Alike Alike-refl Alike-trans (s.refreshed service) _ w
      λ fresh _. record { urls = refl; last_uid = refl }

move_to_active-Alike :
    (key domain : Text) (answer : Service) (w : Store)
    → Alike w (move_to_active key domain answer w).1
unfolding move_to_active
move_to_active-Alike key domain answer w = record { urls = refl; last_uid = refl }

activate-Alike :
    (s : Surroundings) (registry_uid key : Text) (service : Service) (w : Store)
    → Alike w (activate s registry_uid key service w).1
unfolding activate
activate-Alike s registry_uid key service w =
    lift-runs Alike Alike-refl Alike-trans (challenge_service s service) _ w λ answer _.
      lift-runs Alike Alike-refl Alike-trans {B = Service}
        (guard (not (is_stage1 answer)) missing_service_error) _ w
        λ _ _.
          lift-runs Alike Alike-refl Alike-trans (get_domain s registry_uid answer.service_url)
            (λ domain. move_to_active key domain answer) w
            λ domain _. move_to_active-Alike key domain answer w

found-Alike :
    (s : Surroundings) (registry_uid : Text) (at_key : Option (Text × Service)) (w : Store)
    → Alike w (found s registry_uid at_key w).1
unfolding found
found-Alike s registry_uid none w = Alike-refl w
found-Alike s registry_uid (some (key, service)) w =
    either-runs Alike Alike-refl Alike-trans (is_stage1 service) _ _ w
      (activate-Alike s registry_uid key service w)
      (either-runs Alike Alike-refl Alike-trans (should_refresh_keys s.now service)
        (refresh s key service) (return_ service) w (refresh-Alike s key service w) (Alike-refl w))

pub get_service-Alike :
    (s : Surroundings) (registry_uid : Text) (this_service : Service) (sought : Sought) (w : Store)
    → Alike w (get_service s registry_uid this_service sought w).1
unfolding get_service
get_service-Alike s registry_uid this_service sought w =
    elim (Bool-cases (is_this s this_service sought)) [
      | inl e ↦ rw (e) (Alike-refl w)
      | inr e ↦ rw (e) (found-Alike s registry_uid _ w)
    ]
