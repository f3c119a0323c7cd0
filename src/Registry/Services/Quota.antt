-- ===== src/Registry/Services/Quota.antt =====
-- How many services of a domain the registry holds, over any sequence of its calls.
mod Tests
use acquire.Base.{
  ℕ, suc, ◌+◌, ◌<◌, ◌≤◌, ◌≡◌, refl, sym, ap, subst, Bool, true, false, not, ◌||◌, List, [], ◌∷◌,
  ltb, if◌then◌else◌, Option, none, some, length, arith, inl, inr, Bool-cases,
}
use acquire.Base.Texts.{Text, same, same-true}
use acquire.Base.Result.{ok, missing_service_error}
use acquire.Base.Exec.{Exec, return_, lift, get_state, final-Yields, ◌>>=◌, ◌>>◌}
use acquire.Base.Exec.Runs.{lift-runs, either-runs}
use acquire.Registry.Uids.Generate.{Locks}
use acquire.Registry.Services.Counts.{
  length-add_name, add_name_known, length-remove_name, remove_name_known, at_here, at_other,
  moved_count,
}
use acquire.Registry.Services.Registering.{
  IsWithin, Stays, Stays-refl, Stays-trans, register_service-Stays,
}
use acquire.Registry.Urls.{
  Service, Surroundings, is_stage1, should_refresh_keys, get_domain, challenge_service,
}
use acquire.Registry.Services.{
  Store, listed, add_name, remove_name, at_domain, guard, new_uid, choose_uid, save, set_service,
  set_url, set_pending, move_to_active, delete_pending, set_active, check_quota, enrol,
  register_service, Sought, is_this, get_service_key, fetch, activate, refresh, found, get_service,
  look_up,
}

-- A service that answers a challenge is one that the registry has under its domain.
abbrev pub IsKnown : Surroundings → Text → Store → Type 0
IsKnown s registry_uid w =
    (service answer : Service) (domain : Text)
    → challenge_service s service ≡ ok answer
    → get_domain s registry_uid answer.service_url ≡ ok domain
    → (listed answer.uid (w.pending domain) || listed answer.uid (w.active domain)) ≡ true

move_to_active-Stays :
    (key domain : Text) (answer : Service) (w : Store)
    → (listed answer.uid (w.pending domain) || listed answer.uid (w.active domain)) ≡ true
    → Stays w (move_to_active key domain answer w).1
unfolding move_to_active
move_to_active-Stays key domain answer w known h = record {
  few_pending = λ d. elim (Bool-cases (same d domain)) [
    | inl e ↦ omega (
      arith,
      ap length (at_here d domain (remove_name answer.uid) w.pending e),
      length-remove_name answer.uid (w.pending d),
      h.few_pending d,
    )
    | inr e ↦
        omega (
          arith,
          ap length (at_other d domain (remove_name answer.uid) w.pending e),
          h.few_pending d,
        )
  ];
  few = λ d. elim (Bool-cases (same d domain)) [
    | inl e ↦ omega (
      arith,
      ap length (at_here d domain (remove_name answer.uid) w.pending e),
      ap length (at_here d domain (add_name answer.uid) w.active e),
      moved_count answer.uid (w.pending d) (w.active d) (
          subst (λ x. (listed answer.uid (w.pending x) || listed answer.uid (w.active x)) ≡ true)
            (sym (same-true d domain e)) known),
      h.few d,
    )
    | inr e ↦ omega (
      arith,
      ap length (at_other d domain (remove_name answer.uid) w.pending e),
      ap length (at_other d domain (add_name answer.uid) w.active e),
      h.few d,
    )
  ];
}

refresh-Stays :
    (s : Surroundings) (key : Text) (service : Service) (w : Store)
    → Stays w (refresh s key service w).1
unfolding refresh set_service
refresh-Stays s key service w =
    lift-runs Stays Stays-refl Stays-trans (s.refreshed service) _ w
      λ fresh _ h. record { few_pending = h.few_pending; few = h.few }

activate-Stays :
    (s : Surroundings) (registry_uid key : Text) (service : Service) (w : Store)
    → IsKnown s registry_uid w
    → Stays w (activate s registry_uid key service w).1
unfolding activate
activate-Stays s registry_uid key service w known =
    lift-runs Stays Stays-refl Stays-trans (challenge_service s service) _ w λ answer answered.
      lift-runs Stays Stays-refl Stays-trans {B = Service}
        (guard (not (is_stage1 answer)) missing_service_error) _ w
        λ _ _.
          lift-runs Stays Stays-refl Stays-trans (get_domain s registry_uid answer.service_url)
            (λ domain. move_to_active key domain answer) w
            λ domain has_domain.
              move_to_active-Stays key domain answer w
                (known service answer domain answered has_domain)

found-Stays :
    (s : Surroundings) (registry_uid : Text) (at_key : Option (Text × Service)) (w : Store)
    → IsKnown s registry_uid w
    → Stays w (found s registry_uid at_key w).1
unfolding found
found-Stays s registry_uid none w known = λ h. h
found-Stays s registry_uid (some (key, service)) w known =
    either-runs Stays Stays-refl Stays-trans (is_stage1 service) _ _ w
      (activate-Stays s registry_uid key service w known)
      (either-runs Stays Stays-refl Stays-trans (should_refresh_keys s.now service)
        (refresh s key service) (return_ service) w (refresh-Stays s key service w) (λ h. h))

get_service-Stays :
    (s : Surroundings) (registry_uid : Text) (this_service : Service) (sought : Sought) (w : Store)
    → IsKnown s registry_uid w
    → Stays w (get_service s registry_uid this_service sought w).1
unfolding get_service
get_service-Stays s registry_uid this_service sought w known =
    elim (Bool-cases (is_this s this_service sought)) [
      | inl e ↦ rw (e) (λ h. h)
      | inr e ↦ rw (e) (found-Stays s registry_uid _ w known)
    ]

-- A call of the registry, with its surroundings.
pub data Call : Type 0 where
  register : Surroundings → Locks → Bool → Service → Call
  get : Surroundings → Sought → Call

unfoldable pub make_call : Text → Service → Call → Store → Store
unfolding register_service get_service
make_call registry_uid this_service (register s locks force_new_uid service) w =
    (register_service s locks registry_uid force_new_uid service w).1
make_call registry_uid this_service (get s sought) w =
    (get_service s registry_uid this_service sought w).1

unfoldable pub make_calls : Text → Service → List Call → Store → Store
unfolding make_call
make_calls registry_uid this_service [] w = w
make_calls registry_uid this_service (call ∷ calls) w =
    make_calls registry_uid this_service calls (make_call registry_uid this_service call w)

abbrev IsHonest : Text → Call → Store → Type 0
IsHonest registry_uid (register s locks force_new_uid service) w = Unit
IsHonest registry_uid (get s sought) w = IsKnown s registry_uid w

-- Whenever `get_service` is called, a service that answers a challenge is one that is known.
abbrev pub AreHonest : Text → Service → List Call → Store → Type 0
AreHonest registry_uid this_service [] w = Unit
AreHonest registry_uid this_service (call ∷ calls) w =
    IsHonest registry_uid call w
    × AreHonest registry_uid this_service calls (make_call registry_uid this_service call w)

make_call-Stays :
    (registry_uid : Text) (this_service : Service) (call : Call) (w : Store)
    → IsHonest registry_uid call w
    → Stays w (make_call registry_uid this_service call w)
unfolding make_call
make_call-Stays registry_uid this_service (register s locks force_new_uid service) w honest =
    register_service-Stays s locks registry_uid force_new_uid service w
make_call-Stays registry_uid this_service (get s sought) w known =
    get_service-Stays s registry_uid this_service sought w known

-- Through any sequence of calls of `register_service` and `get_service`, whether they return or raise, the
-- registry holds at most 4 services of a domain that are pending, and at most 16 that are pending or
-- active. This is from a state with at most so many, and where each service that answers a challenge of
-- `get_service` gives a UID and a URL that the registry has under pending or active.
pub make_calls-IsWithin :
    (registry_uid : Text) (this_service : Service) (calls : List Call) (w : Store)
    → AreHonest registry_uid this_service calls w
    → IsWithin w
    → IsWithin (make_calls registry_uid this_service calls w)
unfolding make_calls
make_calls-IsWithin registry_uid this_service [] w honest h = h
make_calls-IsWithin registry_uid this_service (call ∷ calls) w (honest, rest) h =
    make_calls-IsWithin registry_uid this_service calls _ rest
      (make_call-Stays registry_uid this_service call w honest h)
