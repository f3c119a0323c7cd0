-- ===== src/Registry/Services/Registering.antt =====
-- `register_service` keeps the quotas of every domain.
use acquire.Base.{
  ◌+◌, ◌<◌, ◌≤◌, ◌≡◌, refl, sym, ap, subst, Bool, true, false, Option, none, some, length, arith,
  inl, inr, Bool-cases,
}
use acquire.Base.Texts.{Text, same, same-true}
use acquire.Base.Result.{ok}
use acquire.Base.Exec.{final-Yields}
use acquire.Base.Exec.Runs.{lift-runs, seq-runs}
use acquire.Registry.Uids.Generate.{Locks}
use acquire.Registry.Services.Counts.{length-add_name, at_here, at_other}
use acquire.Registry.Urls.{Service, Surroundings, is_stage1, get_domain, challenge_service}
use acquire.Registry.Services.{
  Store, add_name, guard, choose_uid, save, check_quota, enrol, register_service, look_up,
}

pub record IsWithin (w : Store) : Type 0 where
  pub few_pending : (domain : Text) → length (w.pending domain) ≤ 4
  pub few : (domain : Text) → length (w.active domain) + length (w.pending domain) ≤ 16

record Room (domain : Text) (w : Store) : Type 0 where
  room_pending : length (w.pending domain) < 4
  room : length (w.active domain) + length (w.pending domain) < 16

abbrev pub Stays : Store → Store → Type 0
Stays w t = IsWithin w → IsWithin t

check_quota-Room :
    (domain : Text) (w : Store) {u : Unit {0}} → check_quota domain w ≡ ok u → Room domain w
unfolding check_quota
check_quota-Room domain w h = record { room_pending = ground arith; room = ground arith }

Room-at : (d domain : Text) (w : Store) → same d domain ≡ true → Room domain w → Room d w
Room-at d domain w h r = subst (λ e. Room e w) (sym (same-true d domain h)) r

save-Stays :
    (domain : Text) (service : Service) (uid : Option Text) (w : Store)
    → Room domain w
    → Stays w (save domain service uid w).1
unfolding save
save-Stays domain service none w r h = h
save-Stays domain service (some uid) w r h = record {
  few_pending = λ d. elim (Bool-cases (same d domain)) [
    | inl e ↦ omega (
      arith,
      ap length (at_here d domain (add_name uid) w.pending e),
      length-add_name uid (w.pending d),
      (Room-at d domain w e r).room_pending,
    )
    | inr e ↦
        omega (arith, ap length (at_other d domain (add_name uid) w.pending e), h.few_pending d)
  ];
  few = λ d. elim (Bool-cases (same d domain)) [
    | inl e ↦ omega (
      arith,
      ap length (at_here d domain (add_name uid) w.pending e),
      length-add_name uid (w.pending d),
      (Room-at d domain w e r).room,
    )
    | inr e ↦ omega (arith, ap length (at_other d domain (add_name uid) w.pending e), h.few d)
  ];
}

-- The choice of a UID leaves the domains alone.
record Same (w t : Store) : Type 0 where
  same_pending : t.pending ≡ w.pending
  same_active : t.active ≡ w.active

choose_uid-Same :
    (locks : Locks) (registry_uid : Text) (force_new_uid : Bool) (known : Option Text) (w : Store)
    → Same w (choose_uid locks registry_uid force_new_uid known w).1
unfolding choose_uid
choose_uid-Same locks registry_uid force_new_uid none w = record {
  same_pending = refl;
  same_active = refl;
}
choose_uid-Same locks registry_uid true (some uid) w = record {
  same_pending = refl;
  same_active = refl;
}
choose_uid-Same locks registry_uid false (some uid) w = record {
  same_pending = refl;
  same_active = refl;
}

Same-Room : (domain : Text) (w t : Store) → Same w t → Room domain w → Room domain t
Same-Room domain w t e r = record {
  room_pending = rw (e.same_pending) r.room_pending;
  room = rw (e.same_pending, e.same_active) r.room;
}

Same-Stays : (w t : Store) → Same w t → Stays w t
Same-Stays w t e h = record {
  few_pending = λ d. rw (e.same_pending) (h.few_pending d);
  few = λ d. rw (e.same_pending, e.same_active) (h.few d);
}

pub Stays-refl : (w : Store) → Stays w w
Stays-refl w h = h

pub Stays-trans : (w t u : Store) → Stays w t → Stays t u → Stays w u
Stays-trans w t u h k x = k (h x)

enrol-Stays :
    (s : Surroundings) (locks : Locks) (registry_uid : Text) (force_new_uid : Bool)
    (service : Service) (domain : Text) (w : Store)
    → Room domain w
    → Stays w (enrol s locks registry_uid force_new_uid service domain w).1
unfolding enrol
enrol-Stays s locks registry_uid force_new_uid service domain w r =
    lift-runs Stays Stays-refl Stays-trans (challenge_service s service) _ w λ answer _.
      lift-runs Stays Stays-refl Stays-trans (guard (is_stage1 answer) _) _ w λ _ _.
        let known : Option Text = look_up answer.canonical_url w.urls in
        let kept : Same w (choose_uid locks registry_uid force_new_uid known w).1 =
          choose_uid-Same locks registry_uid force_new_uid known w in
        seq-runs Stays Stays-refl Stays-trans (choose_uid locks registry_uid force_new_uid known)
          (save domain answer) w (λ _ t. Room domain t)
          (final-Yields (choose_uid locks registry_uid force_new_uid known w) (Room domain)
            (Same-Room domain w _ kept r))
          (Same-Stays w _ kept) (λ uid t room. save-Stays domain answer uid t room)

pub register_service-Stays :
    (s : Surroundings) (locks : Locks) (registry_uid : Text) (force_new_uid : Bool)
    (service : Service) (w : Store)
    → Stays w (register_service s locks registry_uid force_new_uid service w).1
unfolding register_service
register_service-Stays s locks registry_uid force_new_uid service w =
    lift-runs Stays Stays-refl Stays-trans (guard (is_stage1 service) _) _ w λ _ _.
      lift-runs Stays Stays-refl Stays-trans (get_domain s registry_uid service.service_url) _ w
        λ domain _. lift-runs Stays Stays-refl Stays-trans (check_quota domain w) _ w λ _ checked.
          enrol-Stays s locks registry_uid force_new_uid service domain w
            (check_quota-Room domain w checked)
