-- ===== src/Registry/Services/Quota/Tests.antt =====
-- Services that a registry takes up, and uses of the theorem on its quotas.
use acquire.Base.{◌≡◌, ◌||◌, refl, subst, true, false, none, some, [], ◌∷◌, arith}
use acquire.Base.Texts.{Text, codes, same, before}
use acquire.Base.Result.{ok, err, permission_error, ok_injective}
use acquire.Registry.Uids.{settle, next_vals}
use acquire.Registry.Uids.Generate.{Locks, generate}
use acquire.Registry.Urls.{Service, Surroundings, get_domain, challenge_service}
use acquire.Registry.Services.{
  Store, listed, register_service, get_service, by_url, at_domain, add_name,
}
use acquire.Registry.Services.Registering.{IsWithin}
use acquire.Registry.Services.Quota.{
  IsKnown, register, get, make_call, make_calls, make_calls-IsWithin,
}

abbrev url : Text
url = codes "example.com/t/storage"

-- A service under construction, and the same when it has its UID.
abbrev new : Service
new = record {
  uid = codes "STAGE1";
  service_url = codes "https://example.com/t/storage";
  canonical_url = url;
  has_user = true;
  has_public_key = true;
  last_key_update = some 0;
  key_update_interval = some 60;
}

abbrev ready : Service
ready = record new { uid = codes "b4-a0" }

abbrev answering : Service → Surroundings
answering service = record {
  now = 1000000;
  netloc = λ _. codes "example.com:443";
  path = λ _. codes "/t/storage/";
  random_passphrase = codes "open";
  respond = λ _. ok (codes "open", service);
  refreshed = λ s. ok s;
}

abbrev held : Locks
held = record { lock = ok tt; unlock = ok tt }

abbrev b4 : Text
b4 = codes "b4-b4"

abbrev registry : Service
registry = record ready { uid = b4; canonical_url = codes "example.com/t/registry" }

abbrev empty : Store
empty = record { services = []; urls = []; pending = λ _. []; active = λ _. []; last_uid = none }

abbrev registered : Store
registered = record {
  services = (codes "b4-a0", new) ∷ [];
  urls = (url, codes "b4-a0") ∷ [];
  pending = at_domain (codes "example.com") (add_name (codes "b4-a0")) (λ _. []);
  active = λ _. [];
  last_uid = some (0 ∷ 0 ∷ []);
}

register_new :
    register_service (answering new) held b4 false new empty
    ≡ (ok (some (codes "b4-a0")), registered)
unfolding register_service settle next_vals generate same before
register_new = refl

-- It is found by its URL, and is active from then on.
get_ready : (get_service (answering ready) b4 registry (by_url url) registered).0 ≡ ok ready
unfolding get_service same before
get_ready = refl

twice : (register_service (answering new) held b4 false ready empty).0 ≡ err permission_error
unfolding register_service same before
twice = refl

registered-IsKnown : IsKnown (answering ready) b4 registered
unfolding challenge_service get_domain at_domain listed add_name same before
registered-IsKnown service answer domain h k =
    let e : ready ≡ answer = ok_injective h in
    let d : codes "example.com" ≡ domain = ok_injective k in
    subst
      (λ (s : Service).
        (listed s.uid (registered.pending domain) || listed s.uid (registered.active domain))
        ≡ true)
      e
      (subst
        (λ d.
          (listed ready.uid (registered.pending d) || listed ready.uid (registered.active d))
          ≡ true)
        d refl)

empty-IsWithin : IsWithin empty
empty-IsWithin = record { few_pending = λ _. omega arith; few = λ _. omega arith }

registered-IsWithin : IsWithin registered
unfolding make_calls make_call
registered-IsWithin =
    subst (λ (o : Store). IsWithin o) (λ i. (register_new i).1)
      (make_calls-IsWithin b4 registry (register (answering new) held false new ∷ []) empty (tt, tt)
        empty-IsWithin)

make_calls-IsWithin_example :
    IsWithin (make_calls b4 registry (get (answering ready) (by_url url) ∷ []) registered)
make_calls-IsWithin_example =
    make_calls-IsWithin b4 registry (get (answering ready) (by_url url) ∷ []) registered
      (registered-IsKnown, tt) registered-IsWithin
