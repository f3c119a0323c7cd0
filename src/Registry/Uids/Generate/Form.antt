-- ===== src/Registry/Uids/Generate/Form.antt =====
-- What `_generate_service_uid` returns is of the form that its comment describes.
use acquire.Base.{
  ℕ, suc, ◌≡◌, refl, ap, ◌==◌, true, Option, some, List, [], ◌∷◌, ◌∙◌, inl, inr, Bool-cases,
}
use acquire.Base.Result.{Result, ok}
use acquire.Base.Texts.{Text, before}
use acquire.Registry.Uids.{with_root, root_of, settle, next_vals, get_registry_uid}
use acquire.Registry.Uids.Order.{IsVals, IsStored, next_vals_lem}
use acquire.Registry.Uids.Printed.{is_printed}
use acquire.Registry.Uids.Settled.{Settled, settle-Settled}
use acquire.Registry.Uids.Generate.{Locks, Stored, set_stored, store_last, generate}

root_of-with_root : (uid part : Text) → root_of (with_root (root_of uid) part) ≡ root_of uid
unfolding root_of with_root before
root_of-with_root [] part = refl
root_of-with_root (c ∷ cs) part = elim (Bool-cases (c == b'-')) [
  | inl dash ↦ rw (dash) refl
  | inr other ↦ rw (other) (rw (other) (ap (λ (t : Text). c ∷ t) (root_of-with_root cs part)))
]

-- A UID of this registry, and the state that it leaves.
pub record Given (registry_uid : Text) (outcome : Result (Option Text) × Stored) : Type 0 where
  pub part : Text
  pub last : List ℕ
  pub returned : outcome ≡ (ok (some (with_root (root_of registry_uid) part)), some last)
  pub form : is_printed part ≡ true
  pub stored : IsVals last
  pub registry :
      get_registry_uid (with_root (root_of registry_uid) part)
      ≡ with_root (root_of registry_uid) (root_of registry_uid)

module _ (registry_uid : Text) (s : Stored) (stored : IsStored s) where
  returned :
      (r : Result (Option (Text × List ℕ))) (d : Settled registry_uid (next_vals s) r)
      (lock unlock : Result (Unit {0}))
      → unlock ≡ ok tt
      → store_last
          (record { lock = lock; unlock = unlock })
          (some (with_root (root_of registry_uid) d.uid, d.last))
          s
        ≡ (ok (some (with_root (root_of registry_uid) d.uid)), some d.last)
  unfolding store_last set_stored
  returned r d lock unlock h = rw (h) refl

  generate-returned :
      (locks : Locks) (fuel : ℕ)
      → locks.lock ≡ ok tt
      → (d : Settled registry_uid
          (next_vals s)
          (settle (suc (suc fuel)) registry_uid (next_vals s)))
      → generate locks (suc (suc fuel)) registry_uid s
        ≡ store_last locks (some (with_root (root_of registry_uid) d.uid, d.last)) s
  unfolding generate
  generate-returned locks fuel h d = rw (h, d.found) refl

-- With the mutex, `_generate_service_uid` returns, after two rounds of its loop at most. The UID is the
-- registry's root, a hyphen and pairs of a letter and a digit with dots between them, `get_registry_uid`
-- finds the registry of that root from it, and values in range are left in the object store.
pub generate-Given :
    (locks : Locks) (fuel : ℕ) (registry_uid : Text) (s : Stored)
    → IsStored s
    → locks.lock ≡ ok tt
    → locks.unlock ≡ ok tt
    → Given registry_uid (generate locks (suc (suc fuel)) registry_uid s)
unfolding get_registry_uid
generate-Given locks fuel registry_uid s stored h k =
    let d : Settled registry_uid (next_vals s)
        (settle (suc (suc fuel)) registry_uid (next_vals s)) =
      settle-Settled fuel registry_uid (next_vals s) (next_vals_lem s stored).0 in
    record {
      part = d.uid;
      last = d.last;
      returned =
          generate-returned registry_uid s stored locks fuel h d
          ∙ returned registry_uid s stored _ d locks.lock locks.unlock k;
      form = d.form;
      stored = d.valid;
      registry = rw (root_of-with_root registry_uid d.uid) refl;
    }
