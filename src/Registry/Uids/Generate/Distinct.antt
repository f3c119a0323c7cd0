-- ===== src/Registry/Uids/Generate/Distinct.antt =====
-- What `_generate_service_uid` returns, at one call and over a sequence of calls.
use acquire.Base.{
  ℕ, suc, ◌≡◌, ◌≢◌, inl, inr, refl, sym, ◌∙◌, subst, true, Option, none, some, List, [], ◌∷◌,
}
use acquire.Base.Result.{Result, ok, err, Error}
use acquire.Base.Lists.{All}
use acquire.Base.Texts.{Text}
use acquire.Registry.Uids.{with_root, root_of, to_uid, settle, next_vals}
use acquire.Registry.Uids.Order.{IsVals, Before, Before-trans, IsStored, After, next_vals_lem}
use acquire.Registry.Uids.Printed.{is_printed}
use acquire.Registry.Uids.Settled.{Settled, settle-Settled, with_root_differs}
use acquire.Registry.Uids.Generate.{
  Locks, Stored, set_stored, store_last, generate, collected, generate_all,
}

-- A UID that comes after what is stored.
pub record Fresh (registry_uid : Text) (s : Stored) (uid : Text) (last : List ℕ) : Type 0 where
  pub part : Text
  pub whole : uid ≡ with_root (root_of registry_uid) part
  pub printed : to_uid last ≡ ok part
  pub form : is_printed part ≡ true
  pub valid : IsVals last
  pub later : After s last
  pub other : uid ≢ registry_uid

-- Nothing is done without the mutex; with it a fresh UID is stored, and returned if the mutex is still
-- held then.
pub data Gave (registry_uid : Text) (s : Stored) : Result (Option Text) × Stored → Type 0 where
  kept : (why : Error) → Gave registry_uid s (err why, s)
  lost :
      (why : Error) (uid : Text) (last : List ℕ)
      → Fresh registry_uid s uid last
      → Gave registry_uid s (err why, some last)
  gave :
      (uid : Text) (last : List ℕ)
      → Fresh registry_uid s uid last
      → Gave registry_uid s (ok (some uid), some last)

After-onward : (s : Stored) (xs ys : List ℕ) → After s xs → Before xs ys → After s ys
After-onward none xs ys h k = tt
After-onward (some zs) xs ys h k = Before-trans zs xs ys h k

module _ (registry_uid : Text) (s : Stored) (stored : IsStored s) where
  fresh :
      (r : Result (Option (Text × List ℕ)))
      → (d : Settled registry_uid (next_vals s) r)
      → Fresh registry_uid s (with_root (root_of registry_uid) d.uid) d.last
  fresh r d = record {
    part = d.uid;
    whole = refl;
    printed = d.printed;
    form = d.form;
    valid = d.valid;
    later = elim d.onward [
      | inl e ↦ subst (λ xs. After s xs) (sym e) (next_vals_lem s stored).1
      | inr b ↦ After-onward s (next_vals s) d.last (next_vals_lem s stored).1 b
    ];
    other = d.other;
  }

  store_last-Gave :
      (lock unlock : Result (Unit {0})) (uid : Text) (last : List ℕ)
      → Fresh registry_uid s uid last
      → Gave registry_uid s
          (store_last (record { lock = lock; unlock = unlock }) (some (uid, last)) s)
  unfolding store_last set_stored
  store_last-Gave lock (ok u) uid last f = gave uid last f
  store_last-Gave lock (err why) uid last f = lost why uid last f

  generate-Gave_by :
      (lock unlock : Result (Unit {0})) (fuel : ℕ)
      → Gave registry_uid s
          (generate (record { lock = lock; unlock = unlock }) (suc (suc fuel)) registry_uid s)
  unfolding generate
  generate-Gave_by (err why) unlock fuel = kept why
  generate-Gave_by (ok u) unlock fuel =
      let d : Settled registry_uid (next_vals s)
          (settle (suc (suc fuel)) registry_uid (next_vals s)) =
        settle-Settled fuel registry_uid (next_vals s) (next_vals_lem s stored).0 in
      rw (d.found) (store_last-Gave (ok u) unlock _ d.last (fresh _ d))

  pub generate-Gave :
      (locks : Locks) (fuel : ℕ)
      → Gave registry_uid s (generate locks (suc (suc fuel)) registry_uid s)
  generate-Gave locks fuel = generate-Gave_by locks.lock locks.unlock fuel

-- A UID that was printed from values after what is stored.
record Later (registry_uid : Text) (s : Stored) (uid : Text) : Type 0 where
  last : List ℕ
  fresh : Fresh registry_uid s uid last

Later-Before :
    (registry_uid : Text) (s : Stored) (last : List ℕ) (uids : List Text)
    → After s last
    → All (Later registry_uid (some last)) uids
    → All (Later registry_uid s) uids
Later-Before registry_uid s last [] after h = tt
Later-Before registry_uid s last (uid ∷ uids) after (h, hs) = (
  record {
    last = h.last;
    fresh = record {
      part = h.fresh.part;
      whole = h.fresh.whole;
      printed = h.fresh.printed;
      form = h.fresh.form;
      valid = h.fresh.valid;
      later = After-onward s last h.last after h.fresh.later;
      other = h.fresh.other;
    };
  },
  Later-Before registry_uid s last uids after hs,
)

Later-ne :
    (registry_uid : Text) (s : Stored) (uid : Text) (last : List ℕ) (uids : List Text)
    → Fresh registry_uid s uid last
    → All (Later registry_uid (some last)) uids
    → All (λ u. uid ≢ u) uids
Later-ne registry_uid s uid last [] f h = tt
Later-ne registry_uid s uid last (u ∷ uids) f (h, hs) = (
  λ e.
      with_root_differs (root_of registry_uid) last h.last f.printed h.fresh.printed h.fresh.later
        (sym f.whole ∙ e ∙ h.fresh.whole),
  Later-ne registry_uid s uid last uids f hs,
)

-- No two are the same.
abbrev pub Distinct : List Text → Type 0
Distinct [] = Unit
Distinct (uid ∷ uids) = All (λ u. uid ≢ u) uids × Distinct uids

collected_lem :
    (registry_uid : Text) (s : Stored) (outcome : Result (Option Text) × Stored) (uids : List Text)
    → IsStored s
    → Gave registry_uid s outcome
    → (IsStored outcome.1 → All (Later registry_uid outcome.1) uids × Distinct uids)
    → All (Later registry_uid s) (collected outcome.0 uids) × Distinct (collected outcome.0 uids)
unfolding collected
collected_lem registry_uid s _ uids stored (kept why) rest = rest stored
collected_lem registry_uid s _ uids stored (lost why uid last f) rest =
    let (h, d) = rest f.valid in (Later-Before registry_uid s last uids f.later h, d)
collected_lem registry_uid s _ uids stored (gave uid last f) rest =
    let (h, d) = rest f.valid in
    (
      (record { last = last; fresh = f }, Later-Before registry_uid s last uids f.later h),
      (Later-ne registry_uid s uid last uids f h, d),
    )

generate_all_lem :
    (fuel : ℕ) (registry_uid : Text) (calls : List Locks) (s : Stored)
    → IsStored s
    → All (Later registry_uid s) (generate_all (suc (suc fuel)) registry_uid calls s)
      × Distinct (generate_all (suc (suc fuel)) registry_uid calls s)
unfolding generate_all
generate_all_lem fuel registry_uid [] s stored = (tt, tt)
generate_all_lem fuel registry_uid (locks ∷ calls) s stored =
    collected_lem registry_uid s (generate locks (suc (suc fuel)) registry_uid s) _ stored
      (generate-Gave registry_uid s stored locks fuel)
      λ t. generate_all_lem fuel registry_uid calls _ t

Later-other :
    (registry_uid : Text) (s : Stored) (uids : List Text)
    → All (Later registry_uid s) uids
    → All (λ uid. uid ≢ registry_uid) uids
Later-other registry_uid s [] h = tt
Later-other registry_uid s (uid ∷ uids) (h, hs) =
    (h.fresh.other, Later-other registry_uid s uids hs)

-- The UIDs that a sequence of calls of `_generate_service_uid` returns all differ, also where calls in
-- between failed at the mutex, and none is the registry's own. This is from any values that the object
-- store may hold, and with at least two rounds for the loop.
pub generate_all-Distinct :
    (fuel : ℕ) (registry_uid : Text) (calls : List Locks) (s : Stored)
    → IsStored s
    → Distinct (generate_all (suc (suc fuel)) registry_uid calls s)
      × All (λ uid. uid ≢ registry_uid) (generate_all (suc (suc fuel)) registry_uid calls s)
generate_all-Distinct fuel registry_uid calls s stored =
    let (h, d) = generate_all_lem fuel registry_uid calls s stored in
    (d, Later-other registry_uid s _ h)
