-- ===== src/ObjectStore/Buckets/Tests.antt =====
-- Objects of a bucket, and a use of the theorem on `set_ins_string_object`.
use acquire.Base.{◌≡◌, refl, some, [], ◌∷◌}
use acquire.Base.Texts.{codes, same, starts_with}
use acquire.Base.Result.{ok, err, unbound_local_error}
use acquire.ObjectStore.Buckets.{
  Bucket, take_object, get_all_objects, clear_all_except, mutex_key, Surroundings,
  set_ins_string_object,
}
use acquire.ObjectStore.Buckets.Inserted.{IsInserted, set_ins_string_object-IsInserted}

abbrev bucket : Bucket
bucket =
    (codes "user/ada", codes "1")
    ∷ (codes "user/bob", codes "2")
    ∷ (codes "session", codes "3")
    ∷ []

taken :
    take_object (codes "session") bucket
    ≡ (ok (codes "3"), (codes "user/ada", codes "1") ∷ (codes "user/bob", codes "2") ∷ [])
unfolding take_object same
taken = refl

users :
    (get_all_objects (some (codes "user/")) bucket).0
    ≡ ok ((codes "user/ada", codes "1") ∷ (codes "user/bob", codes "2") ∷ [])
unfolding get_all_objects same starts_with
users = refl

-- The session is to go, and the object of the key to keep goes instead.
kept_lost :
    clear_all_except (codes "user/ada" ∷ codes "user/bob" ∷ []) bucket
    ≡ (ok tt, (codes "user/ada", codes "1") ∷ (codes "session", codes "3") ∷ [])
unfolding clear_all_except same starts_with
kept_lost = refl

nothing_kept : clear_all_except [] bucket ≡ (err unbound_local_error, bucket)
unfolding clear_all_except
nothing_kept = refl

abbrev sudden : Surroundings
sudden = record {
  others = λ w. (codes "lock", codes "theirs") ∷ w;
  lock = ok (codes "s");
  unlock = ok tt;
}

theirs_kept :
    set_ins_string_object sudden (codes "lock") (codes "mine") bucket
    ≡ (ok (codes "theirs"), (codes "lock", codes "theirs") ∷ bucket)
unfolding set_ins_string_object mutex_key same
theirs_kept = refl

set_ins_string_object-IsInserted_example :
    IsInserted
      (codes "lock")
      (codes "mine")
      ((codes "lock", codes "theirs") ∷ bucket)
      (codes "theirs")
      ((codes "lock", codes "theirs") ∷ bucket)
set_ins_string_object-IsInserted_example =
    set_ins_string_object-IsInserted sudden (codes "lock") (codes "mine") bucket theirs_kept
