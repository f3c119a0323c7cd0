-- ===== src/ObjectStore/Mutex/Tests.antt =====
-- Uses of the theorems on the mutex, with a clock that goes on by a microsecond at each event.
use acquire.Base.{ℕ, true, false, none, some, ◌≡◌, ◌≢◌, ◌⊎◌, refl, arith}
use acquire.Base.Result.{ok, err, mutex_timeout_error}
use acquire.Base.Exec.{◌>>◌}
use acquire.ObjectStore.Mutex.{
  Lease, World, eq_string, is_free, set_mutex, lease_of, released, get_now, get_key, holder_of,
  read_key, set_key, is_locked, fully_unlock, unlock, take_key, when_mine, write_again,
  hold_if_mine, try_lock, go_on, acquire_lock, lock_anew, lock,
}
use acquire.ObjectStore.Mutex.Holds.{IsHeld, lock-IsHeld}
use acquire.ObjectStore.Mutex.Waits.{lock-ends}
use acquire.ObjectStore.Mutex.Renews.{alone, lock-renews, fully_unlock_lem, lock-unlock}

abbrev ticking : ℕ → ℕ
ticking i = i

abbrev new : World
new = record {
  mutex = record { secret = 7; is_locked = 0; lockstring = none; end_lease = none };
  key = none;
  event = 0;
  slept = 0;
}

abbrev mine : Lease
mine = record { secret = 7; until = 10000000 }

abbrev theirs : Lease
theirs = record { secret = 8; until = 60000000 }

abbrev held : World
held = record {
  mutex = record { secret = 7; is_locked = 1; lockstring = some mine; end_lease = some 10000000 };
  key = some mine;
  event = 7;
  slept = 0;
}

-- Someone else had the key, and their lease had run out at 0.
abbrev leftover : World
leftover = record new { key = some (record { secret = 8; until = 3 }); event = 4 }

new_locked : lock (alone ticking) 1 10000000 10000000 new ≡ (ok true, held)
unfolding lock is_locked lock_anew get_now acquire_lock go_on try_lock get_key read_key holder_of
    is_free take_key set_mutex lease_of set_key when_mine eq_string write_again hold_if_mine
new_locked = refl

lock-IsHeld_example : IsHeld 7 held
lock-IsHeld_example = lock-IsHeld (alone ticking) 1 10000000 10000000 new refl new_locked

lock-ends_example : lock (alone ticking) 40 10000000 10000000 leftover ≢ (ok false, leftover)
lock-ends_example =
    lock-ends (alone ticking) (λ i j h. h) 40 10000000 10000000 leftover leftover (omega arith) refl

abbrev taken : World
taken = record new { key = some theirs }

-- Half a second is left.
abbrev late : World
late = record held { event = 9500000 }

lock-renews_example :
    ((lock (alone ticking) 1 10000000 10000000 late).0 ≡ ok true)
    × ((lock (alone ticking) 1 10000000 10000000 late).1.mutex.is_locked ≡ 2)
    × ((lock (alone ticking) 1 10000000 10000000 late).1.key
        ≡ some (record { secret = 7; until = 19500001 }))
unfolding lease_of
lock-renews_example =
    lock-renews (alone ticking) 1 10000000 10000000 10000000 0 late refl refl (omega arith)
      (omega arith) (omega arith)

fully_unlock_lem_example :
    ((fully_unlock (alone ticking) held).1.mutex ≡ released held.mutex)
    × ((fully_unlock (alone ticking) held).1.key ≡ none)
    × (((fully_unlock (alone ticking) held).0 ≡ ok tt)
        ⊎ ((fully_unlock (alone ticking) held).0 ≡ err mutex_timeout_error))
unfolding eq_string
fully_unlock_lem_example = fully_unlock_lem (alone ticking) 10000000 0 held refl refl

lock-unlock_example :
    (lock (alone ticking) 1 10000000 10000000 >> unlock (alone ticking)) new
    ≡ (ok tt, record new { mutex = released new.mutex; event = 10 })
lock-unlock_example =
    lock-unlock ticking 0 10000000 10000000 new refl refl (omega arith) (omega arith)
