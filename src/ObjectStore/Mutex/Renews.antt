-- ===== src/ObjectStore/Mutex/Renews.antt =====
-- `Mutex.lock` of a mutex that is locked, `unlock` and `fully_unlock` of Acquire/ObjectStore/_mutex.py.
use acquire.Base.{
  ℕ, suc, ◌+◌, ◌≤◌, ◌<◌, true, false, none, some, ◌≡◌, ◌⊎◌, refl, ap, inl, inr, Bool-cases, subst,
  if◌then◌else◌, ltb, arith,
}
use acquire.Base.Find.{eqb_true}
use acquire.Base.Result.{ok, err, mutex_timeout_error}
use acquire.Base.Exec.{◌>>◌}
use acquire.ObjectStore.Mutex.{
  World, Surroundings, eq_string, is_free, set_mutex, lease_of, released, get_now, get_key,
  holder_of, read_key, set_key, delete_key, ended, expired, is_locked, raise_if, delete_if, release,
  give_back, fully_unlock, unlock, count_down, take_key, when_mine, write_again, hold_if_mine,
  try_lock, go_on, acquire_lock, lock_anew, seconds_past, renew, lock_again, lock,
}
use acquire.ObjectStore.Mutex.Waits.{ltb-false}

ltb-true : (a b : ℕ) → a < b → ltb a b ≡ true
ltb-true a b h = ground (arith, h)

seconds_past_day :
    (until now : ℕ)
    → now < until
    → until ≤ now + 86399000000
    → ltb (seconds_past until now) 1 ≡ false
unfolding seconds_past
seconds_past_day until now h k = ltb-false _ 1 (omega (arith, h, k))

-- A lock that is held with any time of its lease left, even less than a second, is renewed and counted, up to a lease of
-- a day less a second: the key gets a new lease, whatever it holds by then.
pub lock-renews :
    (s : Surroundings) (fuel timeout lease_time until n : ℕ) (w : World)
    → w.mutex.is_locked ≡ suc n
    → w.mutex.end_lease ≡ some until
    → s.clock w.event + w.slept ≤ until
    → s.clock (suc w.event) + w.slept < until
    → until ≤ s.clock (suc w.event) + w.slept + 86399000000
    → ((lock s fuel timeout lease_time w).0 ≡ ok true)
      × ((lock s fuel timeout lease_time w).1.mutex.is_locked ≡ suc (suc n))
      × ((lock s fuel timeout lease_time w).1.key
          ≡ some (lease_of w.mutex (s.clock (suc w.event) + w.slept + lease_time)))
unfolding lock is_locked expired ended get_now lock_again renew set_mutex set_key count_down
lock-renews s fuel timeout lease_time until n w locked end live later day =
    rw
      (
        locked,
        end,
        ltb-false until (s.clock w.event + w.slept) live,
        ltb-false until (s.clock (suc w.event) + w.slept) (omega (arith, later)),
        seconds_past_day until (s.clock (suc w.event) + w.slept) later day,
      )
      (refl, refl, refl)

-- `fully_unlock` of a locked mutex frees the key if it reads its own lease there and leaves another's; in both cases the
-- mutex is not locked any more, also where the lease had ended and a timeout error is raised.
pub fully_unlock_lem :
    (s : Surroundings) (until n : ℕ) (w : World)
    → w.mutex.is_locked ≡ suc n
    → w.mutex.end_lease ≡ some until
    → ((fully_unlock s w).1.mutex ≡ released w.mutex)
      × ((fully_unlock s w).1.key ≡ (
          if eq_string (s.others w.event w.key) w.mutex.lockstring
          then none
          else s.others w.event w.key))
      × (((fully_unlock s w).0 ≡ ok tt) ⊎ ((fully_unlock s w).0 ≡ err mutex_timeout_error))
unfolding fully_unlock give_back get_key delete_if delete_key release set_mutex get_now ended
    raise_if released
fully_unlock_lem s until n w locked end =
    elim (Bool-cases (eq_string (s.others w.event w.key) w.mutex.lockstring)) [
      | inl mine ↦ elim (Bool-cases (ltb until (s.clock (suc (suc w.event)) + w.slept))) [
        | inl e ↦ rw (locked, end, mine, e) (refl, refl, inr refl)
        | inr e ↦ rw (locked, end, mine, e) (refl, refl, inl refl)
      ]
      | inr other ↦ elim (Bool-cases (ltb until (s.clock (suc w.event) + w.slept))) [
        | inl e ↦ rw (locked, end, other, e) (refl, refl, inr refl)
        | inr e ↦ rw (locked, end, other, e) (refl, refl, inl refl)
      ]
    ]

-- No other client touches the key.
abbrev pub alone : (ℕ → ℕ) → Surroundings
alone clock = record { clock = clock; others = λ _ k. k }

-- A mutex that is not locked, with nobody at its key, is locked in the first round if there is any time for it, and
-- `unlock` before the end of the lease gives the key back: the mutex is as free as before, and nothing is raised.
pub lock-unlock :
    (clock : ℕ → ℕ) (fuel timeout lease_time : ℕ) (w : World)
    → w.mutex.is_locked ≡ 0
    → w.key ≡ none
    → 0 < timeout
    → clock (9 + w.event) ≤ clock w.event + lease_time
    → (lock (alone clock) (suc fuel) timeout lease_time >> unlock (alone clock)) w
      ≡ (ok tt, record w { mutex = released w.mutex; event = 10 + w.event })
unfolding lock is_locked lock_anew get_now acquire_lock go_on try_lock get_key read_key holder_of
    is_free take_key set_mutex lease_of set_key when_mine eq_string write_again hold_if_mine unlock
    give_back delete_if delete_key release ended raise_if released
lock-unlock clock fuel timeout lease_time w free empty some_time in_time =
    let now = clock w.event + w.slept in
    let mine = eqb_true w.mutex.secret w.mutex.secret refl in
    let same = eqb_true (now + lease_time) (now + lease_time) refl in
    let in_time' : clock (suc (suc (suc (suc (suc (suc (suc (suc (suc w.event)))))))))
        ≤ clock w.event + lease_time =
      subst (λ i. clock i ≤ clock w.event + lease_time) (omega arith) in_time in
    rw
      (
        free,
        empty,
        ltb-true now (now + timeout) (omega (arith, some_time)),
        mine,
        same,
        hold_if_mine,
        mine,
        same,
        delete_if,
        mine,
        same,
        raise_if,
        ltb-false (now + lease_time)
            (clock (suc (suc (suc (suc (suc (suc (suc (suc (suc w.event))))))))) + w.slept)
            (omega (arith, in_time')),
      )
      (ap (λ e. (ok tt, record w { mutex = released w.mutex; key = none; event = e }))
        (omega arith))
