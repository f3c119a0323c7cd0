-- ===== src/ObjectStore/Mutex/Waits.antt =====
-- `Mutex.lock` of Acquire/ObjectStore/_mutex.py: how long it waits, and for whom.
use acquire.Base.{
  ℕ, zero, suc, ◌+◌, ◌*◌, ◌≤◌, Bool, true, false, Option, none, some, ◌≡◌, ◌≢◌, ◌⊎◌, refl, sym, ◌∙◌,
  inl, inr, Bool-cases, ltb, arith,
}
use acquire.Base.Result.{Result, ok, err, mutex_timeout_error}
use acquire.Base.Exec.{Exec, ◌>>=◌, Yields, seq-Yields, final-Yields, Yields-returned}
use acquire.Base.Exec.Runs.{then-runs}
use acquire.ObjectStore.Mutex.{
  Lease, World, Surroundings, eq_string, is_free, set_mutex, lease_of, get_now, get_key, holder_of,
  read_key, set_key, take_key, when_mine, write_again, hold_if_mine, try_lock, go_on, acquire_lock,
  lock_anew, lock, sleep,
}
use acquire.ObjectStore.Mutex.Holds.{lock-unlocked}

false_not_true : false ≢ true
false_not_true h = cc

-- No time is slept, and the clock does not go back.
abbrev Goes : World → World → Type 0
Goes w w' = (w.event ≤ w'.event) × (w'.slept ≡ w.slept)

Goes-refl : (w : World) → Goes w w
Goes-refl w = (omega arith, refl)

Goes-trans : (u v w : World) → Goes u v → Goes v w → Goes u w
Goes-trans u v w h k = (omega (arith, h.0, k.0), k.1 ∙ h.1)

pub ltb-false : (a b : ℕ) → b ≤ a → ltb a b ≡ false
ltb-false a b h = ground (arith, h)

module _ (s : Surroundings) where
  get_key-Goes : (w : World) → Goes w (get_key s w).1
  unfolding get_key
  get_key-Goes w = (omega arith, refl)

  holder_of-Goes : (holder : Option Lease) (w : World) → Goes w (holder_of s holder w).1
  unfolding holder_of
  holder_of-Goes none w = Goes-refl w
  holder_of-Goes (some l) w = Goes-refl w

  read_key-Goes : (w : World) → Goes w (read_key s w).1
  unfolding read_key
  read_key-Goes w =
      then-runs Goes Goes-refl Goes-trans (get_key s) (holder_of s) w (get_key-Goes w)
        λ holder w'. holder_of-Goes holder w'

  set_key-Goes : (o : Option Lease) (w : World) → Goes w (set_key s o w).1
  unfolding set_key
  set_key-Goes none w = (omega arith, refl)
  set_key-Goes (some l) w = (omega arith, refl)

  take_key-Goes :
      (until : ℕ) (b : Bool) (holder : Option Lease) (w : World)
      → Goes w (take_key s until b holder w).1
  unfolding take_key set_mutex set_key
  take_key-Goes until true holder w =
      let taken : World = record w {
        mutex = record w.mutex {
          lockstring = some (lease_of w.mutex until);
          end_lease = some until;
        };
        key = some (lease_of w.mutex until);
        event = suc w.event;
      } in
      Goes-trans w taken (read_key s taken).1 (omega arith, refl) (read_key-Goes taken)
  take_key-Goes until false holder w = (omega arith, refl)

  when_mine-Goes :
      (call : Exec World (Option Lease)) (holder : Option Lease) (w : World)
      → Goes w (call w).1
      → Goes w (when_mine s call holder w).1
  unfolding when_mine
  when_mine-Goes call holder w h = elim (Bool-cases (eq_string holder w.mutex.lockstring)) [
    | inl e ↦ rw (e) h
    | inr e ↦ rw (e) (Goes-refl w)
  ]

  hold_if_mine-Goes : (holder : Option Lease) (w : World) → Goes w (hold_if_mine s holder w).1
  unfolding hold_if_mine
  hold_if_mine-Goes holder w = elim (Bool-cases (eq_string holder w.mutex.lockstring)) [
    | inl e ↦ rw (e) (Goes-refl w)
    | inr e ↦ rw (e) (Goes-refl w)
  ]

  write_again-Goes : (w : World) → Goes w (write_again s w).1
  unfolding write_again
  write_again-Goes w =
      then-runs Goes Goes-refl Goes-trans (set_key s w.mutex.lockstring) _ w
        (set_key-Goes w.mutex.lockstring w) λ _ w'. read_key-Goes w'

  try_lock-Goes : (lease_time now : ℕ) (w : World) → Goes w (try_lock s lease_time now w).1
  unfolding try_lock
  try_lock-Goes lease_time now w =
      then-runs Goes Goes-refl Goes-trans (get_key s) _ w (get_key-Goes w) λ holder w₁.
        then-runs Goes Goes-refl Goes-trans
          (take_key s (now + lease_time) (is_free now holder) holder) _ w₁
          (take_key-Goes (now + lease_time) (is_free now holder) holder w₁)
          λ holder₂ w₂.
            then-runs Goes Goes-refl Goes-trans
              (when_mine s (read_key s >>= when_mine s (write_again s)) holder₂) _ w₂
              (when_mine-Goes (read_key s >>= when_mine s (write_again s)) holder₂ w₂ (
                then-runs Goes Goes-refl Goes-trans (read_key s) _ w₂ (read_key-Goes w₂)
                  λ holder₃ w₃. when_mine-Goes (write_again s) holder₃ w₃ (write_again-Goes w₃)))
              λ holder₃ w₃. hold_if_mine-Goes holder₃ w₃

  module _ (forward : (i j : ℕ) → i ≤ j → s.clock i ≤ s.clock j) where
    acquire_lock-ends :
        (fuel lease_time endtime now : ℕ) (w : World)
        → endtime ≤ now + fuel * 250000
        → now ≤ s.clock w.event + w.slept
        → Yields (acquire_lock s fuel lease_time endtime now w) (λ held _. held ≡ true)
    unfolding acquire_lock go_on sleep get_now
    acquire_lock-ends zero lease_time endtime now w enough past =
        rw (ltb-false now endtime (omega (arith, enough))) tt
    acquire_lock-ends (suc fuel) lease_time endtime now w enough past =
        elim (Bool-cases (ltb now endtime)) [
          | inl e ↦ rw (e) (
              seq-Yields (try_lock s lease_time now)
                (go_on s (acquire_lock s fuel lease_time endtime)) w (λ _ w'. Goes w w') _
                (final-Yields (try_lock s lease_time now w) (Goes w)
                  (try_lock-Goes lease_time now w))
                λ held w₁ goes.
                  elim held
                    as (λ b.
                      Yields (go_on s (acquire_lock s fuel lease_time endtime) b w₁)
                        (λ held _. held ≡ true)) [
                          | true ↦ refl
                          | false ↦
                              let on = forward w.event w₁.event goes.0 in
                              let next = forward w₁.event (suc w₁.event) (omega arith) in
                              acquire_lock-ends fuel lease_time endtime _ _
                                (omega (arith, enough, past, on, goes.1)) (omega (arith, next))
                        ])
          | inr e ↦ rw (e) tt
        ]

    lock_anew-ends :
        (fuel timeout lease_time : ℕ) (w : World)
        → timeout ≤ fuel * 250000
        → Yields (lock_anew s fuel timeout lease_time w) (λ held _. held ≡ true)
    unfolding lock_anew get_now
    lock_anew-ends fuel timeout lease_time w enough =
        acquire_lock-ends fuel lease_time _ _ _ (omega (arith, enough))
          (omega (arith, forward w.event (suc w.event) (omega arith)))

    -- `lock` of a mutex that is not locked takes at most as many rounds as quarters of a second fit into its timeout,
    -- the last one counted whole: then it has returned or raised, if the clock does not go back.
    pub lock-ends :
        (fuel timeout lease_time : ℕ) (w w' : World)
        → timeout ≤ fuel * 250000
        → w.mutex.is_locked ≡ 0
        → lock s fuel timeout lease_time w ≢ (ok false, w')
    lock-ends fuel timeout lease_time w w' enough free going = false_not_true (
        Yields-returned (lock_anew s fuel timeout lease_time w) (λ held _. held ≡ true)
          (sym (lock-unlocked s fuel timeout lease_time w free) ∙ going)
          (lock_anew-ends fuel timeout lease_time w enough))

-- The key holds another client's lease, and nobody touches it.
module _ (s : Surroundings) (l : Lease) (kept : (i : ℕ) → s.others i (some l) ≡ some l) where
  abbrev blocked : World → World
  blocked w = record w {
    mutex = record w.mutex { lockstring = none };
    key = some l;
    event = suc w.event;
  }

  -- The call goes on or gave up, and neither the key nor the mutex is locked by it.
  abbrev Keeps : ℕ → Result Bool × World → Type 0
  Keeps n outcome =
      ((outcome.0 ≡ ok false) ⊎ (outcome.0 ≡ err mutex_timeout_error))
      × (outcome.1.key ≡ some l)
      × (outcome.1.mutex.is_locked ≡ n)
