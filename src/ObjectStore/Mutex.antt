-- ===== src/ObjectStore/Mutex.antt =====
-- Acquire/ObjectStore/_mutex.py: a lease that is held by whoever wrote a key of the object store last. The
-- object store, the clock and the other clients are the surroundings of one client's calls: an event is a
-- reading of the clock or an operation on the key, and other clients may change the key before each.
pub mod Holds
pub mod Waits
pub mod Renews
mod Tests
use acquire.Base.{
  ℕ, zero, suc, ◌+◌, ◌-◌, ◌/◌, ◌%◌, Bool, true, false, not, Option, none, some, ◌||◌, ◌&&◌, ◌==◌,
  ltb, if◌then◌else◌,
}
use acquire.Base.Result.{
  Error, ok, err, type_error, attribute_error, object_store_error, mutex_timeout_error,
}
use acquire.Base.Exec.{Exec, return_, raise, get_state, ◌>>=◌, ◌>>◌, and_then}

-- The string "secret{}time" that is written to the key.
pub record Lease : Type 0 where
  pub secret : ℕ
  pub until : ℕ

pub record Mutex : Type 0 where
  pub secret : ℕ
  pub is_locked : ℕ
  pub lockstring : Option Lease
  pub end_lease : Option ℕ

-- The client's object, the key, the number of events, and the time slept so far, in microseconds.
pub record World : Type 0 where
  pub mutex : Mutex
  pub key : Option Lease
  pub event : ℕ
  pub slept : ℕ

-- The readings of the clock, less the time slept, and what other clients make of the key.
pub record Surroundings : Type 0 where
  pub clock : ℕ → ℕ
  pub others : ℕ → Option Lease → Option Lease

pub eq_string : Option Lease → Option Lease → Bool
eq_string none none = true
eq_string (some a) (some b) = a.secret == b.secret && a.until == b.until
eq_string _ _ = false

-- No-one holds the key, or their lease has run out.
pub is_free : ℕ → Option Lease → Bool
is_free now none = true
is_free now (some l) = ltb l.until now

set_mutex : Mutex → Exec World (Unit {0})
set_mutex m w = (ok tt, record w { mutex = m })

sleep : ℕ → Exec World (Unit {0})
sleep time w = (ok tt, record w { slept = w.slept + time })

pub released : Mutex → Mutex
released m = record m { is_locked = 0; lockstring = none; end_lease = none }

pub lease_of : Mutex → ℕ → Lease
lease_of m until = record { secret = m.secret; until = until }

-- `(now - end_lease).seconds` of a time that is not past the end, which Python counts up from whole days.
pub seconds_past : ℕ → ℕ → ℕ
seconds_past until now = (86400000000 - (until - now) % 86400000000) % 86400000000 / 1000000

module _ (s : Surroundings) where
  get_now : Exec World ℕ
  get_now w = (ok (s.clock w.event + w.slept), record w { event = suc w.event })

  -- The first reading of `lock` and that of `fully_unlock`, where an exception is taken for `None`.
  get_key : Exec World (Option Lease)
  get_key w =
      (ok (s.others w.event w.key), record w { key = s.others w.event w.key; event = suc w.event })

  holder_of : Option Lease → Exec World (Option Lease)
  holder_of none = raise object_store_error
  holder_of (some l) = return_ (some l)

  -- The further readings of `lock`, which raise where the key is missing.
  read_key : Exec World (Option Lease)
  read_key = get_key >>= holder_of

  set_key : Option Lease → Exec World (Unit {0})
  set_key none w = (err attribute_error, record w { event = suc w.event })
  set_key (some l) w = (ok tt, record w { key = some l; event = suc w.event })

  delete_key : Exec World (Unit {0})
  delete_key w = (ok tt, record w { key = none; event = suc w.event })

  ended : Option ℕ → ℕ → Exec World Bool
  ended none now = raise type_error
  ended (some until) now = return_ (ltb until now)

  -- `Mutex.expired`
  expired : Exec World Bool
  expired w = elim w.mutex.is_locked [
    | zero ↦ (ok false, w)
    | suc _ ↦ (get_now >>= ended w.mutex.end_lease) w
  ]

  -- `Mutex.is_locked`
  pub is_locked : Exec World Bool
  is_locked w = elim w.mutex.is_locked [
    | zero ↦ (ok false, w)
    | suc _ ↦ (expired >>= λ e. return_ (not e)) w
  ]

  raise_if : Bool → Exec World (Unit {0})
  raise_if true = raise mutex_timeout_error
  raise_if false = return_ tt

  delete_if : Bool → Exec World (Unit {0})
  delete_if true = delete_key
  delete_if false = return_ tt

  -- The end of the lease is forgotten in any case, whether it has passed or not.
  release : Exec World (Unit {0})
  release w =
      (set_mutex (record w.mutex { is_locked = 0; lockstring = none }) >> get_now >>= λ now.
      ended w.mutex.end_lease now >>= λ e. set_mutex (released w.mutex) >> raise_if e)
        w

  give_back : Exec World (Unit {0})
  give_back w = (get_key >>= λ holder. delete_if (eq_string holder w.mutex.lockstring) >> release) w

  -- `Mutex.fully_unlock`
  pub fully_unlock : Exec World (Unit {0})
  fully_unlock w = elim w.mutex.is_locked [ zero ↦ (ok tt, w) | suc _ ↦ give_back w ]

  count_down : ℕ → Exec World (Unit {0})
  count_down n w = (ok tt, record w { mutex = record w.mutex { is_locked = n } })

  -- `Mutex.unlock`
  pub unlock : Exec World (Unit {0})
  unlock w = elim w.mutex.is_locked [
    | zero ↦ (ok tt, w)
    | suc zero ↦ give_back w
    | suc (suc n) ↦ (expired >>= λ e. raise_if e >> count_down (suc n)) w
  ]

  -- What the client reads after it wrote the key, if no-one else held it.
  take_key : ℕ → Bool → Option Lease → Exec World (Option Lease)
  take_key until true holder w =
      (set_mutex
            (record w.mutex { lockstring = some (lease_of w.mutex until); end_lease = some until })
          >> set_key (some (lease_of w.mutex until))
          >> read_key)
        w
  take_key until false holder w =
      (set_mutex (record w.mutex { lockstring = none }) >> return_ holder) w

  -- `if holder == self._lockstring`
  when_mine : Exec World (Option Lease) → Option Lease → Exec World (Option Lease)
  when_mine call holder w = if eq_string holder w.mutex.lockstring then call w else (ok holder, w)

  write_again : Exec World (Option Lease)
  write_again w = (set_key w.mutex.lockstring >> read_key) w

  hold_if_mine : Option Lease → Exec World Bool
  hold_if_mine holder w =
      if eq_string holder w.mutex.lockstring
      then (ok true, record w { mutex = record w.mutex { is_locked = 1 } })
      else (ok false, w)

  -- One round of the loop of `lock`: whether the mutex is held now.
  pub try_lock : ℕ → ℕ → Exec World Bool
  try_lock lease_time now = get_key >>= λ holder.
      take_key (now + lease_time) (is_free now holder) holder >>= λ holder.
      when_mine (read_key >>= when_mine write_again) holder >>= λ holder. hold_if_mine holder

  go_on : (ℕ → Exec World Bool) → Bool → Exec World Bool
  go_on next true = return_ true
  go_on next false = sleep 250000 >> (get_now >>= next)

  -- The loop of `lock`; `false` is a loop that is still going on.
  pub acquire_lock : ℕ → ℕ → ℕ → ℕ → Exec World Bool
  acquire_lock zero lease_time endtime now =
      if ltb now endtime then return_ false else raise mutex_timeout_error
  acquire_lock (suc fuel) lease_time endtime now =
      let next = acquire_lock fuel lease_time endtime in
      if ltb now endtime then try_lock lease_time now >>= go_on next else raise mutex_timeout_error

  pub lock_anew : ℕ → ℕ → ℕ → Exec World Bool
  lock_anew fuel timeout lease_time =
      get_now >>= λ now. acquire_lock fuel lease_time (now + timeout) now

  renew : ℕ → ℕ → Exec World Bool
  renew lease_time now w =
      (set_mutex (record w.mutex {
        end_lease = some (now + lease_time);
        lockstring = some (lease_of w.mutex (now + lease_time));
      })
          >> set_key (some (lease_of w.mutex (now + lease_time)))
          >> count_down (suc w.mutex.is_locked)
          >> return_ true)
        w

  lock_again : ℕ → ℕ → ℕ → Option ℕ → ℕ → Exec World Bool
  lock_again fuel timeout lease_time none now = raise type_error
  lock_again fuel timeout lease_time (some until) now =
      if ltb until now || ltb (seconds_past until now) 1
      then fully_unlock >> lock_anew fuel timeout lease_time
      else renew lease_time now

  -- `Mutex.lock`, with the times given; `false` is a call that is still going on.
  pub lock : ℕ → ℕ → ℕ → Exec World Bool
  lock fuel timeout lease_time = is_locked >>= λ held. λ w.
      (if held
          then get_now >>= lock_again fuel timeout lease_time w.mutex.end_lease
          else lock_anew fuel timeout lease_time)
        w

  -- The constructor, which locks at once.
  pub new_mutex : ℕ → ℕ → ℕ → ℕ → Exec World Bool
  new_mutex secret fuel timeout lease_time =
      set_mutex (record { secret = secret; is_locked = 0; lockstring = none; end_lease = none })
      >> lock fuel timeout lease_time

  remaining : Option ℕ → ℕ → Exec World ℕ
  remaining none now = raise type_error
  remaining (some until) now =
      return_ (if ltb now until then (until - now) % 86400000000 / 1000000 else 0)

  -- `Mutex.seconds_remaining_on_lease`
  pub seconds_remaining_on_lease : Exec World ℕ
  seconds_remaining_on_lease = is_locked >>= λ held.
      λ w. (if held then get_now >>= remaining w.mutex.end_lease else return_ 0) w
