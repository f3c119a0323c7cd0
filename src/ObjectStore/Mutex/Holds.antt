-- ===== src/ObjectStore/Mutex/Holds.antt =====
-- `Mutex.lock` of Acquire/ObjectStore/_mutex.py: what is true when it returns, whatever other clients do.
use Prim.{absurd}
use acquire.Base.{
  ℕ, zero, suc, ◌+◌, Bool, true, false, Option, none, some, ◌≡◌, ◌≢◌, ◌⊎◌, refl, ap, sym, ◌∙◌, inl,
  inr, Bool-cases, ◌==◌, ◌&&◌, ltb, arith,
}
use acquire.Base.Result.{ok}
use acquire.Base.Exec.{Exec, ◌>>=◌, ◌>>◌, Yields, seq-Yields, Yields-returned}
use acquire.ObjectStore.Mutex.{
  Lease, World, Surroundings, eq_string, is_free, set_mutex, lease_of, get_now, get_key, holder_of,
  read_key, set_key, take_key, when_mine, write_again, hold_if_mine, try_lock, go_on, acquire_lock,
  lock_anew, is_locked, lock, sleep,
}

eq_lease_sound : (a b : Lease) → (a.secret == b.secret && a.until == b.until) ≡ true → a ≡ b
eq_lease_sound a b h =
    let same_secret : a.secret ≡ b.secret = ground (arith, h) in
    let same_until : a.until ≡ b.until = ground (arith, h) in
    λ i. record { secret = same_secret i; until = same_until i }

eq_string_sound : (a b : Option Lease) → eq_string a b ≡ true → a ≡ b
unfolding eq_string
eq_string_sound none none h = refl
eq_string_sound (some a) (some b) h = ap (λ (x : Lease). some x) (eq_lease_sound a b h)
eq_string_sound none (some b) h = cc
eq_string_sound (some a) none h = cc

some_not_none : {l : Lease} → some l ≢ none
some_not_none h = cc

-- The client holds the mutex once, and the key has its lease.
abbrev pub IsHeld : ℕ → World → Type 0
IsHeld me w =
    (w.mutex.is_locked ≡ 1)
    × ((until : ℕ) × (w.key ≡ some (record { secret = me; until = until }))
        × (w.mutex.lockstring ≡ w.key)
        × (w.mutex.end_lease ≡ some until))

-- The client read the key last, and either has a lease or read someone's.
abbrev HasRead : ℕ → Option Lease → World → Type 0
HasRead me holder w =
    (holder ≡ w.key)
    × (w.mutex.secret ≡ me)
    × (((w.mutex.lockstring ≡ none) × ((l : Lease) × (holder ≡ some l)))
        ⊎ ((until : ℕ) × (w.mutex.lockstring ≡ some (record { secret = me; until = until }))
            × (w.mutex.end_lease ≡ some until)))

not_free :
    (now : ℕ) (holder : Option Lease) → is_free now holder ≡ false → (l : Lease) × (holder ≡ some l)
unfolding is_free
not_free now none h = cc
not_free now (some l) h = (l, refl)

module _ (s : Surroundings) (me : ℕ) where
  first_read :
      (w : World)
      → w.mutex.secret ≡ me
      → Yields (get_key s w) (λ holder w'. (holder ≡ w'.key) × (w'.mutex.secret ≡ me))
  unfolding get_key
  first_read w mine = (refl, mine)

  abbrev HasLease : World → Type 0
  HasLease w =
      (until : ℕ) × (w.mutex.lockstring ≡ some (record { secret = me; until = until }))
      × (w.mutex.end_lease ≡ some until)

  holder_of-HasRead :
      (holder : Option Lease) (w : World)
      → holder ≡ w.key
      → w.mutex.secret ≡ me
      → HasLease w
      → Yields (holder_of s holder w) (HasRead me)
  unfolding holder_of
  holder_of-HasRead none w read mine has = tt
  holder_of-HasRead (some l) w read mine has = (read, mine, inr has)

  -- A reading after the client wrote its lease, which raises where the key is missing by then.
  read_key-HasRead :
      (w : World) → w.mutex.secret ≡ me → HasLease w → Yields (read_key s w) (HasRead me)
  unfolding read_key get_key
  read_key-HasRead w mine has = holder_of-HasRead (s.others w.event w.key) _ refl mine has

  take_key-HasRead :
      (until now : ℕ) (b : Bool) (holder : Option Lease) (w : World)
      → is_free now holder ≡ b
      → holder ≡ w.key
      → w.mutex.secret ≡ me
      → Yields (take_key s until b holder w) (HasRead me)
  unfolding take_key set_mutex set_key lease_of
  take_key-HasRead until now true holder w free read mine =
      read_key-HasRead
        (record w {
          mutex = record w.mutex {
            lockstring = some (lease_of w.mutex until);
            end_lease = some until;
          };
          key = some (lease_of w.mutex until);
          event = suc w.event;
        })
        mine (until, ap (λ x. some (record { secret = x; until = until })) mine, refl)
  take_key-HasRead until now false holder w free read mine =
      (read, mine, inl (refl, not_free now holder free))

  set_read-HasRead :
      (o holder : Option Lease) (w : World)
      → o ≡ w.mutex.lockstring
      → HasRead me holder w
      → Yields ((set_key s o >> read_key s) w) (HasRead me)
  unfolding set_key
  set_read-HasRead none holder w same has = tt
  set_read-HasRead (some l) holder w same (read, mine, inl (no_lease, _)) =
      absurd (some_not_none (same ∙ no_lease))
  set_read-HasRead (some l) holder w same (read, mine, inr has) =
      read_key-HasRead (record w { key = some l; event = suc w.event }) mine has

  write_again-HasRead :
      (holder : Option Lease) (w : World)
      → HasRead me holder w
      → Yields (write_again s w) (HasRead me)
  unfolding write_again
  write_again-HasRead holder w has = set_read-HasRead w.mutex.lockstring holder w refl has

  when_mine-HasRead :
      (call : Exec World (Option Lease)) (holder : Option Lease) (w : World)
      → HasRead me holder w
      → (eq_string holder w.mutex.lockstring ≡ true → Yields (call w) (HasRead me))
      → Yields (when_mine s call holder w) (HasRead me)
  unfolding when_mine
  when_mine-HasRead call holder w has k = elim (Bool-cases (eq_string holder w.mutex.lockstring)) [
    | inl e ↦ rw (e) (k e)
    | inr e ↦ rw (e) has
  ]

  read_again-HasRead :
      (holder : Option Lease) (w : World)
      → HasRead me holder w
      → eq_string holder w.mutex.lockstring ≡ true
      → Yields ((read_key s >>= when_mine s (write_again s)) w) (HasRead me)
  read_again-HasRead holder w (read, mine, inl (no_lease, (l, is_l))) e =
      absurd (some_not_none (sym is_l ∙ eq_string_sound holder w.mutex.lockstring e ∙ no_lease))
  read_again-HasRead holder w (read, mine, inr has) e =
      seq-Yields (read_key s) (when_mine s (write_again s)) w (HasRead me) (HasRead me)
        (read_key-HasRead w mine has)
        λ holder w' has'.
          when_mine-HasRead (write_again s) holder w' has' (λ _. write_again-HasRead holder w' has')

  -- A round that takes the mutex ends with it held.
  abbrev pub Tried : Bool → World → Type 0
  Tried true w = IsHeld me w
  Tried false w = w.mutex.secret ≡ me

  hold_if_mine-Tried :
      (holder : Option Lease) (w : World)
      → HasRead me holder w
      → Yields (hold_if_mine s holder w) Tried
  unfolding hold_if_mine
  hold_if_mine-Tried holder w (read, mine, has) =
      elim (Bool-cases (eq_string holder w.mutex.lockstring)) [
        | inl e ↦ rw (e) (elim has [
          | inl (no_lease, (l, is_l)) ↦
              absurd
                (some_not_none (sym is_l ∙ eq_string_sound holder w.mutex.lockstring e ∙ no_lease))
          | inr (until, lease, end) ↦
              let same = eq_string_sound holder w.mutex.lockstring e in
              (refl, (until, sym read ∙ same ∙ lease, sym same ∙ read, end))
        ])
        | inr e ↦ rw (e) mine
      ]

  try_lock-Tried :
      (lease_time now : ℕ) (w : World)
      → w.mutex.secret ≡ me
      → Yields (try_lock s lease_time now w) Tried
  unfolding try_lock
  try_lock-Tried lease_time now w mine =
      seq-Yields (get_key s) _ w (λ holder w'. (holder ≡ w'.key) × (w'.mutex.secret ≡ me)) Tried
        (first_read w mine)
        λ holder w₁ h.
          seq-Yields (take_key s (now + lease_time) (is_free now holder) holder) _ w₁ (HasRead me)
            Tried
            (take_key-HasRead (now + lease_time) now (is_free now holder) holder w₁ refl h.0 h.1)
            λ holder₂ w₂ h₂.
              seq-Yields (when_mine s (read_key s >>= when_mine s (write_again s)) holder₂) _ w₂
                (HasRead me) Tried
                (when_mine-HasRead (read_key s >>= when_mine s (write_again s)) holder₂ w₂ h₂
                  (read_again-HasRead holder₂ w₂ h₂))
                λ holder₃ w₃ h₃. hold_if_mine-Tried holder₃ w₃ h₃

  acquire_lock-Tried :
      (fuel lease_time endtime now : ℕ) (w : World)
      → w.mutex.secret ≡ me
      → Yields (acquire_lock s fuel lease_time endtime now w) Tried
  unfolding acquire_lock go_on sleep get_now
  acquire_lock-Tried zero lease_time endtime now w mine = elim (Bool-cases (ltb now endtime)) [
    | inl e ↦ rw (e) mine
    | inr e ↦ rw (e) tt
  ]
  acquire_lock-Tried (suc fuel) lease_time endtime now w mine =
      elim (Bool-cases (ltb now endtime)) [
        | inl e ↦ rw (e) (
            seq-Yields (try_lock s lease_time now)
              (go_on s (acquire_lock s fuel lease_time endtime)) w Tried Tried
              (try_lock-Tried lease_time now w mine)
              (λ held w₁ h.
                elim held
                    as (λ b.
                      Tried b w₁
                      → Yields (go_on s (acquire_lock s fuel lease_time endtime) b w₁) Tried) [
                        | true ↦ λ h. h
                        | false ↦ λ h. acquire_lock-Tried fuel lease_time endtime _ _ h
                      ]
                  h))
        | inr e ↦ rw (e) tt
      ]

  lock_anew-Tried :
      (fuel timeout lease_time : ℕ) (w : World)
      → w.mutex.secret ≡ me
      → Yields (lock_anew s fuel timeout lease_time w) Tried
  unfolding lock_anew get_now
  lock_anew-Tried fuel timeout lease_time w mine = acquire_lock-Tried fuel lease_time _ _ _ mine

-- A mutex that is not locked goes to the loop at once.
pub lock-unlocked :
    (s : Surroundings) (fuel timeout lease_time : ℕ) (w : World)
    → w.mutex.is_locked ≡ 0
    → lock s fuel timeout lease_time w ≡ lock_anew s fuel timeout lease_time w
unfolding lock is_locked
lock-unlocked s fuel timeout lease_time w free = rw (free) refl

-- A mutex that was not locked is held once when `lock` returns, and the key had its lease at the last reading,
-- whatever the clock says and other clients do to the key before each operation.
pub lock-IsHeld :
    (s : Surroundings) (fuel timeout lease_time : ℕ) (w : World) {w' : World}
    → w.mutex.is_locked ≡ 0
    → lock s fuel timeout lease_time w ≡ (ok true, w')
    → IsHeld w.mutex.secret w'
lock-IsHeld s fuel timeout lease_time w free returned =
    Yields-returned (lock_anew s fuel timeout lease_time w) (Tried s w.mutex.secret)
      (sym (lock-unlocked s fuel timeout lease_time w free) ∙ returned)
      (lock_anew-Tried s w.mutex.secret fuel timeout lease_time w refl)
