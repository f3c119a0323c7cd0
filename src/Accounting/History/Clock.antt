-- ===== src/Accounting/History/Clock.antt =====
-- `_get_safe_now` of Acquire/Accounting/_account.py: the time at which a transaction is recorded.
-- The clock and the sleep are parameters: the readings of the clock, one for each call.
use Prim.{absurd}
use mathlib.Core.Path.{subst}
use mathlib.Core.Option.{some-injective}
use acquire.Base.{
  ℕ, zero, suc, ◌+◌, ◌*◌, ◌/◌, ◌%◌, ◌≤◌, ◌<◌, ◌≡◌, ◌≢◌, refl, sym, ◌∙◌, inl, inr, ◌||◌, ◌&&◌, Bool,
  true, false, Option, none, some, arith, if◌then◌else◌, ◌==◌, ltb, leb, Bool-cases,
}
use acquire.Accounting.History.{hour_length}

-- Minute 59 from second 58 on, and the first ten microseconds of an hour.
is_dangerous : ℕ → Bool
is_dangerous now =
    now / 60000000 % 60 == 59 && leb 58 (now / 1000000 % 60)
    || now / 60000000 % 60 == 0 && now / 1000000 % 60 == 0 && ltb (now % 1000000) 10

-- A clock that stands still is taken to have gone on by a second.
moved_on : ℕ → ℕ → ℕ
moved_on now new_now = if new_now == now then now + 1000000 else new_now

-- The loop, with the number of readings taken so far. `none` is a loop that is still going on.
wait : (ℕ → ℕ) → ℕ → ℕ → ℕ → Option ℕ
wait clock zero taken now = none
wait clock (suc fuel) taken now =
    let waited = wait clock fuel (suc taken) (moved_on now (clock taken)) in
    if is_dangerous now then waited else some now

-- `_get_safe_now`
pub get_safe_now : (ℕ → ℕ) → ℕ → Option ℕ
get_safe_now clock fuel = wait clock fuel 1 (clock 0)

-- The microseconds to the end of the dangerous times: 2000010 from their start.
left : ℕ → ℕ
left now = (now + 2000000) % hour_length

danger : (now : ℕ) → is_dangerous now ≡ true → left now < 2000010
unfolding is_dangerous left
danger now h = ground (arith, h)

left_later :
    (now later : ℕ)
    → left now < 2000010
    → now + 250000 ≤ later
    → later ≤ now + 1000000
    → left now + 250000 ≤ left later
unfolding left
left_later now later low h k = omega (arith, low, h, k)

-- What `_get_safe_now` returns is never the top of an hour.
off_hour : (now : ℕ) → is_dangerous now ≡ false → now % hour_length ≢ 0
unfolding is_dangerous
off_hour now h = ground (arith, h)

wait_safe :
    (clock : ℕ → ℕ) (fuel taken now : ℕ)
    → is_dangerous now ≡ false
    → wait clock (suc fuel) taken now ≡ some now
unfolding wait
wait_safe clock fuel taken now h = rw (h, wait) refl

wait_dangerous :
    (clock : ℕ → ℕ) (fuel taken now : ℕ)
    → is_dangerous now ≡ true
    → wait clock (suc fuel) taken now ≡ wait clock fuel (suc taken) (moved_on now (clock taken))
unfolding wait
wait_dangerous clock fuel taken now h = rw (h, wait) refl

some_not_none : {t : ℕ} → none ≢ some t
some_not_none p = cc

wait_off_hour :
    (clock : ℕ → ℕ) (fuel taken now : ℕ) {t : ℕ}
    → wait clock fuel taken now ≡ some t
    → t % hour_length ≢ 0
wait_off_hour clock zero taken now {t} h = absurd (some_not_none {t = t} (unfold wait in h))
wait_off_hour clock (suc fuel) taken now {t} h = elim (Bool-cases (is_dangerous now)) [
  | inl e ↦
      wait_off_hour clock fuel (suc taken) (moved_on now (clock taken))
        (sym (wait_dangerous clock fuel taken now e) ∙ h)
  | inr e ↦
      let same : now ≡ t = some-injective now t (sym (wait_safe clock fuel taken now e) ∙ h) in
      subst (λ s. s % hour_length ≢ 0) same (off_hour now e)
]

moved_on-later : (now later : ℕ) → now + 250000 ≤ later → moved_on now later ≡ later
unfolding moved_on
moved_on-later now later h = ground (arith, h)

module _ (clock : ℕ → ℕ) (slow : (i : ℕ) → clock i + 250000 ≤ clock (suc i))
    (fast : (i : ℕ) → clock (suc i) ≤ clock i + 1000000) where
  -- Enough rounds for what is left of the dangerous times, a quarter of a second each.
  wait-returns :
      (n i : ℕ)
      → 2000010 ≤ left (clock i) + 250000 * n
      → (t : ℕ) × (wait clock (suc n) (suc i) (clock i) ≡ some t)
  wait-returns zero i h = elim (Bool-cases (is_dangerous (clock i))) [
    | inr e ↦ (clock i, wait_safe clock zero (suc i) (clock i) e)
    | inl e ↦ absurd (omega (arith, h, danger (clock i) e))
  ]
  wait-returns (suc n) i h = elim (Bool-cases (is_dangerous (clock i))) [
    | inr e ↦ (clock i, wait_safe clock (suc n) (suc i) (clock i) e)
    | inl e ↦
        let later : left (clock i) + 250000 ≤ left (clock (suc i)) =
          left_later (clock i) (clock (suc i)) (danger (clock i) e) (slow i) (fast i) in
        rw
          (
            wait_dangerous clock (suc n) (suc i) (clock i) e,
            moved_on-later (clock i) (clock (suc i)) (slow i),
          )
          (wait-returns n (suc i) (omega (arith, h, later)))
  ]

  -- Where the clock goes on by a quarter of a second up to a second from each reading to the next,
  -- `_get_safe_now` returns after at most ten readings, and with a time that is not the top of an
  -- hour.
  pub get_safe_now-returns : (t : ℕ) × (get_safe_now clock 10 ≡ some t) × (t % hour_length ≢ 0)
  unfolding get_safe_now
  get_safe_now-returns =
      let (t, returned) = wait-returns 9 0 (omega arith) in
      (t, returned, wait_off_hour clock 10 1 (clock 0) returned)
