-- ===== src/Accounting/History/Hourly.antt =====
-- `_get_hourly_balance` and `balance` of Acquire/Accounting/_account.py: they return the balance of
-- the transactions, and what they store is right.
use mathlib.Core.Path.{subst}
use acquire.Base.{
  ℕ, suc, ◌*◌, ◌/◌, ◌≤◌, ◌≡◌, refl, ap, sym, ◌∙◌, inl, inr, Option, none, some, List, ◌∷◌, arith,
  leb, find, Bool-cases, Option-cases,
}
use acquire.Base.Result.{ok}
use acquire.Accounting.Formats.{Formats, IsFormats}
use acquire.Accounting.TransactionInfo.{TransactionInfo}
use acquire.Accounting.Balance.{Balance, add_balance}
use acquire.Accounting.Balance.Adding.{total_change}
use acquire.Base.Find.{find-All}
use acquire.Accounting.History.{
  hour_length, day_length, LastUpdate, History, get_transactions_between, store_hourly,
  get_hourly_balance, start_update, not_future, finish_balance, balance,
}
use acquire.Accounting.History.Consistent.{
  balance_at, balance_at_later, IsUpdate, KeysUntil, IsConsistent,
}
use acquire.Accounting.History.Last.{sum_between, stored_or_computed-Stores}

module _ (f : Formats) (is_formats : IsFormats f) (month_of_day : ℕ → ℕ) where
  -- The history after a call, which has the same transactions and is consistent again.
  abbrev pub IsContinued : History → ℕ → History → Type 0
  IsContinued h hour h' =
      IsConsistent h' × (h'.transactions ≡ h.transactions) × KeysUntil hour h'.balances

  get_hourly_balance-IsContinued :
      (h : History) (now yesterday : ℕ)
      → IsConsistent h
      → KeysUntil (now / hour_length) h.balances
      → now / day_length ≡ suc yesterday
      → 6 ≤ month_of_day yesterday
      → (h' : History) × (get_hourly_balance f month_of_day h now
          ≡ ok (balance_at h.transactions (now / hour_length * hour_length), h'))
        × IsContinued h (now / hour_length) h'
  unfolding get_hourly_balance store_hourly
  get_hourly_balance-IsContinued h now yesterday c until is_yesterday late =
      elim (Option-cases (find (now / hour_length) h.last_update)) [
        | inl missing ↦
            let (b, bs, computed, right, right', until') =
              stored_or_computed-Stores f is_formats month_of_day h now yesterday
                (find (now / hour_length) h.balances) c until is_yesterday late
                (λ b.
                  find-All (λ k x. x ≡ balance_at h.transactions (k * hour_length))
                    (now / hour_length) h.balances c.balances_right) in
            (
              (store_hourly f month_of_day h now (b, bs)).1,
              rw (missing, computed, get_hourly_balance)
                  (ap (λ (x : Balance). ok (x, (store_hourly f month_of_day h now (b, bs)).1))
                    right),
              (
                record {
                  off_hour = c.off_hour;
                  summable = c.summable;
                  small = c.small;
                  balances_right = (right, right');
                  updates_right = ((right, right, omega arith), c.updates_right);
                },
                refl,
                (omega arith, until'),
              ),
            )
        | inr (u, found) ↦
            let is_update : IsUpdate h.transactions (now / hour_length) u =
              find-All (λ k x. IsUpdate h.transactions k x) (now / hour_length) h.last_update
                c.updates_right found in
            (
              h,
              rw (found, get_hourly_balance) (ap (λ (x : Balance). ok (x, h)) is_update.0),
              (c, refl, until),
            )
      ]

  start_update-IsUpdate :
      (h : History) (now yesterday : ℕ) (o : Option LastUpdate)
      → IsConsistent h
      → KeysUntil (now / hour_length) h.balances
      → now / day_length ≡ suc yesterday
      → 6 ≤ month_of_day yesterday
      → ((u : LastUpdate) → o ≡ some u → IsUpdate h.transactions (now / hour_length) u)
      → (u : LastUpdate) × (h' : History) × (start_update f month_of_day h now o ≡ ok (u, h'))
        × IsUpdate h.transactions (now / hour_length) u
        × IsContinued h (now / hour_length) h'
  unfolding start_update
  start_update-IsUpdate h now yesterday (some u) c until is_yesterday late right =
      (u, h, refl, right u refl, (c, refl, until))
  start_update-IsUpdate h now yesterday none c until is_yesterday late right =
      let (h', computed, continued) =
        get_hourly_balance-IsContinued h now yesterday c until is_yesterday late in
      let u : LastUpdate = record {
        hourly_balance = balance_at h.transactions (now / hour_length * hour_length);
        last_update_time = now / hour_length * hour_length;
        last_update_balance = balance_at h.transactions (now / hour_length * hour_length);
      } in
      (u, h', rw computed refl, (refl, refl, omega arith), continued)

  not_future-IsStart :
      (ts : List TransactionInfo) (now : ℕ) (u : LastUpdate)
      → IsUpdate ts (now / hour_length) u
      → IsUpdate ts (now / hour_length) (not_future f month_of_day now u)
        × ((not_future f month_of_day now u).last_update_time ≤ now)
  unfolding not_future
  not_future-IsStart ts now u h = elim (Bool-cases (leb now u.last_update_time)) [
    | inl e ↦ rw (e, not_future) ((h.0, h.0, omega arith), omega arith)
    | inr e ↦ rw (e, not_future) (h, ground (arith, e))
  ]

  finish_balance-IsContinued :
      (h : History) (now : ℕ) (u : LastUpdate)
      → IsConsistent h
      → KeysUntil (now / hour_length) h.balances
      → IsUpdate h.transactions (now / hour_length) u
      → u.last_update_time ≤ now
      → (h' : History) × (finish_balance f month_of_day now u h
          ≡ ok (balance_at h.transactions now, h'))
        × IsContinued h (now / hour_length) h'
  unfolding finish_balance
  finish_balance-IsContinued h now u c until is_update past =
      let ts = h.transactions in
      let right : add_balance u.last_update_balance
            (total_change (get_transactions_between ts u.last_update_time now))
          ≡ balance_at ts now =
        ap (λ x. add_balance x (total_change (get_transactions_between ts u.last_update_time now)))
          is_update.1
        ∙ balance_at_later ts u.last_update_time now c.off_hour past in
      let h' : History = record {
        transactions = ts;
        balances = h.balances;
        last_update =
            (
              now / hour_length,
              record {
                hourly_balance = u.hourly_balance;
                last_update_time = now;
                last_update_balance = balance_at ts now;
              },
            )
            ∷ h.last_update;
      } in
      (
        h',
        rw (sum_between ts u.last_update_time now c.summable, right) refl,
        (
          record {
            off_hour = c.off_hour;
            summable = c.summable;
            small = c.small;
            balances_right = c.balances_right;
            updates_right = ((is_update.0, refl, omega arith), c.updates_right);
          },
          refl,
          until,
        ),
      )

  -- Where a history is consistent, with small balances at all hours, no balance is stored for a later hour, and seven months of the
  -- calendar lie before the time, `balance` raises nothing and returns the changes of all
  -- transactions up to the time, from whatever it has cached; and the history is consistent again.
  pub balance-balance_at :
      (h : History) (now yesterday : ℕ)
      → IsConsistent h
      → KeysUntil (now / hour_length) h.balances
      → now / day_length ≡ suc yesterday
      → 6 ≤ month_of_day yesterday
      → (h' : History) × (balance f month_of_day h now ≡ ok (balance_at h.transactions now, h'))
        × IsContinued h (now / hour_length) h'
  unfolding balance
  balance-balance_at h now yesterday c until is_yesterday late =
      let hour = now / hour_length in
      let (u, h1, started, is_update, (c1, same, until1)) =
        start_update-IsUpdate h now yesterday (find hour h.last_update) c until is_yesterday late
          (λ u. find-All (λ k x. IsUpdate h.transactions k x) hour h.last_update c.updates_right) in
      let (is_start, past) =
        not_future-IsStart h1.transactions now u
          (subst (λ ts. IsUpdate ts hour u) (sym same) is_update) in
      let (h', finished, (c', same', until')) =
        finish_balance-IsContinued h1 now (not_future f month_of_day now u) c1 until1 is_start
          past in
      (
        h',
        rw started (finished ∙ ap (λ ts. ok (balance_at ts now, h')) same),
        (c', same' ∙ same, until'),
      )
