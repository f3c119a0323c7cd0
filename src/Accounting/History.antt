-- ===== src/Accounting/History.antt =====
-- Acquire/Accounting/_account.py: the transactions of an account, the balances that are stored by
-- the hour, and the balance at a time. A time is in microseconds from the beginning of year 1.
pub mod Clock
pub mod Between
pub mod Stored
pub mod Consistent
mod Last
pub mod Hourly
use acquire.Base.{
  ℕ, zero, suc, ◌+◌, ◌-◌, ◌*◌, ◌/◌, ◌%◌, Bool, true, false, Option, none, some, List, [], ◌∷◌, ◌++◌,
  ◌&&◌, if◌then◌else◌, ◌==◌, ltb, leb, filter, find,
}
use acquire.Base.Result.{Result, ok, err, ◌>>=◌, overflow_error, object_store_error}
use acquire.Accounting.Formats.{Formats, create_decimal}
use acquire.Accounting.TransactionInfo.{TransactionInfo}
use acquire.Accounting.Balance.{Balance, zero_balance, add_balance, sum_transactions}

abbrev pub hour_length : ℕ
hour_length = 3600000000

abbrev pub day_length : ℕ
day_length = 86400000000

-- An entry of `_last_update`.
pub record LastUpdate : Type 0 where
  pub hourly_balance : Balance
  pub last_update_time : ℕ
  pub last_update_balance : Balance

-- What belongs to an account: its transactions and hourly balances in the object store, and the
-- `_last_update` of the `Account` object. The latter two are keyed by the number of the hour.
pub record History : Type 0 where
  pub transactions : List TransactionInfo
  pub balances : List (ℕ × Balance)
  pub last_update : List (ℕ × LastUpdate)

-- Midnight ends the day before. This is the day after the last one of the search.
end_of_days : ℕ → ℕ
end_of_days end = if end % day_length == 0 then end / day_length else suc (end / day_length)

pub is_between : ℕ → ℕ → TransactionInfo → Bool
is_between start end t = ltb start t.datetime && leb t.datetime end

-- The keys of one day are those with its date as their prefix.
is_on_day : ℕ → TransactionInfo → Bool
is_on_day day t = t.datetime / day_length == day

search_days : List TransactionInfo → ℕ → ℕ → ℕ → ℕ → List TransactionInfo
search_days ts start end day zero = []
search_days ts start end day (suc n) =
    filter (is_between start end) (filter (is_on_day day) ts)
    ++ search_days ts start end (suc day) n

-- `_get_transactions_between`
pub get_transactions_between : List TransactionInfo → ℕ → ℕ → List TransactionInfo
unfolding end_of_days
get_transactions_between ts start end =
    let start_day = start / day_length in
    if ltb (end_of_days end) (start_day + 8)
    then search_days ts start end start_day (end_of_days end - start_day)
    else filter (is_between start end) ts

-- `Balance.from_data` of what `to_data` wrote: each number is read as a float is, and may be refused.
unfoldable pub load_balance : Formats → Balance → Result Balance
unfolding create_decimal
load_balance f b = create_decimal f b.balance >>= λ balance.
    create_decimal f b.liability >>= λ liability. create_decimal f b.receivable >>= λ receivable.
    ok (record { balance = balance; liability = liability; receivable = receivable })

later : ℕ → Option ℕ → ℕ
later hour none = hour
later hour (some k) = if ltb hour k then k else hour

-- The last of the sorted keys with a prefix.
latest : (ℕ → Bool) → List (ℕ × Balance) → Option ℕ
latest p [] = none
latest p ((hour, b) ∷ bs) =
    let rest = latest p bs in if p hour then some (later hour rest) else rest

module _ (f : Formats) (month_of_day : ℕ → ℕ) where
  is_hour_of_day : ℕ → ℕ → Bool
  is_hour_of_day day hour = hour / 24 == day

  is_hour_of_month : ℕ → ℕ → Bool
  is_hour_of_month month hour = month_of_day (hour / 24) == month

  -- The loop over the months before. The month before the first one raises.
  find_in_months : List (ℕ × Balance) → ℕ → ℕ → Result (Option ℕ)
  find_in_months bs month zero = ok none
  find_in_months bs zero (suc n) = err overflow_error
  find_in_months bs (suc month) (suc n) =
      let rest = find_in_months bs month n in
      elim (latest (is_hour_of_month month) bs) [ none ↦ rest | some hour ↦ ok (some hour) ]

  find_since_yesterday : List (ℕ × Balance) → ℕ → Result (Option ℕ)
  find_since_yesterday bs zero = err overflow_error
  find_since_yesterday bs (suc yesterday) =
      let month = month_of_day yesterday in
      let earlier = find_in_months bs month 6 in
      elim (latest (is_hour_of_day yesterday) bs) [
        | some hour ↦ ok (some hour)
        | none ↦ elim (latest (is_hour_of_month month) bs) [
          | some hour ↦ ok (some hour)
          | none ↦ earlier
        ]
      ]

  pub find_since_today : List (ℕ × Balance) → ℕ → Result (Option ℕ)
  find_since_today bs today =
      let earlier = find_since_yesterday bs today in
      elim (latest (is_hour_of_day today) bs) [ none ↦ earlier | some hour ↦ ok (some hour) ]

  -- Without a key, an empty balance is stored for the beginning of time.
  or_beginning : List (ℕ × Balance) → Option ℕ → ℕ × List (ℕ × Balance)
  or_beginning bs (some hour) = (hour, bs)
  or_beginning bs none = (0, (0, zero_balance) ∷ bs)

  -- `_find_last_balance_key`. Its last search is left out: it repeats the search of the last month,
  -- which found nothing.
  find_last_balance_key : List (ℕ × Balance) → ℕ → Result (ℕ × List (ℕ × Balance))
  find_last_balance_key bs now =
      find_since_today bs (now / day_length) >>= λ key. ok (or_beginning bs key)

  or_missing : Option Balance → Result Balance
  or_missing none = err object_store_error
  or_missing (some b) = ok b

  -- The balance at an hour, from the last balance that is stored.
  from_last_balance :
      List TransactionInfo → ℕ → ℕ × List (ℕ × Balance) → Result (Balance × List (ℕ × Balance))
  from_last_balance ts now (last, bs) =
      or_missing (find last bs) >>= load_balance f >>= λ last_balance.
      sum_transactions
        (get_transactions_between ts (last * hour_length) (now / hour_length * hour_length))
      >>= λ total. ok (add_balance last_balance total, bs)

  -- A balance of the hour that cannot be read is computed again.
  loaded_or :
      Result (Balance × List (ℕ × Balance))
      → List (ℕ × Balance)
      → Result Balance
      → Result (Balance × List (ℕ × Balance))
  loaded_or computed bs (ok b) = ok (b, bs)
  loaded_or computed bs (err why) = computed

  pub stored_or_computed : History → ℕ → Option Balance → Result (Balance × List (ℕ × Balance))
  unfolding load_balance
  stored_or_computed h now none =
      find_last_balance_key h.balances now >>= from_last_balance h.transactions now
  stored_or_computed h now (some b) =
      loaded_or (find_last_balance_key h.balances now >>= from_last_balance h.transactions now)
        h.balances (load_balance f b)

  -- The text that `to_data` writes of a number is exact.
  store_hourly : History → ℕ → Balance × List (ℕ × Balance) → Balance × History
  store_hourly h now (b, bs) =
      let hour = now / hour_length in
      (
        b,
        record {
          transactions = h.transactions;
          balances = (hour, b) ∷ bs;
          last_update =
              (
                hour,
                record {
                  hourly_balance = b;
                  last_update_time = hour * hour_length;
                  last_update_balance = b;
                },
              )
              ∷ h.last_update;
        },
      )

  -- `_get_hourly_balance`
  pub get_hourly_balance : History → ℕ → Result (Balance × History)
  get_hourly_balance h now = elim (find (now / hour_length) h.last_update) [
    | some u ↦ ok (u.hourly_balance, h)
    | none ↦ stored_or_computed h now (find (now / hour_length) h.balances) >>= λ r.
        ok (store_hourly h now r)
  ]

  -- The update to start from, and the history that goes with it.
  start_update : History → ℕ → Option LastUpdate → Result (LastUpdate × History)
  start_update h now (some u) = ok (u, h)
  start_update h now none = get_hourly_balance h now >>= λ (b, h'). ok (
    record {
      hourly_balance = b;
      last_update_time = now / hour_length * hour_length;
      last_update_balance = b;
    },
    h',
  )

  -- An update of the future is replaced by the hour's balance.
  not_future : ℕ → LastUpdate → LastUpdate
  not_future now u =
      if leb now u.last_update_time
      then record {
        hourly_balance = u.hourly_balance;
        last_update_time = now / hour_length * hour_length;
        last_update_balance = u.hourly_balance;
      }
      else u

  -- `balance` from an update on.
  finish_balance : ℕ → LastUpdate → History → Result (Balance × History)
  finish_balance now u h =
      sum_transactions (get_transactions_between h.transactions u.last_update_time now) >>= λ sum.
      let total = add_balance u.last_update_balance sum in
      ok (
        total,
        record {
          transactions = h.transactions;
          balances = h.balances;
          last_update =
              (
                now / hour_length,
                record {
                  hourly_balance = u.hourly_balance;
                  last_update_time = now;
                  last_update_balance = total;
                },
              )
              ∷ h.last_update;
        },
      )

  -- `balance`
  pub balance : History → ℕ → Result (Balance × History)
  balance h now = start_update h now (find (now / hour_length) h.last_update) >>= λ (u, h').
      finish_balance now (not_future now u) h'
