-- ===== src/Accounting/History/Last.antt =====
-- Acquire/Accounting/_account.py: the balance at an hour, stored or from the last stored balance.
use acquire.Base.{
  ℕ, suc, ◌*◌, ◌/◌, ◌≤◌, ◌≡◌, refl, ap, sym, subst, ◌∙◌, Option, none, some, List, arith, All,
}
use acquire.Base.Find.{find-All}
use acquire.Base.Result.{Result, ok}
use acquire.Accounting.Formats.{Formats, IsFormats, create_small}
use acquire.Accounting.TransactionInfo.{TransactionInfo}
use acquire.Accounting.Balance.{Balance, zero_balance, add_balance, sum_transactions}
use acquire.Accounting.Balance.Adding.{total_change, IsSummable, sum_transactions-change}
use acquire.Accounting.History.Between.{IsOffHour, All-get_transactions_between}
use acquire.Accounting.History.Stored.{HasKey, KeyOf, find_since_today-Finds}
use acquire.Accounting.History.{
  hour_length, day_length, History, get_transactions_between, find_last_balance_key, or_beginning,
  from_last_balance, or_missing, load_balance, loaded_or, stored_or_computed,
}
use acquire.Accounting.History.Consistent.{
  balance_at, balance_at_later, balance_at_beginning, AreSmall, AreBalances, KeysUntil,
  IsConsistent,
}

-- What is stored of the hours, with a hour's balance found in it or computed from it.
abbrev pub Stores : List TransactionInfo → ℕ → Result (Balance × List (ℕ × Balance)) → Type 0
Stores ts hour r =
    (b : Balance) × (bs : List (ℕ × Balance)) × (r ≡ ok (b, bs))
    × (b ≡ balance_at ts (hour * hour_length))
    × AreBalances ts bs
    × KeysUntil hour bs

pub sum_between :
    (ts : List TransactionInfo) (start end : ℕ)
    → All IsSummable ts
    → sum_transactions (get_transactions_between ts start end)
      ≡ ok (total_change (get_transactions_between ts start end))
sum_between ts start end h =
    sum_transactions-change _ (All-get_transactions_between IsSummable ts start end h)

module _ (f : Formats) (laws : IsFormats f) where
  -- A small balance is read back as it was written.
  load_balance_small : (b : Balance) → AreSmall b → load_balance f b ≡ ok b
  unfolding load_balance
  load_balance_small b h =
      rw
        (
          create_small f laws b.balance h.balance,
          create_small f laws b.liability h.liability,
          create_small f laws b.receivable h.receivable,
        )
        refl

module _ (f : Formats) (is_formats : IsFormats f) (month_of_day : ℕ → ℕ) where
  from_last_balance-Stores :
      (ts : List TransactionInfo) (now last : ℕ) (bs : List (ℕ × Balance))
      → All IsOffHour ts
      → All IsSummable ts
      → ((hour : ℕ) → AreSmall (balance_at ts (hour * hour_length)))
      → AreBalances ts bs
      → KeysUntil (now / hour_length) bs
      → HasKey bs last
      → Stores ts (now / hour_length) (from_last_balance f month_of_day ts now (last, bs))
  unfolding from_last_balance or_missing
  from_last_balance-Stores ts now last bs off summable small right until (b, found) =
      let start = last * hour_length in
      let end = now / hour_length * hour_length in
      let is_right : b ≡ balance_at ts start =
        find-All (λ k c. c ≡ balance_at ts (k * hour_length)) last bs right found in
      let is_until : last ≤ now / hour_length =
        find-All (λ k c. k ≤ now / hour_length) last bs until found in
      let loaded : load_balance f b ≡ ok b =
        load_balance_small f is_formats b (subst AreSmall (sym is_right) (small last)) in
      (
        _,
        bs,
        rw (found, or_missing, loaded, sum_between ts start end summable) refl,
        ap (λ x. add_balance x (total_change (get_transactions_between ts start end))) is_right
            ∙ balance_at_later ts start end off (omega (arith, is_until)),
        right,
        until,
      )

  abbrev IsKeyed : List TransactionInfo → ℕ → Result (ℕ × List (ℕ × Balance)) → Type 0
  IsKeyed ts hour r =
      (last : ℕ) × (bs : List (ℕ × Balance)) × (r ≡ ok (last, bs))
      × HasKey bs last
      × AreBalances ts bs
      × KeysUntil hour bs

  abbrev pub AreStored : List TransactionInfo → ℕ → ℕ × List (ℕ × Balance) → Type 0
  AreStored ts hour r = HasKey r.1 r.0 × AreBalances ts r.1 × KeysUntil hour r.1

  or_beginning-AreStored :
      (ts : List TransactionInfo) (hour : ℕ) (bs : List (ℕ × Balance)) (key : Option ℕ)
      → All IsOffHour ts
      → AreBalances ts bs
      → KeysUntil hour bs
      → KeyOf bs key
      → AreStored ts hour (or_beginning f month_of_day bs key)
  unfolding or_beginning
  or_beginning-AreStored ts hour bs none off right until h =
      ((zero_balance, refl), (sym (balance_at_beginning ts off), right), (omega arith, until))
  or_beginning-AreStored ts hour bs (some k) off right until h = (h, right, until)

  find_last_balance_key-IsKeyed :
      (ts : List TransactionInfo) (now yesterday : ℕ) (bs : List (ℕ × Balance))
      → All IsOffHour ts
      → AreBalances ts bs
      → KeysUntil (now / hour_length) bs
      → now / day_length ≡ suc yesterday
      → 6 ≤ month_of_day yesterday
      → IsKeyed ts (now / hour_length) (find_last_balance_key f month_of_day bs now)
  unfolding find_last_balance_key
  find_last_balance_key-IsKeyed ts now yesterday bs off right until is_yesterday late =
      let (key, found, h) =
        find_since_today-Finds f month_of_day bs (now / day_length) yesterday is_yesterday late in
      let stored = or_beginning-AreStored ts (now / hour_length) bs key off right until h in
      (
        (or_beginning f month_of_day bs key).0,
        (or_beginning f month_of_day bs key).1,
        rw found refl,
        stored.0,
        stored.1,
        stored.2,
      )

  pub stored_or_computed-Stores :
      (h : History) (now yesterday : ℕ) (o : Option Balance)
      → IsConsistent h
      → KeysUntil (now / hour_length) h.balances
      → now / day_length ≡ suc yesterday
      → 6 ≤ month_of_day yesterday
      → ((b : Balance)
          → o ≡ some b
          → b ≡ balance_at h.transactions (now / hour_length * hour_length))
      → Stores h.transactions (now / hour_length) (stored_or_computed f month_of_day h now o)
  unfolding stored_or_computed loaded_or
  stored_or_computed-Stores h now yesterday (some b) c until is_yesterday late right =
      let loaded : load_balance f b ≡ ok b =
        load_balance_small f is_formats b
          (subst AreSmall (sym (right b refl)) (c.small (now / hour_length))) in
      rw (loaded) (b, h.balances, refl, right b refl, c.balances_right, until)
  stored_or_computed-Stores h now yesterday none c until is_yesterday late right =
      let (last, bs, found, key, right', until') =
        find_last_balance_key-IsKeyed h.transactions now yesterday h.balances c.off_hour
          c.balances_right until is_yesterday late in
      rw found (
        from_last_balance-Stores h.transactions now last bs c.off_hour c.summable c.small right'
          until' key)
