-- ===== src/Accounting/History/Consistent.antt =====
-- Acquire/Accounting/_account.py: the balance at a time as the sum of the transactions, and what it
-- means that stored balances are right.
use acquire.Base.{ℕ, ◌+◌, ◌*◌, ◌≤◌, ◌≡◌, ap, sym, ◌∙◌, Bool, List, arith, All, leb}
use acquire.Accounting.Formats.{IsSmall}
use acquire.Accounting.TransactionInfo.{TransactionInfo}
use acquire.Accounting.Balance.{Balance, zero_balance, add_balance}
use acquire.Accounting.Balance.Adding.{total_change, IsSummable}
use acquire.Accounting.Balance.Changes.{bit, change_if, change_if_split, change_if_nothing}
use acquire.Accounting.History.Between.{IsOffHour, get_transactions_between-change, All-of, All-map}
use acquire.Accounting.History.{
  hour_length, LastUpdate, History, is_between, get_transactions_between,
}

abbrev pub is_until : ℕ → TransactionInfo → Bool
is_until time t = leb t.datetime time

-- The balance at a time, from nothing but the transactions: the changes of all of them until then.
abbrev pub balance_at : List TransactionInfo → ℕ → Balance
balance_at ts time = change_if (is_until time) ts

until_split :
    (start end : ℕ) (t : TransactionInfo)
    → start ≤ end
    → bit (is_until start t) + bit (is_between start end t) ≡ bit (is_until end t)
unfolding is_between
until_split start end t h = ground (arith, h)

pub balance_at_later :
    (ts : List TransactionInfo) (start end : ℕ)
    → All IsOffHour ts
    → start ≤ end
    → add_balance (balance_at ts start) (total_change (get_transactions_between ts start end))
      ≡ balance_at ts end
balance_at_later ts start end off h =
    ap (add_balance (balance_at ts start)) (get_transactions_between-change ts start end off)
    ∙ sym (
        change_if_split (is_until start) (is_between start end) (is_until end) ts
          (All-of (λ t. until_split start end t h) ts))

pub balance_at_beginning :
    (ts : List TransactionInfo) → All IsOffHour ts → balance_at ts 0 ≡ zero_balance
balance_at_beginning ts off =
    change_if_nothing (is_until 0) ts (All-map (λ t h. ground (arith, h)) ts off)

-- What is stored of the hours is right.
abbrev pub AreBalances : List TransactionInfo → List (ℕ × Balance) → Type 0
AreBalances ts bs = All (λ kb. kb.1 ≡ balance_at ts (kb.0 * hour_length)) bs

abbrev pub IsUpdate : List TransactionInfo → ℕ → LastUpdate → Type 0
IsUpdate ts hour u =
    (u.hourly_balance ≡ balance_at ts (hour * hour_length))
    × (u.last_update_balance ≡ balance_at ts u.last_update_time)
    × (hour * hour_length ≤ u.last_update_time)

abbrev pub AreUpdates : List TransactionInfo → List (ℕ × LastUpdate) → Type 0
AreUpdates ts us = All (λ ku. IsUpdate ts ku.0 ku.1) us

-- A balance that survives the writing to the object store.
pub record AreSmall (b : Balance) : Type 0 where
  pub balance : IsSmall b.balance
  pub liability : IsSmall b.liability
  pub receivable : IsSmall b.receivable

-- Every transaction is off the hour and can be summed, the balances at all hours are small, and all that
-- is stored is right.
pub record IsConsistent (h : History) : Type 0 where
  pub off_hour : All IsOffHour h.transactions
  pub summable : All IsSummable h.transactions
  pub small : (hour : ℕ) → AreSmall (balance_at h.transactions (hour * hour_length))
  pub balances_right : AreBalances h.transactions h.balances
  pub updates_right : AreUpdates h.transactions h.last_update

abbrev pub KeysUntil : ℕ → List (ℕ × Balance) → Type 0
KeysUntil hour bs = All (λ kb. kb.0 ≤ hour) bs
