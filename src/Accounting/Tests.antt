-- ===== src/Accounting/Tests.antt =====
-- Uses of the theorems on accounts at concrete inputs, with numbers written in tallies.
use mathlib.Core.List.{Permᴰ}
use acquire.Base.{
  Bool, true, false, ℕ, zero, suc, ◌+◌, ◌*◌, ◌/◌, ◌%◌, ◌≡◌, ◌≢◌, refl, Option, none, some, List, [],
  ◌∷◌, ◌++◌, arith, All, if◌then◌else◌, ◌==◌,
}
use acquire.Base.Int.{ℤ, pos, negsuc, neg, ◌+ℤ◌, ◌≤ℤ◌, ◌<ℤ◌}
use acquire.Base.Result.{ok, err, value_error}
use acquire.Accounting.Formats.{Formats, IsFormats}
use acquire.Accounting.Transaction.{Transaction, split, maximum_transaction_value, sum, values}
use acquire.Accounting.Transaction.Split.{split_lem, IsPart}
use acquire.Accounting.TransactionInfo.{
  TransactionInfo, credit, received_receipt, encode, to_key, from_key, rescind, rescind_code,
  renewed, code_letters, effective_value, is_receipt_code,
}
use acquire.Accounting.TransactionInfo.Keys.{from_key-to_key, from_key-rescind}
use acquire.Accounting.Balance.{add_balance, zero_balance, sum_transactions}
use acquire.Accounting.Balance.Adding.{change, change_of, total_change}
use acquire.Accounting.Balance.Sums.{sum_transactions-Perm}
use acquire.Accounting.Balance.Changes.{keep, change_if}
use acquire.Accounting.History.{hour_length, History, balance, get_transactions_between, is_between}
use acquire.Accounting.History.Between.{get_transactions_between-change}
use acquire.Accounting.Notes.{CreditNote}
use acquire.Accounting.Receipt.{create, total_value}
use acquire.Accounting.Receipt.Create.{IsReceipts, create-IsReceipts}
use acquire.Accounting.History.Clock.{get_safe_now, get_safe_now-returns}
use acquire.Accounting.History.Consistent.{AreSmall, IsConsistent, balance_at}
use acquire.Accounting.History.Hourly.{IsContinued, balance-balance_at}

abbrev tally : ℕ → List ℕ
tally zero = []
tally (suc n) = 49 ∷ tally n

abbrev count : List ℕ → Option ℕ
count [] = some 0
count (c ∷ s) = if c == 49 then elim (count s) [ none ↦ none | some n ↦ some (suc n) ] else none

abbrev show_tally : ℤ → List ℕ
show_tally (pos n) = tally n
show_tally (negsuc n) = 45 ∷ tally n

abbrev count_pos : List ℕ → Option ℤ
count_pos s = elim (count s) [ none ↦ none | some n ↦ some (pos n) ]

abbrev count_neg : List ℕ → Option ℤ
count_neg s = elim (count s) [ none ↦ none | some n ↦ some (negsuc n) ]

abbrev read_tally : List ℕ → Option ℤ
read_tally [] = some (pos 0)
read_tally (c ∷ s) = if c == 45 then count_neg s else count_pos (c ∷ s)

abbrev show_moment : ℕ → List ℕ
show_moment t = 64 ∷ tally t

abbrev read_moment : List ℕ → Option ℕ
read_moment [] = none
read_moment (c ∷ s) = if c == 64 then count s else none

abbrev tallies : Formats
tallies = record {
  round6 = λ v. v;
  show = show_tally;
  read = read_tally;
  show_time = show_moment;
  read_time = read_moment;
  part_of = λ d i n. "part";
}

count-tally : (n : ℕ) → count (tally n) ≡ some n
count-tally zero = refl
count-tally (suc n) = rw (count-tally n) refl

tally_without_T : (n : ℕ) → All (λ c. c ≢ 84) (tally n)
tally_without_T zero = tt
tally_without_T (suc n) = (omega arith, tally_without_T n)

count_T : (n : ℕ) (s : List ℕ) → count (tally n ++ 84 ∷ s) ≡ none
count_T zero s = refl
count_T (suc n) s = rw (count_T n s) refl

count_neg-tally : (n : ℕ) → count_neg (tally n) ≡ some (negsuc n)
count_neg-tally n = rw (count-tally n, count_neg) refl

count_neg_T : (n : ℕ) (s : List ℕ) → count_neg (tally n ++ 84 ∷ s) ≡ none
count_neg_T n s = rw (count_T n s, count_neg) refl

read-show_tally : (v : ℤ) → read_tally (show_tally v) ≡ some v
read-show_tally (pos zero) = refl
read-show_tally (pos (suc n)) = rw (count-tally n) refl
read-show_tally (negsuc n) = count_neg-tally n

read_tally_T : (v : ℤ) (s : List ℕ) → read_tally (show_tally v ++ 84 ∷ s) ≡ none
read_tally_T (pos zero) s = refl
read_tally_T (pos (suc n)) s = rw (count_T n s) refl
read_tally_T (negsuc n) s = count_neg_T n s

show_tally_without_T : (v : ℤ) → All (λ c. c ≢ 84) (show_tally v)
show_tally_without_T (pos n) = tally_without_T n
show_tally_without_T (negsuc n) = (omega arith, tally_without_T n)

tallies-IsFormats : IsFormats tallies
tallies-IsFormats = record {
  round_small = λ v h. refl;
  round_stable = λ v. refl;
  read_show = λ v h. read-show_tally v;
  show_without_T = show_tally_without_T;
  read_T = λ v w. read_tally_T v (show_tally w);
  read_show_time = count-tally;
}

split_lem_example :
    (ts : List Transaction) × (split tallies (pos 2500000000000) (some "work") ≡ ok ts)
    × (sum (values ts) ≡ pos 2500000000000)
    × All (λ v. v ≤ℤ maximum_transaction_value) (values ts)
    × (pos 0 <ℤ pos 2500000000000 → All IsPart (values ts))
split_lem_example =
    split_lem tallies (pos 2500000000000) (pos 2500000000000) "work" tallies-IsFormats refl
      (omega arith) (omega arith)

-- A receipt of 3 of which 2 were charged.
abbrev receipt : TransactionInfo
receipt = record {
  code = some received_receipt;
  value = pos 3;
  receipted_value = some (pos 2);
  datetime = 5;
  uid = 97 ∷ [];
}

from_key-to_key_example :
    from_key tallies
      ((98 ∷ []) ∷ show_moment 5 ∷ (97 ∷ []) ∷ (82 ∷ 82 ∷ 49 ∷ 49 ∷ 49 ∷ 84 ∷ 49 ∷ 49 ∷ []) ∷ [])
    ≡ ok receipt
unfolding to_key encode code_letters is_receipt_code neg
from_key-to_key_example =
    from_key-to_key tallies tallies-IsFormats ((98 ∷ []) ∷ []) receipt
      ((omega arith, omega arith), (refl, (omega arith, omega arith))) refl

abbrev payment : TransactionInfo
payment = record {
  code = some credit;
  value = pos 3;
  receipted_value = none;
  datetime = 25833600000001;
  uid = 97 ∷ 98 ∷ [];
}

-- The debit that is to undo a credit of 3 at the moment 5: DR111T under the UID in reverse.
from_key-rescind_example :
    from_key tallies
      ((98 ∷ []) ∷ show_moment 5 ∷ (98 ∷ 97 ∷ []) ∷ (68 ∷ 82 ∷ 49 ∷ 49 ∷ 49 ∷ 84 ∷ []) ∷ [])
    ≡ err value_error
unfolding to_key encode code_letters rescind rescind_code renewed
from_key-rescind_example =
    from_key-rescind tallies tallies-IsFormats ((98 ∷ []) ∷ []) (record payment { datetime = 5 })
      refl refl (refl, (refl, (refl, tt)))

sum_transactions-Perm_example :
    sum_transactions (payment ∷ receipt ∷ []) ≡ sum_transactions (receipt ∷ payment ∷ [])
sum_transactions-Perm_example = sum_transactions-Perm (Permᴰ.swap refl refl)

-- A clock that is first read in the last two seconds of an hour, then every half second.
abbrev half_seconds : ℕ → ℕ
half_seconds i = 3598000000 + i * 500000

get_safe_now-returns_example :
    (t : ℕ) × (get_safe_now half_seconds 10 ≡ some t) × (t % hour_length ≢ 0)
get_safe_now-returns_example =
    get_safe_now-returns half_seconds (λ i. omega arith) (λ i. omega arith)

-- Two payments on the days 299 and 300, and the balance of midnight between them.
abbrev payments : List TransactionInfo
payments = record receipt { datetime = 25956000000003 } ∷ payment ∷ []

abbrev history : History
history = record {
  transactions = payments;
  balances = (7200, balance_at payments (7200 * hour_length)) ∷ [];
  last_update = [];
}

-- Whichever of the two payments count.
kept-AreSmall :
    (a b : Bool)
    → AreSmall (
        add_balance
          (keep a (change (record receipt { datetime = 25956000000003 })))
          (add_balance (keep b (change payment)) zero_balance))
unfolding add_balance change change_of effective_value ◌+ℤ◌ neg
kept-AreSmall true true = record {
  balance = (omega arith, omega arith);
  liability = (omega arith, omega arith);
  receivable = (omega arith, omega arith);
}
kept-AreSmall true false = record {
  balance = (omega arith, omega arith);
  liability = (omega arith, omega arith);
  receivable = (omega arith, omega arith);
}
kept-AreSmall false true = record {
  balance = (omega arith, omega arith);
  liability = (omega arith, omega arith);
  receivable = (omega arith, omega arith);
}
kept-AreSmall false false = record {
  balance = (omega arith, omega arith);
  liability = (omega arith, omega arith);
  receivable = (omega arith, omega arith);
}

history-IsConsistent : IsConsistent history
history-IsConsistent = record {
  off_hour = (omega arith, (omega arith, tt));
  summable = (tt, (tt, tt));
  small = λ hour. kept-AreSmall _ _;
  balances_right = (refl, tt);
  updates_right = tt;
}

balance-balance_at_example :
    (h' : History) × (balance tallies (λ day. day / 30) history 25956000000005
      ≡ ok (balance_at payments 25956000000005, h'))
    × IsContinued tallies tallies-IsFormats
        (λ day. day / 30)
        history
        (25956000000005 / hour_length)
        h'
balance-balance_at_example =
    balance-balance_at tallies tallies-IsFormats (λ day. day / 30) history 25956000000005 299
      history-IsConsistent (omega arith, tt) refl (omega arith)

get_transactions_between-change_example :
    total_change (get_transactions_between payments 25833600000000 25956000000005)
    ≡ change_if (is_between 25833600000000 25956000000005) payments
get_transactions_between-change_example =
    get_transactions_between-change payments 25833600000000 25956000000005
      (omega arith, (omega arith, tt))

abbrev a_note : ℕ → ℤ → CreditNote
a_note uid value = record {
  account_uid = 1;
  debit_account_uid = 0;
  datetime = 5;
  uid = uid;
  debit_note_uid = uid + 10;
  value = value;
  is_provisional = true;
  receipt_by = some 9;
}

-- Notes of 3 and 4, of which 2 are receipted.
abbrev note_a : CreditNote
note_a = a_note 0 (pos 3)

abbrev note_b : CreditNote
note_b = a_note 1 (pos 4)

create-IsReceipts_example :
    IsReceipts (note_a ∷ note_b ∷ []) (pos 2) (create tallies (note_a ∷ note_b ∷ []) (some (pos 2)))
unfolding neg total_value ◌+ℤ◌
create-IsReceipts_example =
    create-IsReceipts tallies tallies-IsFormats note_a (note_b ∷ []) (pos 2)
      (
        (refl, omega arith, (omega arith, omega arith)),
        ((refl, omega arith, (omega arith, omega arith)), tt),
      )
      (omega arith) (omega arith) (omega arith, omega arith)
