-- ===== src/Accounting/Balance/Adding.antt =====
-- Acquire/Accounting/_balance.py and `_sum_transactions` of Acquire/Accounting/_account.py: sums
-- as changes of a balance.
use Prim.{absurd}
use acquire.Base.{◌≡◌, ap, sym, ◌∙◌, Option, none, some, List, [], ◌∷◌, All}
use acquire.Base.Int.{ℤ, pos, ◌+ℤ◌, int_laws, neg}
use acquire.Base.Result.{ok}
use acquire.Accounting.TransactionInfo.{TransactionInfo, TransactionCode, effective_value}
use acquire.Accounting.Balance.{
  Balance, zero_balance, add_balance, add_info, add_code, add_received_receipt, add_sent_receipt,
  change_balance, take_balance, sum_from, sum_transactions,
}

pub balance_eq :
    {b c : Balance}
    → b.balance ≡ c.balance
    → b.liability ≡ c.liability
    → b.receivable ≡ c.receivable
    → b ≡ c
balance_eq p q r = λ i. record { balance = p i; liability = q i; receivable = r i }

pub add_balance_comm : (b c : Balance) → add_balance b c ≡ add_balance c b
unfolding add_balance
add_balance_comm b c = balance_eq (omega int_laws) (omega int_laws) (omega int_laws)

pub add_balance_assoc :
    (b c d : Balance) → add_balance (add_balance b c) d ≡ add_balance b (add_balance c d)
unfolding add_balance
add_balance_assoc b c d = balance_eq (omega int_laws) (omega int_laws) (omega int_laws)

pub add_balance_zero : (b : Balance) → add_balance b zero_balance ≡ b
unfolding add_balance
add_balance_zero b = balance_eq (omega int_laws) (omega int_laws) (omega int_laws)

abbrev pub CodeSummable : Option TransactionCode → Option ℤ → Type 0
CodeSummable (some TransactionCode.received_receipt) none = ⊥
CodeSummable (some TransactionCode.sent_receipt) none = ⊥
CodeSummable _ _ = Unit

abbrev pub or_zero : Option ℤ → ℤ
or_zero none = pos 0
or_zero (some r) = r

unfoldable pub change_of : TransactionInfo → Option TransactionCode → Balance
change_of t none = zero_balance
change_of t (some TransactionCode.credit) = record {
  balance = effective_value t;
  liability = pos 0;
  receivable = pos 0;
}
change_of t (some TransactionCode.debit) = record {
  balance = neg (effective_value t);
  liability = pos 0;
  receivable = pos 0;
}
change_of t (some TransactionCode.current_liability) = record {
  balance = pos 0;
  liability = effective_value t;
  receivable = pos 0;
}
change_of t (some TransactionCode.account_receivable) = record {
  balance = pos 0;
  liability = pos 0;
  receivable = effective_value t;
}
change_of t (some TransactionCode.received_receipt) = record {
  balance = neg (or_zero t.receipted_value);
  liability = neg t.value;
  receivable = pos 0;
}
change_of t (some TransactionCode.sent_receipt) = record {
  balance = or_zero t.receipted_value;
  liability = pos 0;
  receivable = neg t.value;
}
change_of t (some TransactionCode.received_refund) = record {
  balance = effective_value t;
  liability = pos 0;
  receivable = pos 0;
}
change_of t (some TransactionCode.sent_refund) = record {
  balance = neg (effective_value t);
  liability = pos 0;
  receivable = pos 0;
}

-- A receipt holds both of its values.
abbrev pub IsSummable : TransactionInfo → Type 0
IsSummable t = CodeSummable t.code t.receipted_value

-- What a transaction adds to a balance.
unfoldable pub change : TransactionInfo → Balance
change t = change_of t t.code

eq3 :
    (b : Balance) (v w r v' w' r' : ℤ)
    → b.balance +ℤ v' ≡ v
    → b.liability +ℤ w' ≡ w
    → b.receivable +ℤ r' ≡ r
    → ok (record { balance = v; liability = w; receivable = r })
      ≡ ok (add_balance b (record { balance = v'; liability = w'; receivable = r' }))
unfolding add_balance
eq3 b v w r v' w' r' p q s = ap (λ (x : Balance). ok x) (balance_eq (sym p) (sym q) (sym s))

received_receipt-change :
    (b : Balance) (v : ℤ) (r : Option ℤ)
    → CodeSummable (some TransactionCode.received_receipt) r
    → add_received_receipt b v r
      ≡ ok (
          add_balance b
            (record { balance = neg (or_zero r); liability = neg v; receivable = pos 0 }))
unfolding add_received_receipt
received_receipt-change b v none h = absurd h
received_receipt-change b v (some r) h =
    eq3 b _ _ _ _ _ _ (omega int_laws) (omega int_laws) (omega int_laws)

sent_receipt-change :
    (b : Balance) (v : ℤ) (r : Option ℤ)
    → CodeSummable (some TransactionCode.sent_receipt) r
    → add_sent_receipt b v r
      ≡ ok (add_balance b (record { balance = or_zero r; liability = pos 0; receivable = neg v }))
unfolding add_sent_receipt
sent_receipt-change b v none h = absurd h
sent_receipt-change b v (some r) h =
    eq3 b _ _ _ _ _ _ (omega int_laws) (omega int_laws) (omega int_laws)

add_code-change :
    (b : Balance) (t : TransactionInfo) (c : Option TransactionCode)
    → CodeSummable c t.receipted_value
    → add_code b t c ≡ ok (add_balance b (change_of t c))
unfolding add_code change_of change_balance take_balance
add_code-change b t none h = eq3 b _ _ _ _ _ _ (omega int_laws) (omega int_laws) (omega int_laws)
add_code-change b t (some TransactionCode.credit) h =
    eq3 b _ _ _ _ _ _ (omega int_laws) (omega int_laws) (omega int_laws)
add_code-change b t (some TransactionCode.debit) h =
    eq3 b _ _ _ _ _ _ (omega int_laws) (omega int_laws) (omega int_laws)
add_code-change b t (some TransactionCode.current_liability) h =
    eq3 b _ _ _ _ _ _ (omega int_laws) (omega int_laws) (omega int_laws)
add_code-change b t (some TransactionCode.account_receivable) h =
    eq3 b _ _ _ _ _ _ (omega int_laws) (omega int_laws) (omega int_laws)
add_code-change b t (some TransactionCode.received_refund) h =
    eq3 b _ _ _ _ _ _ (omega int_laws) (omega int_laws) (omega int_laws)
add_code-change b t (some TransactionCode.sent_refund) h =
    eq3 b _ _ _ _ _ _ (omega int_laws) (omega int_laws) (omega int_laws)
add_code-change b t (some TransactionCode.received_receipt) h =
    received_receipt-change b t.value t.receipted_value h
add_code-change b t (some TransactionCode.sent_receipt) h =
    sent_receipt-change b t.value t.receipted_value h

pub add_info-change :
    (b : Balance) (t : TransactionInfo)
    → IsSummable t
    → add_info b t ≡ ok (add_balance b (change t))
unfolding add_info change
add_info-change b t h = add_code-change b t t.code h

unfoldable pub total_change : List TransactionInfo → Balance
total_change [] = zero_balance
total_change (t ∷ ts) = add_balance (change t) (total_change ts)

-- The sum from a balance is that balance with all changes added.
pub sum_from-change :
    (b : Balance) (ts : List TransactionInfo)
    → All IsSummable ts
    → sum_from b ts ≡ ok (add_balance b (total_change ts))
unfolding sum_from total_change
sum_from-change b [] h = ap (λ (x : Balance). ok x) (sym (add_balance_zero b))
sum_from-change b (t ∷ ts) h =
    rw (add_info-change b t h.0) (sum_from-change (add_balance b (change t)) ts h.1)
    ∙ ap (λ (x : Balance). ok x) (add_balance_assoc b (change t) (total_change ts))

pub sum_transactions-change :
    (ts : List TransactionInfo) → All IsSummable ts → sum_transactions ts ≡ ok (total_change ts)
unfolding sum_transactions
sum_transactions-change ts h =
    sum_from-change zero_balance ts h
    ∙ ap (λ (x : Balance). ok x)
        (add_balance_comm zero_balance (total_change ts) ∙ add_balance_zero (total_change ts))
