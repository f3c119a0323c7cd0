-- ===== src/Accounting/Balance.antt =====
-- Acquire/Accounting/_balance.py: the balance of an account, and the sum of its transactions in
-- Acquire/Accounting/_account.py.
pub mod Adding
pub mod Sums
pub mod Changes
use acquire.Base.{Bool, Option, none, some, List, [], ◌∷◌, ◌&&◌, if◌then◌else◌}
use acquire.Base.Int.{ℤ, pos, ◌+ℤ◌, ◌-ℤ◌, eqb_ℤ, ltb_ℤ}
use acquire.Base.Result.{Result, ok, err, ◌>>=◌, type_error}
use acquire.Accounting.Formats.{Formats, create_decimal}
use acquire.Accounting.TransactionInfo.{
  TransactionInfo, TransactionCode, credit, debit, current_liability, account_receivable,
  received_receipt, sent_receipt, received_refund, sent_refund, effective_value,
}

pub record Balance : Type 0 where
  pub balance : ℤ
  pub liability : ℤ
  pub receivable : ℤ

abbrev pub zero_balance : Balance
zero_balance = record { balance = pos 0; liability = pos 0; receivable = pos 0 }

-- `Balance.available`
pub available : Formats → Balance → Option ℤ → Result ℤ
available f b none = ok (b.balance -ℤ b.liability)
available f b (some overdraft_limit) =
    create_decimal f overdraft_limit >>= λ limit. ok (b.balance -ℤ b.liability +ℤ limit)

-- `Balance.is_overdrawn`
pub is_overdrawn : Formats → Balance → Option ℤ → Result Bool
is_overdrawn f b overdraft_limit = available f b overdraft_limit >>= λ v. ok (ltb_ℤ v (pos 0))

-- `Balance.__eq__`
pub eqb_balance : Balance → Balance → Bool
eqb_balance b c =
    eqb_ℤ b.balance c.balance && eqb_ℤ b.liability c.liability && eqb_ℤ b.receivable c.receivable

-- `Balance.__add__` with a balance
unfoldable pub add_balance : Balance → Balance → Balance
add_balance b c = record {
  balance = b.balance +ℤ c.balance;
  liability = b.liability +ℤ c.liability;
  receivable = b.receivable +ℤ c.receivable;
}

change_balance : Balance → ℤ → Balance
change_balance b v = record {
  balance = b.balance +ℤ v;
  liability = b.liability;
  receivable = b.receivable;
}

take_balance : Balance → ℤ → Balance
take_balance b v = record {
  balance = b.balance -ℤ v;
  liability = b.liability;
  receivable = b.receivable;
}

-- A receipt without a receipted value is `None` in a subtraction.
add_received_receipt : Balance → ℤ → Option ℤ → Result Balance
add_received_receipt b original none = err type_error
add_received_receipt b original (some receipted) = ok (record {
  balance = b.balance -ℤ receipted;
  liability = b.liability -ℤ original;
  receivable = b.receivable;
})

add_sent_receipt : Balance → ℤ → Option ℤ → Result Balance
add_sent_receipt b original none = err type_error
add_sent_receipt b original (some receipted) = ok (record {
  balance = b.balance +ℤ receipted;
  liability = b.liability;
  receivable = b.receivable -ℤ original;
})

add_code : Balance → TransactionInfo → Option TransactionCode → Result Balance
unfolding change_balance take_balance
add_code b t none = ok b
add_code b t (some TransactionCode.credit) = ok (change_balance b (effective_value t))
add_code b t (some TransactionCode.debit) = ok (take_balance b (effective_value t))
add_code b t (some TransactionCode.current_liability) = ok (record {
  balance = b.balance;
  liability = b.liability +ℤ effective_value t;
  receivable = b.receivable;
})
add_code b t (some TransactionCode.account_receivable) = ok (record {
  balance = b.balance;
  liability = b.liability;
  receivable = b.receivable +ℤ effective_value t;
})
add_code b t (some TransactionCode.received_receipt) =
    add_received_receipt b t.value t.receipted_value
add_code b t (some TransactionCode.sent_receipt) = add_sent_receipt b t.value t.receipted_value
add_code b t (some TransactionCode.received_refund) = ok (change_balance b (effective_value t))
add_code b t (some TransactionCode.sent_refund) = ok (take_balance b (effective_value t))

-- `Balance.__add__` with a transaction's information
pub add_info : Balance → TransactionInfo → Result Balance
add_info b t = add_code b t t.code

pub sum_from : Balance → List TransactionInfo → Result Balance
sum_from b [] = ok b
sum_from b (t ∷ ts) = add_info b t >>= λ c. sum_from c ts

-- `_sum_transactions`
pub sum_transactions : List TransactionInfo → Result Balance
sum_transactions ts = sum_from zero_balance ts

total_from : Balance → List Balance → Balance
total_from b [] = b
total_from b (c ∷ cs) = total_from (add_balance b c) cs

-- `Balance.total`
pub total : List Balance → Balance
total bs = total_from zero_balance bs
