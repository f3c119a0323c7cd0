-- ===== src/Accounting/Postings.antt =====
-- Acquire/Accounting/_account.py: what `_debit`, `_credit` and their variants for receipts and refunds
-- write. The state is that of the accounting service: the entries of all accounts, and the records of
-- its transactions.
pub mod Changes
pub mod Effects
pub mod Records
use acquire.Base.{
  ℕ, ◌+◌, Bool, true, false, Option, none, some, List, ◌∷◌, [], if◌then◌else◌, ltb, not,
}
use acquire.Base.Int.{ℤ, pos, leb_ℤ, eqb_ℤ}
use acquire.Base.Result.{
  Error, Result, ok, err, account_error, attribute_error, unbound_local_error, object_store_error,
  value_error,
}
use acquire.Base.Exec.{Exec, return_, raise, lift, get_state, and_then, ◌>>=◌, ◌>>◌}
use acquire.Accounting.TransactionInfo.{
  TransactionInfo, TransactionCode, credit, debit, current_liability, account_receivable,
  received_receipt, sent_receipt, received_refund, sent_refund, rescind,
}
use acquire.Accounting.Notes.{TransactionRecord, DebitNote, CreditNote, Receipt, Refund}

pub record Ledger : Type 0 where
  pub entries : List (ℕ × TransactionInfo)
  pub records : List (ℕ × TransactionRecord)

-- What a write to an account takes from outside: how the loading of the account ends, the new UID, the time
-- of `_get_safe_now`, the time a week ahead, and whether the object store accepts the write.
pub record Stamp : Type 0 where
  pub loaded : Result (Unit {0})
  pub uid : ℕ
  pub now : ℕ
  pub next_week : ℕ
  pub is_written : Bool

unfoldable pub line_item : Stamp → TransactionCode → ℤ → Option ℤ → TransactionInfo
line_item stamp code value receipted = record {
  code = some code;
  value = value;
  receipted_value = receipted;
  datetime = stamp.now;
  uid = stamp.uid ∷ [];
}

unfoldable pub write : Bool → ℕ → TransactionInfo → Exec Ledger (Unit {0})
write true account info l = (ok tt, record l { entries = (account, info) ∷ l.entries })
write false account info l = (err object_store_error, l)

unfoldable pub post : Stamp → ℕ → TransactionCode → ℤ → Option ℤ → Exec Ledger (ℕ × ℕ)
post stamp account code value receipted = do
  write stamp.is_written account (line_item stamp code value receipted)
  return_ (stamp.uid, stamp.now)

-- At least an hour is left to provide a receipt.
unfoldable pub deadline : ℕ → ℕ → Result (Option ℕ)
deadline now receipt_by =
    if ltb receipt_by (now + 3600000000) then err account_error else ok (some receipt_by)

unfoldable pub receipt_deadline : Stamp → Bool → Option ℕ → Result (Option ℕ)
receipt_deadline stamp false receipt_by = ok none
receipt_deadline stamp true none = deadline stamp.now stamp.next_week
receipt_deadline stamp true (some receipt_by) = deadline stamp.now receipt_by

unfoldable pub debit_code : Bool → TransactionCode
debit_code true = current_liability
debit_code false = debit

unfoldable pub credit_code : Bool → TransactionCode
credit_code true = account_receivable
credit_code false = credit

-- What is written of an entry that was rescinded; without a code there is no key.
write_rescinded : Bool → ℕ → TransactionInfo → Exec Ledger (Unit {0})
write_rescinded written account info = elim info.code [
  | none ↦ raise attribute_error
  | some code ↦ write written account info
]

-- The account turned out overdrawn after the entry was written: `InsufficientFundsError` is not bound
-- there.
pub undo : Stamp → ℕ → TransactionInfo → Exec Ledger (Unit {0})
undo stamp account info = do
  rescinded ← lift (rescind info)
  write_rescinded stamp.is_written account rescinded
  raise unbound_local_error

-- What decides on a debit: the authorisation and the balance before it, and the balance after it.
pub record Funds : Type 0 where
  pub check : Ledger → ℕ → ℤ → Result (Unit {0})
  pub overdraws : Ledger → ℕ → Bool

module _ (funds : Funds) where
  unfoldable pub undo_if_overdrawn : Stamp → ℕ → TransactionInfo → Exec Ledger (Unit {0})
  undo_if_overdrawn stamp account info l =
      if funds.overdraws l account then undo stamp account info l else (ok tt, l)

  unfoldable pub positive_debit :
      Stamp → ℕ → ℤ → Bool → Option ℕ → Exec Ledger (Option (ℕ × ℕ × Option ℕ))
  positive_debit stamp account value is_provisional receipt_by = do
    l ← get_state
    lift (funds.check l account value)
    until ← lift (receipt_deadline stamp is_provisional receipt_by)
    post stamp account (debit_code is_provisional) value none
    undo_if_overdrawn stamp account (line_item stamp (debit_code is_provisional) value none)
    return_ (some (stamp.uid, stamp.now, until))

  -- `Account._debit`
  unfoldable pub debit_account :
      Stamp → ℕ → ℤ → Bool → Option ℕ → Exec Ledger (Option (ℕ × ℕ × Option ℕ))
  debit_account stamp account value is_provisional receipt_by =
      if leb_ℤ value (pos 0)
      then return_ none
      else positive_debit stamp account value is_provisional receipt_by

-- `Account._credit`
unfoldable pub credit_account : Stamp → ℕ → DebitNote → Exec Ledger (Option (ℕ × ℕ))
credit_account stamp account note =
    if leb_ℤ note.transaction.value (pos 0)
    then return_ none
    else post stamp account (credit_code note.is_provisional) note.transaction.value none >>= λ r.
        return_ (some r)

-- `Account._debit_receipt`
unfoldable pub debit_receipt : Stamp → ℕ → Receipt → Exec Ledger (ℕ × ℕ)
debit_receipt stamp account r =
    post stamp account received_receipt r.credit_note.value (some r.receipted_value)

-- `Account._credit_receipt`
unfoldable pub credit_receipt : Stamp → ℕ → DebitNote → Receipt → Exec Ledger (ℕ × ℕ)
credit_receipt stamp account note r =
    if eqb_ℤ r.receipted_value note.transaction.value
    then post stamp account sent_receipt r.credit_note.value (some r.receipted_value)
    else raise value_error

-- `Account._debit_refund`
unfoldable pub debit_refund : Stamp → ℕ → Refund → Exec Ledger (ℕ × ℕ)
debit_refund stamp account r = post stamp account sent_refund r.credit_note.value none

-- `Account._credit_refund`
unfoldable pub credit_refund : Stamp → ℕ → DebitNote → Refund → Exec Ledger (ℕ × ℕ)
credit_refund stamp account note r =
    if eqb_ℤ r.credit_note.value note.transaction.value
    then post stamp account received_refund r.credit_note.value none
    else raise value_error
