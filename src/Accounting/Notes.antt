-- ===== src/Accounting/Notes.antt =====
-- Acquire/Accounting/_debitnote.py, _creditnote.py, _receipt.py, _refund.py, _pairednote.py,
-- _transactionrecord.py: what they hold. Only the equality of UIDs matters, so a UID is a number.
-- Authorisations are left out: what they allow is decided where value is debited.
use acquire.Base.{ℕ, Bool, Option}
use acquire.Base.Int.{ℤ}
use acquire.Accounting.Transaction.{Transaction}

pub record DebitNote : Type 0 where
  pub transaction : Transaction
  pub account_uid : ℕ
  pub is_provisional : Bool
  pub datetime : ℕ
  pub uid : ℕ
  pub receipt_by : Option ℕ

pub record CreditNote : Type 0 where
  pub account_uid : ℕ
  pub debit_account_uid : ℕ
  pub datetime : ℕ
  pub uid : ℕ
  pub debit_note_uid : ℕ
  pub value : ℤ
  pub is_provisional : Bool
  pub receipt_by : Option ℕ

pub record Receipt : Type 0 where
  pub credit_note : CreditNote
  pub receipted_value : ℤ

pub record Refund : Type 0 where
  pub credit_note : CreditNote

pub record PairedNote : Type 0 where
  pub debit_note : DebitNote
  pub credit_note : CreditNote

pub data TransactionState : Type 0 where
  direct provisional receipting receipted refunding refunded : TransactionState

pub record TransactionRecord : Type 0 where
  pub debit_note : DebitNote
  pub credit_note : CreditNote
  pub transaction_state : TransactionState
  pub receipt : Option Receipt
  pub refund : Option Refund
