-- ===== src/Accounting/Ledger/Perform.antt =====
-- `Ledger.perform` of Acquire/Accounting/_ledger.py, with the notes it makes.
use acquire.Base.{
  ◌==◌, ℕ, suc, Bool, true, false, Option, none, some, List, [], ◌∷◌, if◌then◌else◌, ◌==◌,
}
use acquire.Base.Int.{pos, leb_ℤ}
use acquire.Base.Result.{Error, Result, ok, err, type_error, unbalanced_ledger_error}
use acquire.Base.Exec.{Exec, return_, raise, lift, try, ◌>>=◌}
use acquire.Accounting.Transaction.{Transaction}
use acquire.Accounting.Notes.{
  DebitNote, CreditNote, TransactionState, direct, provisional, TransactionRecord,
}
use acquire.Accounting.Postings.{Ledger, Stamp, Funds, debit_account, credit_account}
use acquire.Accounting.Ledger.{credit_note_of, create_pairs, record_to_ledger}

-- `dict[uid] = note`
unfoldable pub set_note : ℕ → CreditNote → List (ℕ × CreditNote) → List (ℕ × CreditNote)
set_note uid note [] = (uid, note) ∷ []
set_note uid note ((k, other) ∷ notes) =
    if k == uid then (k, note) ∷ notes else (k, other) ∷ set_note uid note notes

-- `DebitNote._create_from_transaction`; the `None` of a zero value cannot be taken apart.
unfoldable pub note_of_debit : Transaction → ℕ → Bool → Option (ℕ × ℕ × Option ℕ) → Result DebitNote
note_of_debit transaction account is_provisional none = err type_error
note_of_debit transaction account is_provisional (some (uid, datetime, receipt_by)) = ok (record {
  transaction = transaction;
  account_uid = account;
  is_provisional = is_provisional;
  datetime = datetime;
  uid = uid;
  receipt_by = receipt_by;
})

unfoldable pub note_of_credit : Stamp → ℕ → DebitNote → Option (ℕ × ℕ) → Result CreditNote
note_of_credit stamp account note none = err type_error
note_of_credit stamp account note (some r) = ok (credit_note_of stamp account note)

unfoldable pub debit_note_from_transaction :
    Funds → Stamp → ℕ → Transaction → Bool → Option ℕ → Exec Ledger DebitNote
debit_note_from_transaction funds stamp account transaction is_provisional receipt_by = do
  r ← debit_account funds stamp account transaction.value is_provisional receipt_by
  lift (note_of_debit transaction account is_provisional r)

-- `CreditNote._create_from_debit_note`
unfoldable pub credit_note_from_debit_note : Stamp → ℕ → DebitNote → Exec Ledger CreditNote
credit_note_from_debit_note stamp account note = do
  r ← credit_account stamp account note
  lift (note_of_credit stamp account note r)

-- Debits that were made are to be rescinded, but `_rescind_note` is no method of an account.
unfoldable pub debit_failed : List DebitNote → Error → Exec Ledger DebitNote
debit_failed [] e = raise e
debit_failed (_ ∷ _) e = raise unbalanced_ledger_error

-- All notes get the date of the first.
unfoldable pub first_deadline : Bool → Option ℕ → DebitNote → Option ℕ
first_deadline true none note = note.receipt_by
first_deadline _ receipt_by note = receipt_by

unfoldable pub debit_step :
    Funds → Stamp → ℕ → Bool → Option ℕ → List DebitNote → Transaction → Exec Ledger DebitNote
debit_step funds stamp account is_provisional receipt_by made t =
    try (debit_note_from_transaction funds stamp account t is_provisional receipt_by)
      (debit_failed made)

-- After an exception the notes are to be deleted, which fails too.
unfoldable pub credit_step : Stamp → ℕ → DebitNote → Exec Ledger CreditNote
credit_step stamp account note =
    try (credit_note_from_debit_note stamp account note) (λ _. raise unbalanced_ledger_error)

unfoldable pub nonnegative : List Transaction → List Transaction
nonnegative [] = []
nonnegative (t ∷ ts) = if leb_ℤ (pos 0) t.value then t ∷ nonnegative ts else nonnegative ts

unfoldable pub record_state : Bool → TransactionState
record_state true = provisional
record_state false = direct

-- The loop over the debit notes.
unfoldable pub credit_all :
    (ℕ → Stamp)
    → ℕ
    → ℕ
    → List (ℕ × CreditNote)
    → List DebitNote
    → Exec Ledger (List (ℕ × CreditNote))
credit_all stamps credited i credits [] = return_ credits
credit_all stamps credited i credits (note ∷ notes) = credit_step (stamps i) credited note >>= λ c.
    credit_all stamps credited (suc i) (set_note note.uid c credits) notes

module _ (funds : Funds) (stamps : ℕ → Stamp) (debited : ℕ) (is_provisional : Bool) where
  -- The loop over the transactions, with the notes made so far, last first.
  unfoldable pub debit_all :
      ℕ → Option ℕ → List DebitNote → List Transaction → Exec Ledger (List DebitNote)
  debit_all i receipt_by made [] = return_ []
  debit_all i receipt_by made (t ∷ ts) =
      debit_step funds (stamps i) debited is_provisional receipt_by made t >>= λ note.
      debit_all (suc i) (first_deadline is_provisional receipt_by note) (note ∷ made) ts
      >>= λ notes. return_ (note ∷ notes)

  -- `Ledger.perform`
  unfoldable pub perform :
      (ℕ → Stamp) → ℕ → Option ℕ → List Transaction → Exec Ledger (List TransactionRecord)
  perform credit_stamps credited receipt_by ts = do
    notes ← debit_all 0 receipt_by [] (nonnegative ts)
    credits ← credit_all credit_stamps credited 0 [] notes
    pairs ← lift (create_pairs notes credits)
    record_to_ledger (record_state is_provisional) none none pairs
