-- ===== src/Accounting/Ledger.antt =====
-- Acquire/Accounting/_ledger.py with the constructors of Acquire/Accounting/_debitnote.py and
-- _creditnote.py for receipts and refunds, and `load_test_and_set` of _transactionrecord.py; the child
-- Perform has the rest. The mutex of a record is taken to be had, and the records themselves to be
-- written: only entries of accounts may fail to be written.
pub mod Perform
pub mod Conserve
pub mod Evolve
pub mod Calls
pub mod Performing
pub mod Once
pub mod Sequences
pub mod Accepts
pub mod Stuck
mod Tests
pub mod Returns
pub mod States
use acquire.Base.{
  ℕ, zero, suc, String, Bool, true, false, Option, none, some, List, [], ◌∷◌, if◌then◌else◌, ◌==◌,
  find, length,
}
use acquire.Base.Int.{ℤ, pos, leb_ℤ, eqb_ℤ}
use acquire.Base.Result.{
  Error, Result, ok, err, value_error, type_error, attribute_error, object_store_error,
  transaction_error, unmatched_receipt_error, unmatched_refund_error, unbalanced_ledger_error,
}
use acquire.Base.Exec.{Exec, return_, raise, lift, and_then, handle, try, ◌>>=◌, ◌>>◌}
use acquire.Accounting.Formats.{Formats}
use acquire.Accounting.Transaction.{Transaction, new_transaction}
use acquire.Accounting.Notes.{
  DebitNote, CreditNote, Receipt, Refund, PairedNote, TransactionState, direct, provisional,
  receipting, receipted, refunding, refunded, TransactionRecord,
}
use acquire.Accounting.Postings.{
  Ledger, Stamp, Funds, debit_account, credit_account, debit_receipt, credit_receipt, debit_refund,
  credit_refund,
}

pub eq_state : TransactionState → TransactionState → Bool
eq_state direct direct = true
eq_state provisional provisional = true
eq_state receipting receipting = true
eq_state receipted receipted = true
eq_state refunding refunding = true
eq_state refunded refunded = true
eq_state _ _ = false

-- `Ledger.save_transaction`: a record is stored under the UID of its debit note.
unfoldable pub save_transaction : TransactionRecord → Ledger → Ledger
save_transaction r l = record l { records = (r.debit_note.uid, r) ∷ l.records }

-- The state is written only if it changes.
pub change_state :
    TransactionRecord → TransactionState → TransactionState → Exec Ledger TransactionRecord
change_state r expected new l =
    let r' = record r { transaction_state = new } in
    if eq_state expected new then (ok r', l) else (ok r', save_transaction r' l)

test_and_set :
    Option TransactionRecord → TransactionState → TransactionState → Exec Ledger TransactionRecord
test_and_set none expected new l = (err object_store_error, l)
test_and_set (some r) expected new l =
    if eq_state r.transaction_state expected
    then change_state r expected new l
    else (err transaction_error, l)

-- `TransactionRecord.load_test_and_set`
pub load_test_and_set : ℕ → TransactionState → TransactionState → Exec Ledger TransactionRecord
load_test_and_set uid expected new l = test_and_set (find uid l.records) expected new l

pub check_that : Bool → Error → Exec Ledger (Unit {0})
check_that true e = return_ tt
check_that false e = raise e

-- `assert_matching_receipt` and `assert_matching_refund`, which test the same of a note.
pub matches_note : TransactionRecord → CreditNote → Bool
matches_note r note =
    if note.debit_note_uid == r.debit_note.uid
    then if note.debit_account_uid == r.debit_note.account_uid
      then if note.account_uid == r.credit_note.account_uid
        then eqb_ℤ note.value r.debit_note.transaction.value
        else false
      else false
    else false

debit_note_of : Stamp → ℕ → Transaction → DebitNote
debit_note_of stamp account transaction = record {
  transaction = transaction;
  account_uid = account;
  is_provisional = false;
  datetime = stamp.now;
  uid = stamp.uid;
  receipt_by = none;
}

unfoldable pub credit_note_of : Stamp → ℕ → DebitNote → CreditNote
credit_note_of stamp account note = record {
  account_uid = account;
  debit_account_uid = note.account_uid;
  datetime = stamp.now;
  uid = stamp.uid;
  debit_note_uid = note.uid;
  value = note.transaction.value;
  is_provisional = note.is_provisional;
  receipt_by = note.receipt_by;
}

-- An exception puts the record back into the state it had.
pub reset_state : ℕ → TransactionState → TransactionState → Error → Exec Ledger DebitNote
reset_state uid expected new e = load_test_and_set uid expected new >>= λ _. raise e

module _ (f : Formats) (describe : ℕ → String) where
  debit_matching_receipt : Stamp → ℕ → Receipt → TransactionRecord → Exec Ledger DebitNote
  debit_matching_receipt stamp account r t = do
    check_that (matches_note t r.credit_note) unmatched_receipt_error
    check_that (account == r.credit_note.debit_account_uid) value_error
    debit_receipt stamp account r
    transaction ←
        lift (new_transaction f r.receipted_value (some (describe r.credit_note.debit_note_uid)))
    return_ (debit_note_of stamp account transaction)

  -- `DebitNote._create_from_receipt`
  pub debit_note_from_receipt : Stamp → ℕ → Receipt → Exec Ledger DebitNote
  debit_note_from_receipt stamp account r = do
    t ← load_test_and_set r.credit_note.debit_note_uid provisional receipting
    try (debit_matching_receipt stamp account r t)
        (reset_state r.credit_note.debit_note_uid receipting provisional)

  debit_matching_refund : Stamp → ℕ → Refund → TransactionRecord → Exec Ledger DebitNote
  debit_matching_refund stamp account r t = do
    check_that (matches_note t r.credit_note) unmatched_refund_error
    check_that (account == r.credit_note.account_uid) value_error
    debit_refund stamp account r
    transaction ←
        lift (new_transaction f r.credit_note.value (some (describe r.credit_note.debit_note_uid)))
    return_ (debit_note_of stamp account transaction)

  -- `DebitNote._create_from_refund`
  pub debit_note_from_refund : Stamp → ℕ → Refund → Exec Ledger DebitNote
  debit_note_from_refund stamp account r = do
    t ← load_test_and_set r.credit_note.debit_note_uid direct refunding
    try (debit_matching_refund stamp account r t)
        (reset_state r.credit_note.debit_note_uid refunding direct)

-- `CreditNote._create_from_receipt`
pub credit_note_from_receipt : Stamp → ℕ → DebitNote → Receipt → Exec Ledger CreditNote
credit_note_from_receipt stamp account note r = do
  t ← load_test_and_set r.credit_note.debit_note_uid receipting receipting
  check_that (matches_note t r.credit_note) unmatched_receipt_error
  check_that (account == r.credit_note.account_uid) value_error
  credit_receipt stamp account note r
  load_test_and_set r.credit_note.debit_note_uid receipting receipted
  return_ (credit_note_of stamp account note)

-- `CreditNote._create_from_refund`
pub credit_note_from_refund : Stamp → ℕ → DebitNote → Refund → Exec Ledger CreditNote
credit_note_from_refund stamp account note r = do
  t ← load_test_and_set r.credit_note.debit_note_uid refunding refunding
  check_that (matches_note t r.credit_note) unmatched_refund_error
  check_that (account == r.credit_note.debit_account_uid) value_error
  credit_refund stamp account note r
  load_test_and_set r.credit_note.debit_note_uid refunding refunded
  return_ (credit_note_of stamp account note)

-- The notes of one debit each, or `none` if a credit is missing.
unfoldable pub pair_notes : List DebitNote → List (ℕ × CreditNote) → Option (List PairedNote)
pair_notes [] credits = some []
pair_notes (note ∷ notes) credits = elim (find note.uid credits) [
  | none ↦ none
  | some c ↦ elim (pair_notes notes credits) [
    | none ↦ none
    | some pairs ↦ some (record { debit_note = note; credit_note = c } ∷ pairs)
  ]
]

unfoldable pub balanced_pairs : Bool → Option (List PairedNote) → Result (List PairedNote)
balanced_pairs true (some pairs) = ok pairs
balanced_pairs _ _ = err unbalanced_ledger_error

-- `PairedNote.create`; without any debit note the code asks an empty list for its UID.
unfoldable pub create_pairs : List DebitNote → List (ℕ × CreditNote) → Result (List PairedNote)
create_pairs [] credits = err attribute_error
create_pairs (note ∷ notes) credits =
    balanced_pairs (length credits == length (note ∷ notes)) (pair_notes (note ∷ notes) credits)

unfoldable pub new_record :
    TransactionState → Option Receipt → Option Refund → PairedNote → TransactionRecord
new_record state r refund pair = record {
  debit_note = pair.debit_note;
  credit_note = pair.credit_note;
  transaction_state = state;
  receipt = r;
  refund = refund;
}

-- `Ledger._record_to_ledger`
unfoldable pub record_to_ledger :
    TransactionState
    → Option Receipt
    → Option Refund
    → List PairedNote
    → Exec Ledger (List TransactionRecord)
record_to_ledger state r refund [] l = (ok [], l)
record_to_ledger state r refund (pair ∷ pairs) l =
    let new = new_record state r refund pair in
    (record_to_ledger state r refund pairs >>= λ news. return_ (new ∷ news))
      (save_transaction new l)

pub pair_and_record :
    TransactionState
    → Option Receipt
    → Option Refund
    → DebitNote
    → CreditNote
    → Exec Ledger (List TransactionRecord)
pair_and_record state r refund note c = do
  pairs ← lift (create_pairs (note ∷ []) ((c.debit_note_uid, c) ∷ []))
  record_to_ledger state r refund pairs

load_second : Result (Unit {0}) → Result (Unit {0}) → Result (Unit {0})
load_second (ok u) second = second
load_second (err why) second = err why

-- The two accounts are loaded one after the other.
pub load_accounts : Stamp → Stamp → Result (Unit {0})
unfolding load_second
load_accounts first second = load_second first.loaded second.loaded

module _ (f : Formats) (describe : ℕ → String) where
  -- `Ledger.receipt`, with both accounts at hand. What it does on an exception has no effect: `_delete_note` is
  -- no method of an account and `_TransactionState` no name there, and both errors are passed over.
  receipt_loaded : Stamp → Stamp → Receipt → Exec Ledger (List TransactionRecord)
  receipt_loaded debit_stamp credit_stamp r = do
    note ← debit_note_from_receipt f describe debit_stamp r.credit_note.debit_account_uid r
    c ← credit_note_from_receipt credit_stamp r.credit_note.account_uid note r
    pair_and_record direct (some r) none note c

  -- `Ledger.receipt`
  pub receipt_transaction : Stamp → Stamp → Receipt → Exec Ledger (List TransactionRecord)
  receipt_transaction debit_stamp credit_stamp r = do
    lift (load_accounts debit_stamp credit_stamp)
    receipt_loaded debit_stamp credit_stamp r

  -- `Ledger.refund`, with the same handlers.
  refund_loaded : Stamp → Stamp → Refund → Exec Ledger (List TransactionRecord)
  refund_loaded debit_stamp credit_stamp r = do
    note ← debit_note_from_refund f describe debit_stamp r.credit_note.account_uid r
    c ← credit_note_from_refund credit_stamp r.credit_note.debit_account_uid note r
    pair_and_record direct none (some r) note c

  -- `Ledger.refund`, where the account that gets the value back is loaded first.
  pub refund_transaction : Stamp → Stamp → Refund → Exec Ledger (List TransactionRecord)
  refund_transaction debit_stamp credit_stamp r = do
    lift (load_accounts credit_stamp debit_stamp)
    refund_loaded debit_stamp credit_stamp r
