-- ===== src/Accounting/Ledger/Tests.antt =====
-- Uses of the theorems on the ledger: account 1 reserves 5 units for account 2, which receipts 3 of them.
use acquire.Base.{ℕ, ◌+◌, String, true, false, none, some, List, [], ◌∷◌, ◌≡◌, refl, arith}
use acquire.Base.Int.{pos, neg, ◌+ℤ◌}
use acquire.Base.Result.{ok, err, transaction_error, object_store_error}
use acquire.Accounting.Balance.{add_balance}
use acquire.Accounting.Balance.Adding.{change, change_of}
use acquire.Accounting.Formats.{Formats}
use acquire.Accounting.TransactionInfo.{
  current_liability, account_receivable, received_receipt, sent_receipt, received_refund,
  sent_refund, effective_value,
}
use acquire.Accounting.Transaction.{
  Transaction, new_transaction, create_value, check_maximum, describe,
}
use acquire.Accounting.Notes.{
  DebitNote, CreditNote, Receipt, Refund, TransactionState, TransactionRecord, direct, provisional,
  receipting, receipted, refunding, refunded,
}
use acquire.Accounting.Postings.{
  Ledger, Stamp, Funds, line_item, write, post, deadline, receipt_deadline, debit_code, credit_code,
  undo_if_overdrawn, positive_debit, debit_account, credit_account, debit_receipt, credit_receipt,
  debit_refund, credit_refund,
}
use acquire.Accounting.Postings.Changes.{total, IsBalanced, Adds}
use acquire.Accounting.Ledger.{
  receipt_transaction, receipt_loaded, load_accounts, load_second, refund_transaction,
  refund_loaded, credit_note_of, debit_note_of, create_pairs, pair_notes, balanced_pairs,
  record_to_ledger, new_record, save_transaction, debit_note_from_receipt, debit_matching_receipt,
  credit_note_from_receipt, matches_note, check_that, load_test_and_set, test_and_set, change_state,
  eq_state, pair_and_record, debit_note_from_refund, debit_matching_refund, credit_note_from_refund,
}
use acquire.Accounting.Ledger.Perform.{
  set_note, perform, debit_all, debit_step, debit_note_from_transaction, note_of_debit, credit_all,
  credit_step, credit_note_from_debit_note, note_of_credit, record_state, nonnegative,
  first_deadline,
}
use acquire.Accounting.Ledger.Conserve.{perform-IsBalanced}
use acquire.Accounting.Ledger.Returns.{
  receipt_transaction-IsBalanced, refund_transaction-IsBalanced,
}
use acquire.Accounting.Ledger.Sequences.{Call, receipt_of, run, run-HasState}
use acquire.Accounting.Ledger.States.{HasState, IsStored, ◌⟶*◌}
use acquire.Accounting.Ledger.Accepts.{receipt_transaction-returns, IsReceiptOf}
use acquire.Accounting.Ledger.Stuck.{receipt_transaction-stuck}
use acquire.Accounting.Postings.Effects.{receipt_debit}
use acquire.Accounting.Ledger.Once.{receipt-once}

abbrev plain : Formats
plain = record {
  round6 = λ v. v;
  show = λ _. [];
  read = λ _. none;
  show_time = λ _. [];
  read_time = λ _. none;
  part_of = λ _ _ _. "";
}

abbrev label : ℕ → String
label _ = "receipt"

abbrev stamp_of : ℕ → Stamp
stamp_of uid = record {
  loaded = ok tt;
  uid = uid;
  now = 1000;
  next_week = 604800001000;
  is_written = true;
}

abbrev trusting : Funds
trusting = record { check = λ _ _ _. ok tt; overdraws = λ _ _. false }

abbrev nothing : Ledger
nothing = record { entries = []; records = [] }

abbrev rent : Transaction
rent = record { value = pos 5; description = some "rent" }

abbrev rent_debit : DebitNote
rent_debit = record {
  transaction = rent;
  account_uid = 1;
  is_provisional = true;
  datetime = 1000;
  uid = 10;
  receipt_by = some 604800001000;
}

abbrev rent_credit : CreditNote
rent_credit = record {
  account_uid = 2;
  debit_account_uid = 1;
  datetime = 1000;
  uid = 20;
  debit_note_uid = 10;
  value = pos 5;
  is_provisional = true;
  receipt_by = some 604800001000;
}

abbrev rent_record : TransactionState → TransactionRecord
rent_record s = record {
  debit_note = rent_debit;
  credit_note = rent_credit;
  transaction_state = s;
  receipt = none;
  refund = none;
}

abbrev reserved : Ledger
reserved = record {
  entries =
      (
        2,
        record {
          code = some account_receivable;
          value = pos 5;
          receipted_value = none;
          datetime = 1000;
          uid = 20 ∷ [];
        },
      )
      ∷ (
        1,
        record {
          code = some current_liability;
          value = pos 5;
          receipted_value = none;
          datetime = 1000;
          uid = 10 ∷ [];
        },
      )
      ∷ [];
  records = (10, rent_record provisional) ∷ [];
}

rent_performed :
    perform trusting
      (λ i. stamp_of (i + 10))
      1
      true
      (λ i. stamp_of (i + 20))
      2
      none
      (rent ∷ [])
      nothing
    ≡ (ok (rent_record provisional ∷ []), reserved)
unfolding perform debit_all debit_step debit_note_from_transaction note_of_debit nonnegative
    first_deadline credit_all credit_step credit_note_from_debit_note note_of_credit credit_note_of
    set_note create_pairs pair_notes balanced_pairs record_to_ledger record_state new_record
    save_transaction line_item write post deadline receipt_deadline debit_code credit_code
    undo_if_overdrawn positive_debit debit_account credit_account
rent_performed = refl

perform-IsBalanced_example : IsBalanced (total reserved)
perform-IsBalanced_example =
    perform-IsBalanced trusting (λ i. stamp_of (i + 10)) 1 true (λ i. stamp_of (i + 20)) 2 none
      (rent ∷ []) nothing rent_performed (refl, refl)

abbrev rent_receipt : Receipt
rent_receipt = record { credit_note = rent_credit; receipted_value = pos 3 }

abbrev receipt_record : TransactionRecord
receipt_record = record {
  debit_note = record {
    transaction = record { value = pos 3; description = some "receipt" };
    account_uid = 1;
    is_provisional = false;
    datetime = 1000;
    uid = 30;
    receipt_by = none;
  };
  credit_note = record {
    account_uid = 2;
    debit_account_uid = 1;
    datetime = 1000;
    uid = 40;
    debit_note_uid = 30;
    value = pos 3;
    is_provisional = false;
    receipt_by = none;
  };
  transaction_state = direct;
  receipt = some rent_receipt;
  refund = none;
}

abbrev paid : Ledger
paid = record {
  entries =
      (
        2,
        record {
          code = some sent_receipt;
          value = pos 5;
          receipted_value = some (pos 3);
          datetime = 1000;
          uid = 40 ∷ [];
        },
      )
      ∷ (
        1,
        record {
          code = some received_receipt;
          value = pos 5;
          receipted_value = some (pos 3);
          datetime = 1000;
          uid = 30 ∷ [];
        },
      )
      ∷ reserved.entries;
  records =
      (30, receipt_record)
      ∷ (10, rent_record receipted)
      ∷ (10, rent_record receipting)
      ∷ reserved.records;
}

rent_receipted :
    receipt_transaction plain label (stamp_of 30) (stamp_of 40) rent_receipt reserved
    ≡ (ok (receipt_record ∷ []), paid)
unfolding receipt_transaction receipt_loaded load_accounts load_second debit_note_from_receipt
    debit_matching_receipt credit_note_from_receipt matches_note check_that load_test_and_set
    test_and_set change_state eq_state pair_and_record credit_note_of debit_note_of create_pairs
    pair_notes balanced_pairs record_to_ledger new_record save_transaction line_item write post
    debit_receipt credit_receipt new_transaction create_value check_maximum describe
rent_receipted = refl

receipt_transaction-IsBalanced_example : IsBalanced (total paid)
unfolding add_balance change change_of effective_value ◌+ℤ◌
receipt_transaction-IsBalanced_example =
    receipt_transaction-IsBalanced plain label (stamp_of 30) (stamp_of 40) rent_receipt reserved
      rent_receipted (refl, refl)

abbrev receipt_refund : Refund
receipt_refund = record { credit_note = receipt_record.credit_note }

abbrev refund_record : TransactionRecord
refund_record = record {
  debit_note = record {
    transaction = record { value = pos 3; description = some "receipt" };
    account_uid = 2;
    is_provisional = false;
    datetime = 1000;
    uid = 50;
    receipt_by = none;
  };
  credit_note = record {
    account_uid = 1;
    debit_account_uid = 2;
    datetime = 1000;
    uid = 60;
    debit_note_uid = 50;
    value = pos 3;
    is_provisional = false;
    receipt_by = none;
  };
  transaction_state = direct;
  receipt = none;
  refund = some receipt_refund;
}

abbrev receipt_record_in : TransactionState → TransactionRecord
receipt_record_in s = record receipt_record { transaction_state = s }

abbrev paid_back : Ledger
paid_back = record {
  entries =
      (
        1,
        record {
          code = some received_refund;
          value = pos 3;
          receipted_value = none;
          datetime = 1000;
          uid = 60 ∷ [];
        },
      )
      ∷ (
        2,
        record {
          code = some sent_refund;
          value = pos 3;
          receipted_value = none;
          datetime = 1000;
          uid = 50 ∷ [];
        },
      )
      ∷ paid.entries;
  records =
      (50, refund_record)
      ∷ (30, receipt_record_in refunded)
      ∷ (30, receipt_record_in refunding)
      ∷ paid.records;
}

rent_refunded :
    refund_transaction plain label (stamp_of 50) (stamp_of 60) receipt_refund paid
    ≡ (ok (refund_record ∷ []), paid_back)
unfolding refund_transaction refund_loaded load_accounts load_second debit_note_from_refund
    debit_matching_refund credit_note_from_refund matches_note check_that load_test_and_set
    test_and_set change_state eq_state pair_and_record credit_note_of debit_note_of create_pairs
    pair_notes balanced_pairs record_to_ledger new_record save_transaction line_item write post
    debit_refund credit_refund new_transaction create_value check_maximum describe
rent_refunded = refl

refund_transaction-IsBalanced_example : IsBalanced (total paid_back)
unfolding add_balance change change_of effective_value ◌+ℤ◌ neg
refund_transaction-IsBalanced_example =
    refund_transaction-IsBalanced plain label (stamp_of 50) (stamp_of 60) receipt_refund paid
      rent_refunded (refl, refl)

-- A receipt of a debit note that is not there, which raises.
abbrev lost : Receipt
lost = record { credit_note = record rent_credit { debit_note_uid = 11 }; receipted_value = pos 5 }

abbrev lost_call : Call
lost_call = receipt_of (stamp_of 70) (stamp_of 80) lost

run-HasState_example :
    IsStored (run plain label (lost_call ∷ []) reserved)
    × ((t : TransactionState) × HasState 10 (run plain label (lost_call ∷ []) reserved) t
        × (provisional ⟶* t))
run-HasState_example =
    run-HasState plain label 10 (lost_call ∷ []) reserved provisional ((λ h. omega (arith, h)), tt)
      (refl, tt) (rent_record provisional, refl, refl)

receipt-once_example :
    HasState 10 reserved provisional
    × (receipt_transaction plain label
          (stamp_of 30)
          (stamp_of 40)
          rent_receipt
          (run plain label (lost_call ∷ []) paid)
        ≡ (err transaction_error, run plain label (lost_call ∷ []) paid))
    × (refund_transaction plain label
          (stamp_of 30)
          (stamp_of 40)
          (record { credit_note = rent_credit })
          (run plain label (lost_call ∷ []) paid)
        ≡ (err transaction_error, run plain label (lost_call ∷ []) paid))
receipt-once_example =
    receipt-once plain label (stamp_of 30) (stamp_of 40) (lost_call ∷ []) rent_receipt rent_receipt
      (record { credit_note = rent_credit }) reserved (refl, tt) (λ h. omega (arith, h))
      ((λ h. omega (arith, h)), tt) refl refl rent_receipted

receipt_transaction-returns_example :
    (records : List TransactionRecord) × (l' : Ledger) × (receipt_transaction plain label
        (stamp_of 30)
        (stamp_of 40)
        rent_receipt
        reserved
      ≡ (ok records, l'))
    × IsReceiptOf rent_receipt records
unfolding load_accounts load_second matches_note new_transaction create_value check_maximum describe
receipt_transaction-returns_example =
    receipt_transaction-returns plain label (stamp_of 30) (stamp_of 40) rent_receipt reserved
      (record { value = pos 3; description = some "receipt" }) refl
      ((refl, tt), (rent_record provisional, refl, refl, refl)) refl refl refl refl

abbrev refused_stamp : Stamp
refused_stamp = record {
  loaded = ok tt;
  uid = 40;
  now = 1000;
  next_week = 604800001000;
  is_written = false;
}

receipt_transaction-stuck_example :
    (l' : Ledger) × (receipt_transaction plain label
        (stamp_of 30)
        refused_stamp
        rent_receipt
        reserved
      ≡ (err object_store_error, l'))
    × Adds reserved (receipt_debit rent_receipt) l'
    × HasState 10 l' receipting
    × (receipt_transaction plain label (stamp_of 50) (stamp_of 60) rent_receipt l'
        ≡ (err transaction_error, l'))
    × (refund_transaction plain label
          (stamp_of 50)
          (stamp_of 60)
          (record { credit_note = rent_credit })
          l'
        ≡ (err transaction_error, l'))
unfolding load_accounts load_second matches_note new_transaction create_value check_maximum describe
receipt_transaction-stuck_example =
    receipt_transaction-stuck plain label (stamp_of 30) refused_stamp (stamp_of 50) (stamp_of 60)
      rent_receipt (record { credit_note = rent_credit }) reserved
      (record { value = pos 3; description = some "receipt" }) refl refl refl
      ((refl, tt), (rent_record provisional, refl, refl, refl)) refl refl refl refl refl
