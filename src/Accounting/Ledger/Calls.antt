-- ===== src/Accounting/Ledger/Calls.antt =====
-- Acquire/Accounting/_ledger.py: sequences of calls of the ledger, of which each may return or raise.
use acquire.Base.{ℕ, String, none, some, ◌≢◌}
use acquire.Base.Exec.{Yields, lift-Yields, then-Yields, try-Yields}
use acquire.Base.Exec.Runs.{seq-runs, then-runs, lift-runs}
use acquire.Accounting.Formats.{Formats}
use acquire.Accounting.Transaction.{new_transaction}
use acquire.Accounting.Notes.{Receipt, Refund, direct, provisional, receipting, refunding}
use acquire.Accounting.Postings.{Ledger, Stamp, debit_receipt, debit_refund}
use acquire.Accounting.Ledger.{
  load_test_and_set, check_that, reset_state, debit_note_of, debit_matching_receipt,
  debit_note_from_receipt, debit_matching_refund, debit_note_from_refund, credit_note_from_receipt,
  credit_note_from_refund, receipt_transaction, receipt_loaded, refund_loaded, load_accounts,
  refund_transaction,
}
use acquire.Accounting.Ledger.States.{Evolves, Evolves-refl, Evolves-trans}
use acquire.Accounting.Ledger.Returns.{reset_state-raises}
use acquire.Accounting.Ledger.Evolve.{
  IsOther, pair_and_record-Evolves, debit_note_from_receipt-Evolves, debit_note_from_refund-Evolves,
  credit_note_from_receipt-Evolves, credit_note_from_refund-Evolves,
}

module _ (u : ℕ) where
  module _ (f : Formats) (describe : ℕ → String) (stamp : Stamp) (fresh : stamp.uid ≢ u)
      (account : ℕ) where
    pub receipt_note-IsOther :
        (r : Receipt) (l : Ledger)
        → Yields (debit_note_from_receipt f describe stamp account r l) (λ note _. IsOther u note)
    unfolding debit_note_from_receipt debit_matching_receipt debit_note_of
    receipt_note-IsOther r l =
        then-Yields (load_test_and_set r.credit_note.debit_note_uid provisional receipting) _ l _
          λ t l₁.
            try-Yields (debit_matching_receipt f describe stamp account r t)
              (reset_state r.credit_note.debit_note_uid receipting provisional) l₁ _
              (then-Yields (check_that _ _) _ l₁ _ λ _ l₂.
                then-Yields (check_that _ _) _ l₂ _ λ _ l₃.
                  then-Yields (debit_receipt stamp account r) _ l₃ _ λ _ l₄.
                    lift-Yields
                      (new_transaction f r.receipted_value
                        (some (describe r.credit_note.debit_note_uid)))
                      _ l₄ _ λ _ _. fresh)
              (reset_state-raises r.credit_note.debit_note_uid receipting provisional _)

    pub refund_note-IsOther :
        (r : Refund) (l : Ledger)
        → Yields (debit_note_from_refund f describe stamp account r l) (λ note _. IsOther u note)
    unfolding debit_note_from_refund debit_matching_refund debit_note_of
    refund_note-IsOther r l =
        then-Yields (load_test_and_set r.credit_note.debit_note_uid direct refunding) _ l _ λ t l₁.
          try-Yields (debit_matching_refund f describe stamp account r t)
            (reset_state r.credit_note.debit_note_uid refunding direct) l₁ _
            (then-Yields (check_that _ _) _ l₁ _ λ _ l₂. then-Yields (check_that _ _) _ l₂ _ λ _ l₃.
              then-Yields (debit_refund stamp account r) _ l₃ _ λ _ l₄.
                lift-Yields
                  (new_transaction f r.credit_note.value
                    (some (describe r.credit_note.debit_note_uid)))
                  _ l₄ _ λ _ _. fresh)
            (reset_state-raises r.credit_note.debit_note_uid refunding direct _)

  module _ (f : Formats) (describe : ℕ → String) (debit_stamp credit_stamp : Stamp)
      (fresh : debit_stamp.uid ≢ u) where
    receipt_loaded-Evolves :
        (r : Receipt) (l : Ledger)
        → Evolves u l (receipt_loaded f describe debit_stamp credit_stamp r l).1
    unfolding receipt_loaded
    receipt_loaded-Evolves r l =
        seq-runs (Evolves u) (Evolves-refl u) (Evolves-trans u)
          (debit_note_from_receipt f describe debit_stamp r.credit_note.debit_account_uid r) _ l
          (λ note _. IsOther u note)
          (receipt_note-IsOther f describe debit_stamp fresh r.credit_note.debit_account_uid r l)
          (debit_note_from_receipt-Evolves u f describe debit_stamp r.credit_note.debit_account_uid
            r l)
          λ note l₁ other.
            then-runs (Evolves u) (Evolves-refl u) (Evolves-trans u)
              (credit_note_from_receipt credit_stamp r.credit_note.account_uid note r) _ l₁
              (credit_note_from_receipt-Evolves u credit_stamp r.credit_note.account_uid note r l₁)
              λ c l₂. pair_and_record-Evolves u direct (some r) none note c l₂ other

    pub receipt_transaction-Evolves :
        (r : Receipt) (l : Ledger)
        → Evolves u l (receipt_transaction f describe debit_stamp credit_stamp r l).1
    unfolding receipt_transaction
    receipt_transaction-Evolves r l =
        lift-runs (Evolves u) (Evolves-refl u) (Evolves-trans u)
          (load_accounts debit_stamp credit_stamp) _ l λ _ _. receipt_loaded-Evolves r l

    refund_loaded-Evolves :
        (r : Refund) (l : Ledger)
        → Evolves u l (refund_loaded f describe debit_stamp credit_stamp r l).1
    unfolding refund_loaded
    refund_loaded-Evolves r l =
        seq-runs (Evolves u) (Evolves-refl u) (Evolves-trans u)
          (debit_note_from_refund f describe debit_stamp r.credit_note.account_uid r) _ l
          (λ note _. IsOther u note)
          (refund_note-IsOther f describe debit_stamp fresh r.credit_note.account_uid r l)
          (debit_note_from_refund-Evolves u f describe debit_stamp r.credit_note.account_uid r l)
          λ note l₁ other.
            then-runs (Evolves u) (Evolves-refl u) (Evolves-trans u)
              (credit_note_from_refund credit_stamp r.credit_note.debit_account_uid note r) _ l₁
              (credit_note_from_refund-Evolves u credit_stamp r.credit_note.debit_account_uid note r
                l₁)
              λ c l₂. pair_and_record-Evolves u direct none (some r) note c l₂ other

    pub refund_transaction-Evolves :
        (r : Refund) (l : Ledger)
        → Evolves u l (refund_transaction f describe debit_stamp credit_stamp r l).1
    unfolding refund_transaction
    refund_transaction-Evolves r l =
        lift-runs (Evolves u) (Evolves-refl u) (Evolves-trans u)
          (load_accounts credit_stamp debit_stamp) _ l λ _ _. refund_loaded-Evolves r l
