-- ===== src/Accounting/Ledger/Returns.antt =====
-- Acquire/Accounting/_ledger.py: what receipts and refunds do to the sum of all balances.
use acquire.Base.{
  ℕ, String, Bool, true, false, Option, none, some, List, [], ◌∷◌, ◌≡◌, refl, ap, sym, ◌∙◌,
  Bool-cases, inl, inr, subst, ◌==◌, find,
}
use acquire.Base.Result.{Error, ok, unmatched_receipt_error, unmatched_refund_error, value_error}
use acquire.Base.Exec.{
  Exec, ◌>>◌, Yields, seq-Yields, lift-Yields, then-Yields, try-Yields, weaken-Yields,
  Yields-returned,
}
use acquire.Accounting.Formats.{Formats}
use acquire.Accounting.Balance.{Balance, add_balance}
use acquire.Accounting.Transaction.{new_transaction}
use acquire.Accounting.Notes.{
  DebitNote, CreditNote, Receipt, Refund, TransactionState, TransactionRecord, direct, provisional,
  receipting, receipted, refunding, refunded,
}
use acquire.Accounting.Postings.{
  Ledger, Stamp, debit_receipt, credit_receipt, debit_refund, credit_refund,
}
use acquire.Accounting.Postings.Changes.{
  total, Adds, debit_effect, credit_effect, IsBalanced, transfer-IsBalanced, Adds-twice,
  Adds-IsBalanced,
}
use acquire.Accounting.Postings.Effects.{
  receipt_debit, receipt_credit, receipt-IsBalanced, debit_receipt-Adds, credit_receipt-Adds,
  debit_refund-Adds, credit_refund-Adds,
}
use acquire.Accounting.Ledger.{
  eq_state, save_transaction, change_state, test_and_set, load_test_and_set, check_that,
  matches_note, reset_state, debit_matching_receipt, debit_note_from_receipt, debit_matching_refund,
  debit_note_from_refund, credit_note_from_receipt, credit_note_from_refund, create_pairs,
  pair_and_record, receipt_transaction, receipt_loaded, refund_loaded, load_accounts,
  refund_transaction,
}
use acquire.Accounting.Ledger.Conserve.{record_to_ledger-total}

module _ (expected new : TransactionState) (l : Ledger) where
  change_state-total :
      (r : TransactionRecord) → Yields (change_state r expected new l) (λ _ l'. total l' ≡ total l)
  unfolding change_state save_transaction
  change_state-total r = elim (Bool-cases (eq_state expected new)) [
    | inl h ↦ rw (h) refl
    | inr h ↦ rw (h) refl
  ]

  test_and_set-total :
      (r : Option TransactionRecord)
      → Yields (test_and_set r expected new l) (λ _ l'. total l' ≡ total l)
  unfolding test_and_set
  test_and_set-total none = tt
  test_and_set-total (some r) = elim (Bool-cases (eq_state r.transaction_state expected)) [
    | inl h ↦ rw (h) (change_state-total r)
    | inr h ↦ rw (h) tt
  ]

  pub load-total :
      (uid : ℕ) → Yields (load_test_and_set uid expected new l) (λ _ l'. total l' ≡ total l)
  unfolding load_test_and_set
  load-total uid = test_and_set-total (find uid l.records)

Adds-from : {l m l' : Ledger} {b : Balance} → total m ≡ total l → Adds m b l' → Adds l b l'
Adds-from {b = b} h k = record { adds = k.adds ∙ ap (λ c. add_balance b c) h }

pub Adds-to : {l m l' : Ledger} {b : Balance} → Adds l b m → total l' ≡ total m → Adds l b l'
Adds-to h k = record { adds = k ∙ h.adds }

pub check_that-Yields :
    {B : Type 0} (b : Bool) (why : Error) (next : Exec Ledger B) (l : Ledger)
    (q : B → Ledger → Type 0)
    → Yields (next l) q
    → Yields ((check_that b why >> next) l) q
unfolding check_that
check_that-Yields true why next l q h = h
check_that-Yields false why next l q h = tt

pub reset_state-raises :
    (uid : ℕ) (expected new : TransactionState) (q : DebitNote → Ledger → Type 0) (why : Error)
    (t : Ledger)
    → Yields (reset_state uid expected new why t) q
unfolding reset_state
reset_state-raises uid expected new q why t =
    then-Yields (load_test_and_set uid expected new) _ t q λ _ _. tt

pair_and_record-total :
    (state : TransactionState) (r : Option Receipt) (refund : Option Refund) (note : DebitNote)
    (c : CreditNote) (l : Ledger)
    → Yields (pair_and_record state r refund note c l) (λ _ l'. total l' ≡ total l)
unfolding pair_and_record
pair_and_record-total state r refund note c l =
    lift-Yields (create_pairs (note ∷ []) ((c.debit_note_uid, c) ∷ [])) _ l _
      λ pairs _. record_to_ledger-total state r refund pairs l

module _ (f : Formats) (describe : ℕ → String) (stamp : Stamp) (account : ℕ) where
  debit_matching_receipt-Adds :
      (r : Receipt) (t : TransactionRecord) (l : Ledger)
      → Yields
          (debit_matching_receipt f describe stamp account r t l)
          (λ _ l'. Adds l (receipt_debit r) l')
  unfolding debit_matching_receipt
  debit_matching_receipt-Adds r t l =
      check_that-Yields (matches_note t r.credit_note) unmatched_receipt_error _ l _ (
        check_that-Yields (account == r.credit_note.debit_account_uid) value_error _ l _ (
          seq-Yields (debit_receipt stamp account r) _ l _ _ (debit_receipt-Adds stamp account r l)
            λ _ l₁ h.
              lift-Yields
                (new_transaction f r.receipted_value (some (describe r.credit_note.debit_note_uid)))
                _ l₁ _ λ _ _. h))

  debit_matching_refund-Adds :
      (r : Refund) (t : TransactionRecord) (l : Ledger)
      → Yields
          (debit_matching_refund f describe stamp account r t l)
          (λ _ l'. Adds l (debit_effect false r.credit_note.value) l')
  unfolding debit_matching_refund
  debit_matching_refund-Adds r t l =
      check_that-Yields (matches_note t r.credit_note) unmatched_refund_error _ l _ (
        check_that-Yields (account == r.credit_note.account_uid) value_error _ l _ (
          seq-Yields (debit_refund stamp account r) _ l _ _ (debit_refund-Adds stamp account r l)
            λ _ l₁ h.
              lift-Yields
                (new_transaction f r.credit_note.value
                  (some (describe r.credit_note.debit_note_uid)))
                _ l₁ _ λ _ _. h))

  pub debit_note_from_receipt-Adds :
      (r : Receipt) (l : Ledger)
      → Yields
          (debit_note_from_receipt f describe stamp account r l)
          (λ _ l'. Adds l (receipt_debit r) l')
  unfolding debit_note_from_receipt
  debit_note_from_receipt-Adds r l =
      seq-Yields (load_test_and_set r.credit_note.debit_note_uid provisional receipting) _ l _ _
        (load-total provisional receipting l r.credit_note.debit_note_uid)
        λ t l₁ same.
          try-Yields (debit_matching_receipt f describe stamp account r t)
            (reset_state r.credit_note.debit_note_uid receipting provisional) l₁ _
            (weaken-Yields (debit_matching_receipt f describe stamp account r t l₁)
              (debit_matching_receipt-Adds r t l₁) λ _ _ h. Adds-from same h)
            (reset_state-raises r.credit_note.debit_note_uid receipting provisional _)

  debit_note_from_refund-Adds :
      (r : Refund) (l : Ledger)
      → Yields
          (debit_note_from_refund f describe stamp account r l)
          (λ _ l'. Adds l (debit_effect false r.credit_note.value) l')
  unfolding debit_note_from_refund
  debit_note_from_refund-Adds r l =
      seq-Yields (load_test_and_set r.credit_note.debit_note_uid direct refunding) _ l _ _
        (load-total direct refunding l r.credit_note.debit_note_uid)
        λ t l₁ same.
          try-Yields (debit_matching_refund f describe stamp account r t)
            (reset_state r.credit_note.debit_note_uid refunding direct) l₁ _
            (weaken-Yields (debit_matching_refund f describe stamp account r t l₁)
              (debit_matching_refund-Adds r t l₁) λ _ _ h. Adds-from same h)
            (reset_state-raises r.credit_note.debit_note_uid refunding direct _)

module _ (stamp : Stamp) (account : ℕ) (note : DebitNote) where
  credit_note_from_receipt-Adds :
      (r : Receipt) (l : Ledger)
      → Yields
          (credit_note_from_receipt stamp account note r l)
          (λ _ l'. Adds l (receipt_credit r) l')
  unfolding credit_note_from_receipt
  credit_note_from_receipt-Adds r l =
      seq-Yields (load_test_and_set r.credit_note.debit_note_uid receipting receipting) _ l _ _
        (load-total receipting receipting l r.credit_note.debit_note_uid)
        λ t l₁ same.
          check_that-Yields (matches_note t r.credit_note) unmatched_receipt_error _ l₁ _ (
            check_that-Yields (account == r.credit_note.account_uid) value_error _ l₁ _ (
              seq-Yields (credit_receipt stamp account note r) _ l₁ _ _
                (credit_receipt-Adds stamp account note r l₁)
                λ _ l₂ h.
                  seq-Yields (load_test_and_set r.credit_note.debit_note_uid receipting receipted) _
                    l₂ _ _ (load-total receipting receipted l₂ r.credit_note.debit_note_uid)
                    λ _ l₃ k. Adds-to (Adds-from same h) k))

  credit_note_from_refund-Adds :
      (r : Refund) (l : Ledger)
      → Yields
          (credit_note_from_refund stamp account note r l)
          (λ _ l'. Adds l (credit_effect false r.credit_note.value) l')
  unfolding credit_note_from_refund
  credit_note_from_refund-Adds r l =
      seq-Yields (load_test_and_set r.credit_note.debit_note_uid refunding refunding) _ l _ _
        (load-total refunding refunding l r.credit_note.debit_note_uid)
        λ t l₁ same.
          check_that-Yields (matches_note t r.credit_note) unmatched_refund_error _ l₁ _ (
            check_that-Yields (account == r.credit_note.debit_account_uid) value_error _ l₁ _ (
              seq-Yields (credit_refund stamp account note r) _ l₁ _ _
                (credit_refund-Adds stamp account note r l₁)
                λ _ l₂ h.
                  seq-Yields (load_test_and_set r.credit_note.debit_note_uid refunding refunded) _
                    l₂ _ _ (load-total refunding refunded l₂ r.credit_note.debit_note_uid)
                    λ _ l₃ k. Adds-to (Adds-from same h) k))

module _ (f : Formats) (describe : ℕ → String) (debit_stamp credit_stamp : Stamp) where
  receipt_loaded-total :
      (r : Receipt) (l : Ledger)
      → IsBalanced (total l)
      → Yields
          (receipt_loaded f describe debit_stamp credit_stamp r l)
          (λ _ l'. IsBalanced (total l'))
  unfolding receipt_loaded
  receipt_loaded-total r l balanced =
      seq-Yields (debit_note_from_receipt f describe debit_stamp r.credit_note.debit_account_uid r)
        _ l _ _
        (debit_note_from_receipt-Adds f describe debit_stamp r.credit_note.debit_account_uid r l)
        λ note l₁ h.
          seq-Yields (credit_note_from_receipt credit_stamp r.credit_note.account_uid note r) _ l₁ _
            _ (credit_note_from_receipt-Adds credit_stamp r.credit_note.account_uid note r l₁)
            λ c l₂ k.
              weaken-Yields (pair_and_record direct (some r) none note c l₂)
                (pair_and_record-total direct (some r) none note c l₂)
                λ _ l₃ same.
                  subst IsBalanced (sym same)
                    (Adds-IsBalanced (Adds-twice h k) (receipt-IsBalanced r) balanced)

  receipt-total :
      (r : Receipt) (l : Ledger)
      → IsBalanced (total l)
      → Yields
          (receipt_transaction f describe debit_stamp credit_stamp r l)
          (λ _ l'. IsBalanced (total l'))
  unfolding receipt_transaction
  receipt-total r l balanced =
      lift-Yields (load_accounts debit_stamp credit_stamp) _ l _
        λ _ _. receipt_loaded-total r l balanced

  refund_loaded-total :
      (r : Refund) (l : Ledger)
      → IsBalanced (total l)
      → Yields
          (refund_loaded f describe debit_stamp credit_stamp r l)
          (λ _ l'. IsBalanced (total l'))
  unfolding refund_loaded
  refund_loaded-total r l balanced =
      seq-Yields (debit_note_from_refund f describe debit_stamp r.credit_note.account_uid r) _ l _ _
        (debit_note_from_refund-Adds f describe debit_stamp r.credit_note.account_uid r l)
        λ note l₁ h.
          seq-Yields (credit_note_from_refund credit_stamp r.credit_note.debit_account_uid note r) _
            l₁ _ _
            (credit_note_from_refund-Adds credit_stamp r.credit_note.debit_account_uid note r l₁)
            λ c l₂ k.
              weaken-Yields (pair_and_record direct none (some r) note c l₂)
                (pair_and_record-total direct none (some r) note c l₂)
                λ _ l₃ same. subst IsBalanced (sym same) (
                  Adds-IsBalanced (Adds-twice h k) (transfer-IsBalanced false r.credit_note.value)
                    balanced)

  refund-total :
      (r : Refund) (l : Ledger)
      → IsBalanced (total l)
      → Yields
          (refund_transaction f describe debit_stamp credit_stamp r l)
          (λ _ l'. IsBalanced (total l'))
  unfolding refund_transaction
  refund-total r l balanced =
      lift-Yields (load_accounts credit_stamp debit_stamp) _ l _
        λ _ _. refund_loaded-total r l balanced

  -- A receipt that returns keeps the sum of all balances at nothing, with each liability another's receivable,
  -- also where less was receipted than was reserved.
  pub receipt_transaction-IsBalanced :
      (r : Receipt) (l : Ledger) {records : List TransactionRecord} {l' : Ledger}
      → receipt_transaction f describe debit_stamp credit_stamp r l ≡ (ok records, l')
      → IsBalanced (total l)
      → IsBalanced (total l')
  receipt_transaction-IsBalanced r l h balanced =
      Yields-returned (receipt_transaction f describe debit_stamp credit_stamp r l)
        (λ _ l'. IsBalanced (total l')) h (receipt-total r l balanced)

  -- A refund that returns keeps the sum of all balances at nothing, with each liability another's receivable.
  pub refund_transaction-IsBalanced :
      (r : Refund) (l : Ledger) {records : List TransactionRecord} {l' : Ledger}
      → refund_transaction f describe debit_stamp credit_stamp r l ≡ (ok records, l')
      → IsBalanced (total l)
      → IsBalanced (total l')
  refund_transaction-IsBalanced r l h balanced =
      Yields-returned (refund_transaction f describe debit_stamp credit_stamp r l)
        (λ _ l'. IsBalanced (total l')) h (refund-total r l balanced)
