-- ===== src/Accounting/Ledger/Stuck.antt =====
-- `Ledger.receipt` of Acquire/Accounting/_ledger.py: a receipt whose credit cannot be written.
use acquire.Base.{ℕ, String, Bool, true, false, some, ◌≡◌, refl, ap, sym, ◌∙◌, subst, ◌==◌}
use acquire.Base.Int.{eqb_ℤ}
use acquire.Base.Find.{eqb_true}
use acquire.Base.Result.{
  Error, ok, err, object_store_error, transaction_error, unmatched_receipt_error, value_error,
}
use acquire.Base.Exec.{
  Exec, ◌>>◌, Ensures-Yields, Fails, seq-Fails, first-Fails, weaken-Fails, Fails-raised,
}
use acquire.Accounting.Formats.{Formats}
use acquire.Accounting.Transaction.{Transaction, new_transaction}
use acquire.Accounting.Notes.{DebitNote, Receipt, Refund, direct, provisional, receipting}
use acquire.Accounting.Postings.{Ledger, Stamp, credit_receipt}
use acquire.Accounting.Postings.Changes.{Adds, total}
use acquire.Accounting.Postings.Effects.{receipt_debit}
use acquire.Accounting.Postings.Records.{credit_receipt-Fails}
use acquire.Accounting.Ledger.{
  load_test_and_set, check_that, matches_note, eq_state, debit_note_from_receipt,
  credit_note_from_receipt, receipt_transaction, receipt_loaded, load_accounts, refund_transaction,
}
use acquire.Accounting.Ledger.States.{HasState}
use acquire.Accounting.Ledger.Returns.{debit_note_from_receipt-Adds, load-total, Adds-to}
use acquire.Accounting.Ledger.Accepts.{IsReady, load-IsReady, debit_note-Ensures, eqb_self}
use acquire.Accounting.Ledger.Once.{receipt-fails, refund-fails}

check_that-Fails :
    {B : Type 0} (b : Bool) (why : Error) (next : Exec Ledger B) (l : Ledger)
    (q : Error → Ledger → Type 0)
    → b ≡ true
    → Fails (next l) q
    → Fails ((check_that b why >> next) l) q
unfolding check_that
check_that-Fails b why next l q h k = subst (λ b. Fails ((check_that b why >> next) l) q) (sym h) k

-- The credit could not be written: the record is found in the state it was left in.
abbrev IsLeft : Receipt → Ledger → Error → Ledger → Type 0
IsLeft r l why t =
    IsReady r.credit_note receipting t × (why ≡ object_store_error) × (total t ≡ total l)

credit_note-Fails :
    (stamp : Stamp) (r : Receipt) (note : DebitNote) (l : Ledger)
    → IsReady r.credit_note receipting l
    → stamp.is_written ≡ false
    → eqb_ℤ r.receipted_value note.transaction.value ≡ true
    → Fails (credit_note_from_receipt stamp r.credit_note.account_uid note r l) (IsLeft r l)
unfolding credit_note_from_receipt
credit_note-Fails stamp r note l ready refused same_value =
    seq-Fails (load_test_and_set r.credit_note.debit_note_uid receipting receipting) _ l _
      (IsLeft r l)
      (Ensures-Yields (load_test_and_set r.credit_note.debit_note_uid receipting receipting l) _ _
        (load-IsReady r.credit_note receipting receipting l ready)
        (load-total receipting receipting l r.credit_note.debit_note_uid))
      λ x l₁ h.
        check_that-Fails (matches_note x r.credit_note) unmatched_receipt_error _ l₁ (IsLeft r l)
          h.0.1
          (check_that-Fails (r.credit_note.account_uid == r.credit_note.account_uid) value_error _
            l₁ (IsLeft r l) (eqb_true r.credit_note.account_uid _ refl)
            (first-Fails (credit_receipt stamp r.credit_note.account_uid note r) _ l₁ (IsLeft r l) (
              weaken-Fails (credit_receipt stamp r.credit_note.account_uid note r l₁)
                (λ why t. (why ≡ object_store_error) × (t ≡ l₁)) (IsLeft r l)
                (credit_receipt-Fails stamp r.credit_note.account_uid note r l₁ refused same_value)
                λ why t k. (
                  subst (IsReady r.credit_note receipting) (sym k.1) h.0.0,
                  k.0,
                  ap (λ x. total x) k.1 ∙ h.1,
                ))))

eq_receipting_provisional : eq_state receipting provisional ≡ false
unfolding eq_state
eq_receipting_provisional = refl

eq_receipting_direct : eq_state receipting direct ≡ false
unfolding eq_state
eq_receipting_direct = refl

-- The debit was written, the record left, and the store's error raised.
abbrev IsHalfDone : Receipt → Ledger → Error → Ledger → Type 0
IsHalfDone r l why t =
    IsReady r.credit_note receipting t × (why ≡ object_store_error) × Adds l (receipt_debit r) t

receipt_loaded-Fails :
    (f : Formats) (describe : ℕ → String) (debit_stamp credit_stamp : Stamp) (r : Receipt)
    (l : Ledger) (t : Transaction)
    → IsReady r.credit_note provisional l
    → debit_stamp.is_written ≡ true
    → credit_stamp.is_written ≡ false
    → new_transaction f r.receipted_value (some (describe r.credit_note.debit_note_uid)) ≡ ok t
    → t.value ≡ r.receipted_value
    → Fails (receipt_loaded f describe debit_stamp credit_stamp r l) (IsHalfDone r l)
unfolding receipt_loaded
receipt_loaded-Fails f describe debit_stamp credit_stamp r l t ready written refused made same =
    let debits = debit_note_from_receipt f describe debit_stamp r.credit_note.debit_account_uid r in
    seq-Fails debits _ l _ (IsHalfDone r l)
      (Ensures-Yields (debits l) _ _
        (debit_note-Ensures f describe debit_stamp r t l ready written made)
        (debit_note_from_receipt-Adds f describe debit_stamp r.credit_note.debit_account_uid r l))
      λ note l₁ h.
        first-Fails (credit_note_from_receipt credit_stamp r.credit_note.account_uid note r) _ l₁
          (IsHalfDone r l)
          (weaken-Fails (credit_note_from_receipt credit_stamp r.credit_note.account_uid note r l₁)
            (IsLeft r l₁) (IsHalfDone r l)
            (credit_note-Fails credit_stamp r note l₁ h.0.0 refused
              (eqb_self r.receipted_value note.transaction.value (ap (λ x. x.value) h.0.1 ∙ same)))
            λ why l₂ k. (k.0, k.1, Adds-to h.1 k.2))

receipt-Fails :
    (f : Formats) (describe : ℕ → String) (debit_stamp credit_stamp : Stamp) (r : Receipt)
    (l : Ledger) (t : Transaction)
    → load_accounts debit_stamp credit_stamp ≡ ok tt
    → IsReady r.credit_note provisional l
    → debit_stamp.is_written ≡ true
    → credit_stamp.is_written ≡ false
    → new_transaction f r.receipted_value (some (describe r.credit_note.debit_note_uid)) ≡ ok t
    → t.value ≡ r.receipted_value
    → Fails (receipt_transaction f describe debit_stamp credit_stamp r l) (IsHalfDone r l)
unfolding receipt_transaction
receipt-Fails f describe debit_stamp credit_stamp r l t loaded ready written refused made same =
    rw (loaded) (
      receipt_loaded-Fails f describe debit_stamp credit_stamp r l t ready written refused made
        same)

module _ (f : Formats) (describe : ℕ → String) where
  -- A receipt whose debit is accepted by the object store and whose credit is refused raises the store's error. The
  -- debit stays in the sum of all balances, the record of the debit note is left in its state of being receipted, and
  -- neither the receipt nor a refund of that debit note is accepted from there: both raise a transaction error, once their accounts are loaded.
  pub receipt_transaction-stuck :
      (debit_stamp credit_stamp retry_debit retry_credit : Stamp) (r : Receipt) (refund : Refund)
      (l : Ledger) (t : Transaction)
      → load_accounts debit_stamp credit_stamp ≡ ok tt
      → load_accounts retry_debit retry_credit ≡ ok tt
      → load_accounts retry_credit retry_debit ≡ ok tt
      → IsReady r.credit_note provisional l
      → debit_stamp.is_written ≡ true
      → credit_stamp.is_written ≡ false
      → new_transaction f r.receipted_value (some (describe r.credit_note.debit_note_uid)) ≡ ok t
      → t.value ≡ r.receipted_value
      → refund.credit_note.debit_note_uid ≡ r.credit_note.debit_note_uid
      → (l' : Ledger) × (receipt_transaction f describe debit_stamp credit_stamp r l
          ≡ (err object_store_error, l'))
        × Adds l (receipt_debit r) l'
        × HasState r.credit_note.debit_note_uid l' receipting
        × (receipt_transaction f describe retry_debit retry_credit r l'
            ≡ (err transaction_error, l'))
        × (refund_transaction f describe retry_debit retry_credit refund l'
            ≡ (err transaction_error, l'))
  receipt_transaction-stuck debit_stamp credit_stamp retry_debit retry_credit r refund l t loaded
        retry_loaded refund_loads ready written refused made same other =
      let (why, l', raised, half) =
        Fails-raised (receipt_transaction f describe debit_stamp credit_stamp r l) (IsHalfDone r l)
          (receipt-Fails f describe debit_stamp credit_stamp r l t loaded ready written refused made
            same) in
      let (x, found, state, _) = half.0.1 in
      let has : HasState r.credit_note.debit_note_uid l' receipting = (x, found, state) in
      (
        l',
        raised ∙ ap (λ e. (err e, l')) half.1,
        half.2,
        has,
        receipt-fails f describe retry_debit retry_credit r l' receipting has
            eq_receipting_provisional retry_loaded,
        refund-fails f describe retry_debit retry_credit refund l' receipting
            (subst (λ u. HasState u l' receipting) (sym other) has) eq_receipting_direct
            refund_loads,
      )
