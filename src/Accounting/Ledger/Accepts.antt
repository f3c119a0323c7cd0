-- ===== src/Accounting/Ledger/Accepts.antt =====
-- Acquire/Accounting/_ledger.py: when a receipt is accepted.
use acquire.Base.{
  ℕ, String, Bool, true, none, some, List, [], ◌∷◌, ◌≡◌, refl, ap, sym, ◌∙◌, inl, inr, Bool-cases,
  subst, find, ◌==◌,
}
use acquire.Base.Int.{ℤ, eqb_ℤ, eqb_ℤ_refl}
use acquire.Base.Find.{find-All, find-here, eqb_true}
use acquire.Base.Result.{Error, Result, ok, unmatched_receipt_error, value_error}
use acquire.Base.Exec.{Exec, ◌>>=◌, ◌>>◌, lift, Ensures, seq-Ensures, try-Ensures, Ensures-returned}
use acquire.Accounting.Formats.{Formats}
use acquire.Accounting.Transaction.{Transaction, new_transaction}
use acquire.Accounting.Notes.{
  DebitNote, CreditNote, Receipt, TransactionState, TransactionRecord, direct, provisional,
  receipting, receipted,
}
use acquire.Accounting.Postings.{Ledger, Stamp, debit_receipt, credit_receipt}
use acquire.Accounting.Postings.Records.{SameRecords, debit_receipt-Ensures, credit_receipt-Ensures}
use acquire.Accounting.Ledger.{
  eq_state, save_transaction, change_state, test_and_set, load_test_and_set, check_that,
  matches_note, reset_state, debit_note_from_receipt, debit_matching_receipt,
  credit_note_from_receipt, pair_and_record, receipt_transaction, receipt_loaded, load_accounts,
  debit_note_of, credit_note_of, create_pairs, pair_notes, balanced_pairs, record_to_ledger,
  new_record,
}
use acquire.Accounting.Ledger.States.{IsStored, eq_state_sound, eq_state_refl}

-- The record of the debit note has this state, and belongs to the credit note.
abbrev pub IsReady : CreditNote → TransactionState → Ledger → Type 0
IsReady note s l =
    IsStored l
    × ((r : TransactionRecord) × (find note.debit_note_uid l.records ≡ some r)
        × (r.transaction_state ≡ s)
        × (matches_note r note ≡ true))

module _ (note : CreditNote) (a b : TransactionState) (l : Ledger) where
  change_state-IsReady :
      (r : TransactionRecord)
      → IsStored l
      → find note.debit_note_uid l.records ≡ some r
      → r.transaction_state ≡ a
      → matches_note r note ≡ true
      → Ensures (change_state r a b l) (λ r' t. IsReady note b t × (matches_note r' note ≡ true))
  unfolding change_state save_transaction matches_note
  change_state-IsReady r stored found is_a matches = elim (Bool-cases (eq_state a b)) [
    | inl h ↦ rw (h) ((stored, (r, found, is_a ∙ eq_state_sound a b h, matches)), matches)
    | inr h ↦
        let new : TransactionRecord = record r { transaction_state = b } in
        let uid : r.debit_note.uid ≡ note.debit_note_uid =
          find-All (λ k x. x.debit_note.uid ≡ k) note.debit_note_uid l.records stored found in
        let found' : find note.debit_note_uid ((r.debit_note.uid, new) ∷ l.records) ≡ some new =
          find-here note.debit_note_uid r.debit_note.uid new l.records
            (eqb_true r.debit_note.uid note.debit_note_uid uid) in
        rw (h) (((refl, stored), (new, found', refl, matches)), matches)
  ]

  pub load-IsReady :
      IsReady note a l
      → Ensures
          (load_test_and_set note.debit_note_uid a b l)
          (λ r' t. IsReady note b t × (matches_note r' note ≡ true))
  unfolding load_test_and_set test_and_set
  load-IsReady (stored, (r, found, is_a, matches)) =
      let expected : eq_state r.transaction_state a ≡ true =
        subst (λ s. eq_state s a ≡ true) (sym is_a) (eq_state_refl a) in
      rw (found, test_and_set, expected) (change_state-IsReady r stored found is_a matches)

IsReady-same :
    (note : CreditNote) (s : TransactionState) (l t : Ledger)
    → SameRecords l t
    → IsReady note s l
    → IsReady note s t
IsReady-same note s l t h ready =
    subst (λ rs. IsReady note s (record { entries = []; records = rs })) (sym h) ready

check_that-Ensures :
    {B : Type 0} (b : Bool) (why : Error) (next : Exec Ledger B) (l : Ledger)
    (q : B → Ledger → Type 0)
    → b ≡ true
    → Ensures (next l) q
    → Ensures ((check_that b why >> next) l) q
unfolding check_that
check_that-Ensures b why next l q h k =
    subst (λ b. Ensures ((check_that b why >> next) l) q) (sym h) k

lift-Ensures :
    {A B : Type 0} (r : Result A) (next : A → Exec Ledger B) (l : Ledger) (q : B → Ledger → Type 0)
    (a : A)
    → r ≡ ok a
    → Ensures (next a l) q
    → Ensures ((lift r >>= next) l) q
lift-Ensures r next l q a h k = subst (λ r. Ensures ((lift r >>= next) l) q) (sym h) k

pub eqb_self : (v w : ℤ) → w ≡ v → eqb_ℤ v w ≡ true
eqb_self v w h = subst (λ x. eqb_ℤ v x ≡ true) (sym h) (eqb_ℤ_refl v)

create_pairs-one :
    (note : DebitNote) (c : CreditNote)
    → c.debit_note_uid ≡ note.uid
    → create_pairs (note ∷ []) ((c.debit_note_uid, c) ∷ [])
      ≡ ok (record { debit_note = note; credit_note = c } ∷ [])
unfolding create_pairs pair_notes balanced_pairs
create_pairs-one note c h = rw (balanced_pairs, eqb_true c.debit_note_uid note.uid h) refl

-- What `Ledger.receipt` returns.
abbrev pub IsReceiptOf : Receipt → List TransactionRecord → Type 0
IsReceiptOf r records =
    (made : TransactionRecord) × (records ≡ made ∷ [])
    × (made.transaction_state ≡ direct)
    × (made.receipt ≡ some r)

pair_and_record-Ensures :
    (r : Receipt) (note : DebitNote) (c : CreditNote) (l : Ledger)
    → c.debit_note_uid ≡ note.uid
    → Ensures (pair_and_record direct (some r) none note c l) (λ records _. IsReceiptOf r records)
unfolding pair_and_record record_to_ledger new_record
pair_and_record-Ensures r note c l h = rw (create_pairs-one note c h) (_, refl, refl, refl)

module _ (f : Formats) (describe : ℕ → String) (stamp : Stamp) (r : Receipt) (t : Transaction) where
  pub debit_note-Ensures :
      (l : Ledger)
      → IsReady r.credit_note provisional l
      → stamp.is_written ≡ true
      → new_transaction f r.receipted_value (some (describe r.credit_note.debit_note_uid)) ≡ ok t
      → Ensures
          (debit_note_from_receipt f describe stamp r.credit_note.debit_account_uid r l)
          (λ note l'. IsReady r.credit_note receipting l' × (note.transaction ≡ t))
  unfolding debit_note_from_receipt debit_matching_receipt debit_note_of
  debit_note-Ensures l ready written made =
      seq-Ensures (load_test_and_set r.credit_note.debit_note_uid provisional receipting) _ l _ _
        (load-IsReady r.credit_note provisional receipting l ready)
        λ x l₁ h.
          try-Ensures (debit_matching_receipt f describe stamp r.credit_note.debit_account_uid r x)
            (reset_state r.credit_note.debit_note_uid receipting provisional) l₁ _
            (check_that-Ensures (matches_note x r.credit_note) unmatched_receipt_error _ l₁ _ h.1 (
              check_that-Ensures
                (r.credit_note.debit_account_uid == r.credit_note.debit_account_uid) value_error _
                l₁ _ (eqb_true r.credit_note.debit_account_uid _ refl)
                (seq-Ensures (debit_receipt stamp r.credit_note.debit_account_uid r) _ l₁ _ _
                  (debit_receipt-Ensures stamp r.credit_note.debit_account_uid r l₁ written)
                  λ _ l₂ same.
                    lift-Ensures
                      (new_transaction f r.receipted_value
                        (some (describe r.credit_note.debit_note_uid)))
                      _ l₂ _ t made (IsReady-same r.credit_note receipting l₁ l₂ same h.0, refl))))

credit_note-Ensures :
    (stamp : Stamp) (r : Receipt) (note : DebitNote) (l : Ledger)
    → IsReady r.credit_note receipting l
    → stamp.is_written ≡ true
    → eqb_ℤ r.receipted_value note.transaction.value ≡ true
    → Ensures
        (credit_note_from_receipt stamp r.credit_note.account_uid note r l)
        (λ c _. c.debit_note_uid ≡ note.uid)
unfolding credit_note_from_receipt credit_note_of
credit_note-Ensures stamp r note l ready written same_value =
    seq-Ensures (load_test_and_set r.credit_note.debit_note_uid receipting receipting) _ l _ _
      (load-IsReady r.credit_note receipting receipting l ready)
      λ x l₁ h.
        check_that-Ensures (matches_note x r.credit_note) unmatched_receipt_error _ l₁ _ h.1 (
          check_that-Ensures (r.credit_note.account_uid == r.credit_note.account_uid) value_error _
            l₁ _ (eqb_true r.credit_note.account_uid _ refl)
            (seq-Ensures (credit_receipt stamp r.credit_note.account_uid note r) _ l₁ _ _
              (credit_receipt-Ensures stamp r.credit_note.account_uid note r l₁ written same_value)
              λ _ l₂ same.
                seq-Ensures (load_test_and_set r.credit_note.debit_note_uid receipting receipted) _
                  l₂ _ _
                  (load-IsReady r.credit_note receipting receipted l₂
                    (IsReady-same r.credit_note receipting l₁ l₂ same h.0))
                  λ _ _ _. refl))

-- A receipt returns one direct record that holds it, where both accounts load, the record of its debit note is provisional and matches its
-- credit note, the object store accepts both writes, and the receipted value makes a transaction of that value.
-- This is at any time: the `receipt_by` of the notes plays no part.
pub receipt_transaction-returns :
    (f : Formats) (describe : ℕ → String) (debit_stamp credit_stamp : Stamp) (r : Receipt)
    (l : Ledger) (t : Transaction)
    → load_accounts debit_stamp credit_stamp ≡ ok tt
    → IsReady r.credit_note provisional l
    → debit_stamp.is_written ≡ true
    → credit_stamp.is_written ≡ true
    → new_transaction f r.receipted_value (some (describe r.credit_note.debit_note_uid)) ≡ ok t
    → t.value ≡ r.receipted_value
    → (records : List TransactionRecord) × (l' : Ledger) × (receipt_transaction f describe
          debit_stamp credit_stamp r l
        ≡ (ok records, l'))
      × IsReceiptOf r records
unfolding receipt_transaction receipt_loaded
receipt_transaction-returns f describe debit_stamp credit_stamp r l t loaded ready debit_written
      credit_written made same =
    Ensures-returned (receipt_transaction f describe debit_stamp credit_stamp r l)
      (λ records _. IsReceiptOf r records)
      (lift-Ensures (load_accounts debit_stamp credit_stamp) _ l _ tt loaded (
        seq-Ensures
          (debit_note_from_receipt f describe debit_stamp r.credit_note.debit_account_uid r) _ l _ _
          (debit_note-Ensures f describe debit_stamp r t l ready debit_written made)
          λ note l₁ h.
            seq-Ensures (credit_note_from_receipt credit_stamp r.credit_note.account_uid note r) _
              l₁ _ _
              (credit_note-Ensures credit_stamp r note l₁ h.0 credit_written
                (eqb_self r.receipted_value note.transaction.value (ap (λ x. x.value) h.1 ∙ same)))
              λ c l₂ k. pair_and_record-Ensures r note c l₂ k))
