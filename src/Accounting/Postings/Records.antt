-- ===== src/Accounting/Postings/Records.antt =====
-- Acquire/Accounting/_account.py: what is written to an account leaves the records of transactions alone.
use acquire.Base.{
  ℕ, Bool, true, false, Option, none, some, ◌≡◌, sym, subst, refl, ◌∙◌, Bool-cases, inl, inr,
  if◌then◌else◌,
}
use acquire.Base.Int.{ℤ, pos, leb_ℤ, eqb_ℤ}
use acquire.Base.Result.{Result, attribute_error, object_store_error}
use acquire.Base.Exec.{
  Exec, raise, Yields, lift-Yields, then-Yields, Ensures, seq-Ensures, Fails, first-Fails,
}
use acquire.Base.Exec.Runs.{then-runs, lift-runs}
use acquire.Accounting.TransactionInfo.{
  TransactionInfo, TransactionCode, rescind, received_receipt, sent_receipt, received_refund,
  sent_refund,
}
use acquire.Accounting.Notes.{DebitNote, Receipt, Refund}
use acquire.Accounting.Postings.{
  Ledger, Stamp, Funds, line_item, write, post, debit_code, credit_code, undo, undo_if_overdrawn,
  positive_debit, debit_account, credit_account, debit_receipt, credit_receipt, debit_refund,
  credit_refund, receipt_deadline, write_rescinded,
}

abbrev pub SameRecords : Ledger → Ledger → Type 0
SameRecords l l' = l'.records ≡ l.records

abbrev same : (l : Ledger) → SameRecords l l
same l = refl

abbrev same_trans : (l m n : Ledger) → SameRecords l m → SameRecords m n → SameRecords l n
same_trans l m n h k = k ∙ h

write-same :
    (is_written : Bool) (account : ℕ) (info : TransactionInfo) (l : Ledger)
    → SameRecords l (write is_written account info l).1
unfolding write
write-same true account info l = refl
write-same false account info l = refl

post-same :
    (stamp : Stamp) (account : ℕ) (code : TransactionCode) (v : ℤ) (r : Option ℤ) (l : Ledger)
    → SameRecords l (post stamp account code v r l).1
unfolding post
post-same stamp account code v r l =
    then-runs SameRecords same same_trans
      (write stamp.is_written account (line_item stamp code v r)) _ l
      (write-same stamp.is_written account (line_item stamp code v r) l) λ _ _. refl

write_rescinded-same :
    (is_written : Bool) (account : ℕ) (info : TransactionInfo) (code : Option TransactionCode)
    (l : Ledger)
    → SameRecords l
        ((elim code as (λ _. Exec Ledger Unit) [
          | none ↦ raise attribute_error
          | some code ↦ write is_written account info
        ])
          l).1
write_rescinded-same is_written account info none l = refl
write_rescinded-same is_written account info (some code) l = write-same is_written account info l

undo-same :
    (stamp : Stamp) (account : ℕ) (info : TransactionInfo) (l : Ledger)
    → SameRecords l (undo stamp account info l).1
unfolding undo write_rescinded
undo-same stamp account info l = lift-runs SameRecords same same_trans (rescind info) _ l λ x _.
    then-runs SameRecords same same_trans (write_rescinded stamp.is_written account x) _ l
      (write_rescinded-same stamp.is_written account x x.code l) λ _ _. refl

if-same :
    {A : Type 0} (b : Bool) (l : Ledger) (x y : Result A × Ledger)
    → SameRecords l x.1
    → SameRecords l y.1
    → SameRecords l (if b then x else y).1
if-same true l x y h k = h
if-same false l x y h k = k

positive_debit-same :
    (funds : Funds) (stamp : Stamp) (account : ℕ) (v : ℤ) (p : Bool) (receipt_by : Option ℕ)
    (l : Ledger)
    → SameRecords l (positive_debit funds stamp account v p receipt_by l).1
unfolding positive_debit undo_if_overdrawn
positive_debit-same funds stamp account v p receipt_by l =
    lift-runs SameRecords same same_trans (funds.check l account v) _ l λ _ _.
      lift-runs SameRecords same same_trans (receipt_deadline stamp p receipt_by) _ l λ until _.
        then-runs SameRecords same same_trans (post stamp account (debit_code p) v none) _ l
          (post-same stamp account (debit_code p) v none l)
          λ _ l₁.
            then-runs SameRecords same same_trans
              (undo_if_overdrawn funds stamp account (line_item stamp (debit_code p) v none)) _ l₁
              (if-same (funds.overdraws l₁ account) l₁ _ _ (undo-same stamp account _ l₁) refl)
              λ _ _. refl

pub debit_account-same :
    (funds : Funds) (stamp : Stamp) (account : ℕ) (v : ℤ) (p : Bool) (receipt_by : Option ℕ)
    (l : Ledger)
    → SameRecords l (debit_account funds stamp account v p receipt_by l).1
unfolding debit_account
debit_account-same funds stamp account v p receipt_by l = elim (Bool-cases (leb_ℤ v (pos 0))) [
  | inl h ↦ rw (h) refl
  | inr h ↦ rw (h) (positive_debit-same funds stamp account v p receipt_by l)
]

pub credit_account-same :
    (stamp : Stamp) (account : ℕ) (note : DebitNote) (l : Ledger)
    → SameRecords l (credit_account stamp account note l).1
unfolding credit_account
credit_account-same stamp account note l =
    elim (Bool-cases (leb_ℤ note.transaction.value (pos 0))) [
      | inl h ↦ rw (h) refl
      | inr h ↦ rw (h) (
          then-runs SameRecords same same_trans
            (post stamp account (credit_code note.is_provisional) note.transaction.value none) _ l
            (post-same stamp account (credit_code note.is_provisional) note.transaction.value none
              l)
            λ _ _. refl)
    ]

pub debit_receipt-same :
    (stamp : Stamp) (account : ℕ) (r : Receipt) (l : Ledger)
    → SameRecords l (debit_receipt stamp account r l).1
unfolding debit_receipt
debit_receipt-same stamp account r l =
    post-same stamp account received_receipt r.credit_note.value (some r.receipted_value) l

pub debit_refund-same :
    (stamp : Stamp) (account : ℕ) (r : Refund) (l : Ledger)
    → SameRecords l (debit_refund stamp account r l).1
unfolding debit_refund
debit_refund-same stamp account r l = post-same stamp account sent_refund r.credit_note.value none l

pub credit_receipt-same :
    (stamp : Stamp) (account : ℕ) (note : DebitNote) (r : Receipt) (l : Ledger)
    → SameRecords l (credit_receipt stamp account note r l).1
unfolding credit_receipt
credit_receipt-same stamp account note r l =
    elim (Bool-cases (eqb_ℤ r.receipted_value note.transaction.value)) [
      | inl h ↦
          rw (h)
            (post-same stamp account sent_receipt r.credit_note.value (some r.receipted_value) l)
      | inr h ↦ rw (h) refl
    ]

pub credit_refund-same :
    (stamp : Stamp) (account : ℕ) (note : DebitNote) (r : Refund) (l : Ledger)
    → SameRecords l (credit_refund stamp account note r l).1
unfolding credit_refund
credit_refund-same stamp account note r l =
    elim (Bool-cases (eqb_ℤ r.credit_note.value note.transaction.value)) [
      | inl h ↦ rw (h) (post-same stamp account received_refund r.credit_note.value none l)
      | inr h ↦ rw (h) refl
    ]

-- The UID that a debit returns.
abbrev pub HasUid : ℕ → Option (ℕ × ℕ × Option ℕ) → Type 0
HasUid uid none = Unit
HasUid uid (some r) = r.0 ≡ uid

module _ (funds : Funds) (stamp : Stamp) (account : ℕ) (p : Bool) (receipt_by : Option ℕ) where
  positive_debit-HasUid :
      (v : ℤ) (l : Ledger)
      → Yields (positive_debit funds stamp account v p receipt_by l) (λ r _. HasUid stamp.uid r)
  unfolding positive_debit
  positive_debit-HasUid v l = lift-Yields (funds.check l account v) _ l _ λ _ _.
      lift-Yields (receipt_deadline stamp p receipt_by) _ l _ λ until _.
        then-Yields (post stamp account (debit_code p) v none) _ l _ λ _ l₁.
          then-Yields
            (undo_if_overdrawn funds stamp account (line_item stamp (debit_code p) v none)) _ l₁ _
            λ _ _. refl

  pub debit_account-HasUid :
      (v : ℤ) (l : Ledger)
      → Yields (debit_account funds stamp account v p receipt_by l) (λ r _. HasUid stamp.uid r)
  unfolding debit_account
  debit_account-HasUid v l = elim (Bool-cases (leb_ℤ v (pos 0))) [
    | inl h ↦ rw (h) tt
    | inr h ↦ rw (h) (positive_debit-HasUid v l)
  ]

write-Ensures :
    (account : ℕ) (info : TransactionInfo) (l : Ledger)
    → Ensures (write true account info l) (λ _ t. SameRecords l t)
unfolding write
write-Ensures account info l = refl

-- Where the object store accepts writes, the entry is written.
post-Ensures :
    (stamp : Stamp) (account : ℕ) (code : TransactionCode) (v : ℤ) (r : Option ℤ) (l : Ledger)
    → stamp.is_written ≡ true
    → Ensures (post stamp account code v r l) (λ _ t. SameRecords l t)
unfolding post
post-Ensures stamp account code v r l h =
    seq-Ensures (write stamp.is_written account (line_item stamp code v r)) _ l
      (λ _ t. SameRecords l t) _
      (subst (λ b. Ensures (write b account (line_item stamp code v r) l) (λ _ t. SameRecords l t))
        (sym h) (write-Ensures account (line_item stamp code v r) l))
      λ _ _ k. k

pub debit_receipt-Ensures :
    (stamp : Stamp) (account : ℕ) (r : Receipt) (l : Ledger)
    → stamp.is_written ≡ true
    → Ensures (debit_receipt stamp account r l) (λ _ t. SameRecords l t)
unfolding debit_receipt
debit_receipt-Ensures stamp account r l h =
    post-Ensures stamp account received_receipt r.credit_note.value (some r.receipted_value) l h

pub credit_receipt-Ensures :
    (stamp : Stamp) (account : ℕ) (note : DebitNote) (r : Receipt) (l : Ledger)
    → stamp.is_written ≡ true
    → eqb_ℤ r.receipted_value note.transaction.value ≡ true
    → Ensures (credit_receipt stamp account note r l) (λ _ t. SameRecords l t)
unfolding credit_receipt
credit_receipt-Ensures stamp account note r l h same =
    rw (same)
      (post-Ensures stamp account sent_receipt r.credit_note.value (some r.receipted_value) l h)

write-Fails :
    (account : ℕ) (info : TransactionInfo) (l : Ledger)
    → Fails (write false account info l) (λ why t. (why ≡ object_store_error) × (t ≡ l))
unfolding write
write-Fails account info l = (refl, refl)

-- Where the object store refuses the write, nothing is changed.
pub credit_receipt-Fails :
    (stamp : Stamp) (account : ℕ) (note : DebitNote) (r : Receipt) (l : Ledger)
    → stamp.is_written ≡ false
    → eqb_ℤ r.receipted_value note.transaction.value ≡ true
    → Fails (credit_receipt stamp account note r l) (λ why t. (why ≡ object_store_error) × (t ≡ l))
unfolding credit_receipt post
credit_receipt-Fails stamp account note r l h same =
    let info = line_item stamp sent_receipt r.credit_note.value (some r.receipted_value) in
    rw (same) (
      first-Fails (write stamp.is_written account info) _ l
        (λ why t. (why ≡ object_store_error) × (t ≡ l))
        (subst (λ b. Fails (write b account info l) (λ why t. (why ≡ object_store_error) × (t ≡ l)))
          (sym h) (write-Fails account info l)))
