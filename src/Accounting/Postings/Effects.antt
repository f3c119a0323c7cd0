-- ===== src/Accounting/Postings/Effects.antt =====
-- Acquire/Accounting/_account.py: what each write to an account adds to the sum of all balances.
use acquire.Base.{
  sym, ℕ, Bool, true, false, Option, none, some, ◌≡◌, subst, refl, ap, ◌∙◌, inl, inr, Bool-cases,
}
use acquire.Base.Int.{ℤ, pos, neg, ◌+ℤ◌, int_laws, eqb_ℤ}
use acquire.Base.Exec.{Yields, weaken-Yields}
use acquire.Accounting.TransactionInfo.{
  received_receipt, sent_receipt, received_refund, sent_refund, effective_value,
}
use acquire.Accounting.Balance.{zero_balance, Balance, add_balance}
use acquire.Accounting.Balance.Adding.{
  add_balance_comm, add_balance_zero, balance_eq, change, change_of,
}
use acquire.Accounting.Notes.{DebitNote, Receipt, Refund}
use acquire.Accounting.Postings.{
  Ledger, Stamp, line_item, post, debit_code, credit_code, debit_receipt, credit_receipt,
  debit_refund, credit_refund,
}
use acquire.Accounting.Postings.Changes.{
  total, Adds, Debited, Credited, debit_effect, credit_effect, IsBalanced, Posted-Adds, Adds-twice,
  post-Posted,
}

debit-change :
    (stamp : Stamp) (p : Bool) (v : ℤ)
    → change (line_item stamp (debit_code p) v none) ≡ debit_effect p v
unfolding change change_of line_item debit_code effective_value
debit-change stamp true v = refl
debit-change stamp false v = refl

credit-change :
    (stamp : Stamp) (p : Bool) (v : ℤ)
    → change (line_item stamp (credit_code p) v none) ≡ credit_effect p v
unfolding change change_of line_item credit_code effective_value
credit-change stamp true v = refl
credit-change stamp false v = refl

pub Debited-Adds :
    (l l' : Ledger) (stamp : Stamp) (account : ℕ) (v : ℤ) (p : Bool) (r : ℕ × ℕ × Option ℕ)
    → Debited l stamp account v p (some r) l'
    → Adds l (debit_effect p v) l'
Debited-Adds l l' stamp account v p r h = Posted-Adds l l' account _ h.1 (debit-change stamp p v)

pub Credited-Adds :
    (l l' : Ledger) (stamp : Stamp) (account : ℕ) (note : DebitNote) (r : ℕ × ℕ)
    → Credited l stamp account note (some r) l'
    → Adds l (credit_effect note.is_provisional note.transaction.value) l'
Credited-Adds l l' stamp account note r h =
    Posted-Adds l l' account _ h.1 (credit-change stamp note.is_provisional note.transaction.value)

abbrev pub receipt_debit : Receipt → Balance
receipt_debit r = record {
  balance = neg r.receipted_value;
  liability = neg r.credit_note.value;
  receivable = pos 0;
}

abbrev pub receipt_credit : Receipt → Balance
receipt_credit r = record {
  balance = r.receipted_value;
  liability = pos 0;
  receivable = neg r.credit_note.value;
}

-- A receipt takes the liability and the receivable away together.
pub receipt-IsBalanced :
    (r : Receipt) → IsBalanced (add_balance (receipt_credit r) (receipt_debit r))
unfolding add_balance
receipt-IsBalanced r = (omega int_laws, omega int_laws)

pub debit_receipt-Adds :
    (stamp : Stamp) (account : ℕ) (r : Receipt) (l : Ledger)
    → Yields (debit_receipt stamp account r l) (λ _ l'. Adds l (receipt_debit r) l')
unfolding debit_receipt change change_of line_item
debit_receipt-Adds stamp account r l =
    weaken-Yields
      (post stamp account received_receipt r.credit_note.value (some r.receipted_value) l)
      (post-Posted stamp account received_receipt r.credit_note.value (some r.receipted_value) l)
      λ _ l' h. Posted-Adds l l' account _ h refl

pub credit_receipt-Adds :
    (stamp : Stamp) (account : ℕ) (note : DebitNote) (r : Receipt) (l : Ledger)
    → Yields (credit_receipt stamp account note r l) (λ _ l'. Adds l (receipt_credit r) l')
unfolding credit_receipt change change_of line_item
credit_receipt-Adds stamp account note r l =
    elim (Bool-cases (eqb_ℤ r.receipted_value note.transaction.value)) [
      | inl h ↦ rw (h) (
          weaken-Yields
            (post stamp account sent_receipt r.credit_note.value (some r.receipted_value) l)
            (post-Posted stamp account sent_receipt r.credit_note.value (some r.receipted_value) l)
            λ _ l' k. Posted-Adds l l' account _ k refl)
      | inr h ↦ rw (h) tt
    ]

pub debit_refund-Adds :
    (stamp : Stamp) (account : ℕ) (r : Refund) (l : Ledger)
    → Yields
        (debit_refund stamp account r l)
        (λ _ l'. Adds l (debit_effect false r.credit_note.value) l')
unfolding debit_refund change change_of line_item effective_value
debit_refund-Adds stamp account r l =
    weaken-Yields (post stamp account sent_refund r.credit_note.value none l)
      (post-Posted stamp account sent_refund r.credit_note.value none l)
      λ _ l' h. Posted-Adds l l' account _ h refl

pub credit_refund-Adds :
    (stamp : Stamp) (account : ℕ) (note : DebitNote) (r : Refund) (l : Ledger)
    → Yields
        (credit_refund stamp account note r l)
        (λ _ l'. Adds l (credit_effect false r.credit_note.value) l')
unfolding credit_refund change change_of line_item effective_value
credit_refund-Adds stamp account note r l =
    elim (Bool-cases (eqb_ℤ r.credit_note.value note.transaction.value)) [
      | inl h ↦ rw (h) (
          weaken-Yields (post stamp account received_refund r.credit_note.value none l)
            (post-Posted stamp account received_refund r.credit_note.value none l)
            λ _ l' k. Posted-Adds l l' account _ k refl)
      | inr h ↦ rw (h) tt
    ]

debit_effect_add :
    (p : Bool) (v w : ℤ)
    → add_balance (debit_effect p v) (debit_effect p w) ≡ debit_effect p (v +ℤ w)
unfolding add_balance
debit_effect_add true v w = balance_eq (omega int_laws) (omega int_laws) (omega int_laws)
debit_effect_add false v w = balance_eq (omega int_laws) (omega int_laws) (omega int_laws)

credit_effect_add :
    (p : Bool) (v w : ℤ)
    → add_balance (credit_effect p v) (credit_effect p w) ≡ credit_effect p (v +ℤ w)
unfolding add_balance
credit_effect_add true v w = balance_eq (omega int_laws) (omega int_laws) (omega int_laws)
credit_effect_add false v w = balance_eq (omega int_laws) (omega int_laws) (omega int_laws)

pub Adds-debits :
    (p : Bool) (v w : ℤ) {l m l' : Ledger}
    → Adds l (debit_effect p v) m
    → Adds m (debit_effect p w) l'
    → Adds l (debit_effect p (v +ℤ w)) l'
Adds-debits p v w {l = l} {l' = l'} h k =
    subst (λ b. Adds l b l') (debit_effect_add p w v ∙ ap (debit_effect p) (omega int_laws))
      (Adds-twice h k)

pub Adds-credits :
    (p : Bool) (v w : ℤ) {l m l' : Ledger}
    → Adds l (credit_effect p v) m
    → Adds m (credit_effect p w) l'
    → Adds l (credit_effect p (v +ℤ w)) l'
Adds-credits p v w {l = l} {l' = l'} h k =
    subst (λ b. Adds l b l') (credit_effect_add p w v ∙ ap (credit_effect p) (omega int_laws))
      (Adds-twice h k)

no_change : (b : Balance) → b ≡ add_balance zero_balance b
no_change b = sym (add_balance_comm zero_balance b ∙ add_balance_zero b)

pub Adds-no_debit : (p : Bool) (l : Ledger) → Adds l (debit_effect p (pos 0)) l
unfolding neg
Adds-no_debit true l = record { adds = no_change (total l) }
Adds-no_debit false l = record { adds = no_change (total l) }

pub Adds-no_credit : (p : Bool) (l : Ledger) → Adds l (credit_effect p (pos 0)) l
Adds-no_credit true l = record { adds = no_change (total l) }
Adds-no_credit false l = record { adds = no_change (total l) }
