-- ===== src/Accounting/Ledger/Conserve.antt =====
-- Acquire/Accounting/_ledger.py: what the calls of the ledger do to the sum of all balances.
use acquire.Base.{ℕ, suc, Bool, Option, none, some, List, [], ◌∷◌, ◌≡◌, refl, sym, All, subst}
use acquire.Base.Int.{ℤ, pos, ◌+ℤ◌}
use acquire.Base.Result.{Error, ok}
use acquire.Base.Exec.{
  lift, Yields, seq-Yields, lift-Yields, try-Yields, weaken-Yields, Yields-returned,
}
use acquire.Accounting.Transaction.{Transaction}
use acquire.Accounting.Notes.{
  DebitNote, CreditNote, Receipt, Refund, TransactionState, TransactionRecord, PairedNote,
}
use acquire.Accounting.Postings.{Ledger, Stamp, Funds, debit_account, credit_account}
use acquire.Accounting.Postings.Changes.{
  total, Adds, Debited, Credited, debit_effect, credit_effect, IsBalanced, transfer-IsBalanced,
  Adds-twice, Adds-IsBalanced, debit_account-Debited, credit_account-Credited,
}
use acquire.Accounting.Postings.Effects.{
  Debited-Adds, Credited-Adds, Adds-debits, Adds-credits, Adds-no_debit, Adds-no_credit,
}
use acquire.Accounting.Ledger.{new_record, create_pairs, record_to_ledger, save_transaction}
use acquire.Accounting.Ledger.Perform.{
  set_note, debit_note_from_transaction, credit_note_from_debit_note, debit_all, credit_all,
  note_of_debit, note_of_credit, debit_step, credit_step, debit_failed, first_deadline, nonnegative,
  record_state, perform,
}

-- What the notes are worth together.
pub sum_of : List DebitNote → ℤ
sum_of [] = pos 0
sum_of (note ∷ notes) = note.transaction.value +ℤ sum_of notes

abbrev HasKind : Bool → DebitNote → Type 0
HasKind p note = note.is_provisional ≡ p

-- The notes were debited, and nothing else.
abbrev AllDebited : Ledger → Bool → List DebitNote → Ledger → Type 0
AllDebited l p notes l' = Adds l (debit_effect p (sum_of notes)) l' × All (HasKind p) notes

module _ (funds : Funds) (stamp : Stamp) (account : ℕ) (t : Transaction) (p : Bool)
    (l : Ledger) where
  note_of_debit-Adds :
      (r : Option (ℕ × ℕ × Option ℕ)) (l' : Ledger)
      → Debited l stamp account t.value p r l'
      → Yields
          (lift (note_of_debit t account p r) l')
          (λ note l'. Adds l (debit_effect p note.transaction.value) l' × HasKind p note)
  unfolding note_of_debit
  note_of_debit-Adds none l' h = tt
  note_of_debit-Adds (some r) l' h = (Debited-Adds l l' stamp account t.value p r h, refl)

  debit_note-Adds :
      (receipt_by : Option ℕ)
      → Yields
          (debit_note_from_transaction funds stamp account t p receipt_by l)
          (λ note l'. Adds l (debit_effect p note.transaction.value) l' × HasKind p note)
  unfolding debit_note_from_transaction
  debit_note-Adds receipt_by =
      seq-Yields (debit_account funds stamp account t.value p receipt_by) _ l _ _
        (debit_account-Debited funds stamp account t.value p receipt_by l) note_of_debit-Adds

module _ (stamp : Stamp) (account : ℕ) (note : DebitNote) (l : Ledger) where
  note_of_credit-Adds :
      (r : Option (ℕ × ℕ)) (l' : Ledger)
      → Credited l stamp account note r l'
      → Yields
          (lift (note_of_credit stamp account note r) l')
          (λ _ l'. Adds l (credit_effect note.is_provisional note.transaction.value) l')
  unfolding note_of_credit
  note_of_credit-Adds none l' h = tt
  note_of_credit-Adds (some r) l' h = Credited-Adds l l' stamp account note r h

  credit_note-Adds :
      Yields
        (credit_note_from_debit_note stamp account note l)
        (λ _ l'. Adds l (credit_effect note.is_provisional note.transaction.value) l')
  unfolding credit_note_from_debit_note
  credit_note-Adds =
      seq-Yields (credit_account stamp account note) _ l _ _
        (credit_account-Credited stamp account note l) note_of_credit-Adds

pub debit_failed-raises :
    (made : List DebitNote) (q : DebitNote → Ledger → Type 0) (why : Error) (t : Ledger)
    → Yields (debit_failed made why t) q
unfolding debit_failed
debit_failed-raises [] q why t = tt
debit_failed-raises (_ ∷ _) q why t = tt

credit_all-Adds :
    (stamps : ℕ → Stamp) (credited : ℕ) (p : Bool) (i : ℕ) (credits : List (ℕ × CreditNote))
    (notes : List DebitNote) (l : Ledger)
    → All (HasKind p) notes
    → Yields
        (credit_all stamps credited i credits notes l)
        (λ _ l'. Adds l (credit_effect p (sum_of notes)) l')
unfolding credit_all sum_of credit_step
credit_all-Adds stamps credited p i credits [] l kinds = Adds-no_credit p l
credit_all-Adds stamps credited p i credits (note ∷ notes) l kinds =
    seq-Yields (credit_step (stamps i) credited note) _ l
      (λ _ l'. Adds l (credit_effect p note.transaction.value) l') _
      (try-Yields (credit_note_from_debit_note (stamps i) credited note) _ l _
        (subst
          (λ q.
            Yields (credit_note_from_debit_note (stamps i) credited note l)
              (λ _ l'. Adds l (credit_effect q note.transaction.value) l'))
          kinds.0 (credit_note-Adds (stamps i) credited note l))
        (λ _ _. tt))
      λ c l₁ h.
        weaken-Yields (credit_all stamps credited (suc i) (set_note note.uid c credits) notes l₁)
          (credit_all-Adds stamps credited p (suc i) (set_note note.uid c credits) notes l₁ kinds.1)
          λ _ l₂ k. Adds-credits p note.transaction.value (sum_of notes) h k

pub record_to_ledger-total :
    (state : TransactionState) (r : Option Receipt) (refund : Option Refund)
    (pairs : List PairedNote) (l : Ledger)
    → Yields (record_to_ledger state r refund pairs l) (λ _ l'. total l' ≡ total l)
unfolding record_to_ledger save_transaction
record_to_ledger-total state r refund [] l = refl
record_to_ledger-total state r refund (pair ∷ pairs) l =
    let saved = save_transaction (new_record state r refund pair) l in
    seq-Yields (record_to_ledger state r refund pairs) _ saved (λ _ l'. total l' ≡ total l) _
      (record_to_ledger-total state r refund pairs saved) λ _ _ h. h

module _ (funds : Funds) (stamps : ℕ → Stamp) (debited : ℕ) (p : Bool) where
  debit_all-Adds :
      (i : ℕ) (receipt_by : Option ℕ) (made : List DebitNote) (ts : List Transaction) (l : Ledger)
      → Yields (debit_all funds stamps debited p i receipt_by made ts l) (AllDebited l p)
  unfolding debit_all sum_of debit_step
  debit_all-Adds i receipt_by made [] l = (Adds-no_debit p l, tt)
  debit_all-Adds i receipt_by made (t ∷ ts) l =
      seq-Yields (debit_step funds (stamps i) debited p receipt_by made t) _ l
        (λ note l'. Adds l (debit_effect p note.transaction.value) l' × HasKind p note) _
        (try-Yields (debit_note_from_transaction funds (stamps i) debited t p receipt_by)
          (debit_failed made) l _ (debit_note-Adds funds (stamps i) debited t p l receipt_by)
          (debit_failed-raises made _))
        λ note l₁ h.
          seq-Yields
            (debit_all funds stamps debited p (suc i) (first_deadline p receipt_by note)
              (note ∷ made) ts)
            _ l₁ (AllDebited l₁ p) (AllDebited l p)
            (debit_all-Adds (suc i) (first_deadline p receipt_by note) (note ∷ made) ts l₁)
            λ notes l₂ k. (Adds-debits p note.transaction.value (sum_of notes) h.0 k.0, (h.1, k.1))

  perform-total :
      (credit_stamps : ℕ → Stamp) (credited : ℕ) (receipt_by : Option ℕ) (ts : List Transaction)
      (l : Ledger)
      → IsBalanced (total l)
      → Yields
          (perform funds stamps debited p credit_stamps credited receipt_by ts l)
          (λ _ l'. IsBalanced (total l'))
  unfolding perform
  perform-total credit_stamps credited receipt_by ts l balanced =
      seq-Yields (debit_all funds stamps debited p 0 receipt_by [] (nonnegative ts)) _ l
        (AllDebited l p) _ (debit_all-Adds 0 receipt_by [] (nonnegative ts) l)
        λ notes l₁ h.
          seq-Yields (credit_all credit_stamps credited 0 [] notes) _ l₁
            (λ _ l'. Adds l₁ (credit_effect p (sum_of notes)) l') _
            (credit_all-Adds credit_stamps credited p 0 [] notes l₁ h.1)
            λ credits l₂ k. lift-Yields (create_pairs notes credits) _ l₂ _ λ pairs _.
              weaken-Yields (record_to_ledger (record_state p) none none pairs l₂)
                (record_to_ledger-total (record_state p) none none pairs l₂)
                λ _ l₃ same. subst IsBalanced (sym same) (
                  Adds-IsBalanced (Adds-twice h.0 k) (transfer-IsBalanced p (sum_of notes))
                    balanced)

  -- A transfer that is performed keeps the sum of all balances at nothing: what one account pays the other gets, and
  -- each liability is the other's receivable.
  pub perform-IsBalanced :
      (credit_stamps : ℕ → Stamp) (credited : ℕ) (receipt_by : Option ℕ) (ts : List Transaction)
      (l : Ledger) {records : List TransactionRecord} {l' : Ledger}
      → perform funds stamps debited p credit_stamps credited receipt_by ts l ≡ (ok records, l')
      → IsBalanced (total l)
      → IsBalanced (total l')
  perform-IsBalanced credit_stamps credited receipt_by ts l h balanced =
      Yields-returned (perform funds stamps debited p credit_stamps credited receipt_by ts l)
        (λ _ l'. IsBalanced (total l')) h
        (perform-total credit_stamps credited receipt_by ts l balanced)
