-- ===== src/Accounting/Ledger/Performing.antt =====
-- `Ledger.perform` of Acquire/Accounting/_ledger.py: what it does to the record of another debit note.
use acquire.Base.{ℕ, suc, Bool, Option, none, some, List, [], ◌∷◌, ◌≡◌, ◌≢◌, sym, ◌∙◌, All}
use acquire.Base.Result.{Error}
use acquire.Base.Exec.{lift, Yields, seq-Yields, try-Yields}
use acquire.Base.Exec.Runs.{seq-runs, then-runs, lift-runs, try-runs}
use acquire.Accounting.Transaction.{Transaction}
use acquire.Accounting.Notes.{DebitNote, CreditNote}
use acquire.Accounting.Postings.{Ledger, Stamp, Funds, debit_account, credit_account}
use acquire.Accounting.Postings.Records.{
  debit_account-same, credit_account-same, HasUid, debit_account-HasUid,
}
use acquire.Accounting.Ledger.{create_pairs}
use acquire.Accounting.Ledger.Perform.{
  set_note, debit_note_from_transaction, credit_note_from_debit_note, note_of_debit, debit_failed,
  first_deadline, debit_step, credit_step, debit_all, credit_all, nonnegative, record_state,
  perform,
}
use acquire.Accounting.Ledger.States.{Evolves, Evolves-refl, Evolves-trans}
use acquire.Accounting.Ledger.Conserve.{debit_failed-raises}
use acquire.Accounting.Ledger.Evolve.{IsOther, create_pairs-All, record_to_ledger-Evolves, posted}

module _ (funds : Funds) (stamp : Stamp) (account : ℕ) (p : Bool) (receipt_by : Option ℕ) where
  note_of_debit-uid :
      (t : Transaction) (r : Option (ℕ × ℕ × Option ℕ)) (l : Ledger)
      → HasUid stamp.uid r
      → Yields (lift (note_of_debit t account p r) l) (λ note _. note.uid ≡ stamp.uid)
  unfolding note_of_debit
  note_of_debit-uid t none l h = tt
  note_of_debit-uid t (some r) l h = h

  pub debit_step-uid :
      (made : List DebitNote) (t : Transaction) (l : Ledger)
      → Yields
          (debit_step funds stamp account p receipt_by made t l)
          (λ note _. note.uid ≡ stamp.uid)
  unfolding debit_step debit_note_from_transaction
  debit_step-uid made t l =
      try-Yields (debit_note_from_transaction funds stamp account t p receipt_by)
        (debit_failed made) l _
        (seq-Yields (debit_account funds stamp account t.value p receipt_by) _ l
          (λ r _. HasUid stamp.uid r) _
          (debit_account-HasUid funds stamp account p receipt_by t.value l)
          (λ r l₁ h. note_of_debit-uid t r l₁ h))
        (debit_failed-raises made _)

module _ (u : ℕ) where
  debit_failed-Evolves :
      (made : List DebitNote) (why : Error) (l : Ledger) → Evolves u l (debit_failed made why l).1
  unfolding debit_failed
  debit_failed-Evolves [] why l = Evolves-refl u l
  debit_failed-Evolves (_ ∷ _) why l = Evolves-refl u l

  debit_step-Evolves :
      (funds : Funds) (stamp : Stamp) (account : ℕ) (p : Bool) (receipt_by : Option ℕ)
      (made : List DebitNote) (t : Transaction) (l : Ledger)
      → Evolves u l (debit_step funds stamp account p receipt_by made t l).1
  unfolding debit_step debit_note_from_transaction
  debit_step-Evolves funds stamp account p receipt_by made t l =
      try-runs (Evolves u) (Evolves-refl u) (Evolves-trans u)
        (debit_note_from_transaction funds stamp account t p receipt_by) (debit_failed made) l
        (posted u (debit_account funds stamp account t.value p receipt_by) _ l
          (debit_account-same funds stamp account t.value p receipt_by l) λ _ l₁. Evolves-refl u l₁)
        (debit_failed-Evolves made)

  credit_step-Evolves :
      (stamp : Stamp) (account : ℕ) (note : DebitNote) (l : Ledger)
      → Evolves u l (credit_step stamp account note l).1
  unfolding credit_step credit_note_from_debit_note
  credit_step-Evolves stamp account note l =
      try-runs (Evolves u) (Evolves-refl u) (Evolves-trans u)
        (credit_note_from_debit_note stamp account note) _ l
        (posted u (credit_account stamp account note) _ l (credit_account-same stamp account note l)
          λ _ l₁. Evolves-refl u l₁)
        λ _ l₁. Evolves-refl u l₁

  credit_all-Evolves :
      (stamps : ℕ → Stamp) (credited i : ℕ) (credits : List (ℕ × CreditNote))
      (notes : List DebitNote) (l : Ledger)
      → Evolves u l (credit_all stamps credited i credits notes l).1
  unfolding credit_all
  credit_all-Evolves stamps credited i credits [] l = Evolves-refl u l
  credit_all-Evolves stamps credited i credits (note ∷ notes) l =
      then-runs (Evolves u) (Evolves-refl u) (Evolves-trans u)
        (credit_step (stamps i) credited note) _ l (credit_step-Evolves (stamps i) credited note l)
        λ c l₁. credit_all-Evolves stamps credited (suc i) (set_note note.uid c credits) notes l₁

  module _ (funds : Funds) (stamps : ℕ → Stamp) (debited : ℕ) (p : Bool) where
    debit_all-Evolves :
        (i : ℕ) (receipt_by : Option ℕ) (made : List DebitNote) (ts : List Transaction) (l : Ledger)
        → Evolves u l (debit_all funds stamps debited p i receipt_by made ts l).1
    unfolding debit_all
    debit_all-Evolves i receipt_by made [] l = Evolves-refl u l
    debit_all-Evolves i receipt_by made (t ∷ ts) l =
        then-runs (Evolves u) (Evolves-refl u) (Evolves-trans u)
          (debit_step funds (stamps i) debited p receipt_by made t) _ l
          (debit_step-Evolves funds (stamps i) debited p receipt_by made t l)
          λ note l₁.
            then-runs (Evolves u) (Evolves-refl u) (Evolves-trans u)
              (debit_all funds stamps debited p (suc i) (first_deadline p receipt_by note)
                (note ∷ made) ts)
              _ l₁
              (debit_all-Evolves (suc i) (first_deadline p receipt_by note) (note ∷ made) ts l₁)
              λ _ l₂. Evolves-refl u l₂

    module _ (fresh : (i : ℕ) → (stamps i).uid ≢ u) where
      debit_all-IsOther :
          (i : ℕ) (receipt_by : Option ℕ) (made : List DebitNote) (ts : List Transaction)
          (l : Ledger)
          → Yields
              (debit_all funds stamps debited p i receipt_by made ts l)
              (λ notes _. All (IsOther u) notes)
      unfolding debit_all
      debit_all-IsOther i receipt_by made [] l = tt
      debit_all-IsOther i receipt_by made (t ∷ ts) l =
          seq-Yields (debit_step funds (stamps i) debited p receipt_by made t) _ l
            (λ note _. note.uid ≡ (stamps i).uid) _
            (debit_step-uid funds (stamps i) debited p receipt_by made t l)
            λ note l₁ same.
              seq-Yields
                (debit_all funds stamps debited p (suc i) (first_deadline p receipt_by note)
                  (note ∷ made) ts)
                _ l₁ (λ notes _. All (IsOther u) notes) _
                (debit_all-IsOther (suc i) (first_deadline p receipt_by note) (note ∷ made) ts l₁)
                λ notes l₂ others. (λ e. fresh i (sym same ∙ e), others)

      pub perform-Evolves :
          (credit_stamps : ℕ → Stamp) (credited : ℕ) (receipt_by : Option ℕ) (ts : List Transaction)
          (l : Ledger)
          → Evolves u l (perform funds stamps debited p credit_stamps credited receipt_by ts l).1
      unfolding perform
      perform-Evolves credit_stamps credited receipt_by ts l =
          seq-runs (Evolves u) (Evolves-refl u) (Evolves-trans u)
            (debit_all funds stamps debited p 0 receipt_by [] (nonnegative ts)) _ l
            (λ notes _. All (IsOther u) notes)
            (debit_all-IsOther 0 receipt_by [] (nonnegative ts) l)
            (debit_all-Evolves 0 receipt_by [] (nonnegative ts) l)
            λ notes l₁ others.
              then-runs (Evolves u) (Evolves-refl u) (Evolves-trans u)
                (credit_all credit_stamps credited 0 [] notes) _ l₁
                (credit_all-Evolves credit_stamps credited 0 [] notes l₁)
                λ credits l₂.
                  lift-runs (Evolves u) (Evolves-refl u) (Evolves-trans u)
                    (create_pairs notes credits) _ l₂
                    λ pairs made.
                      record_to_ledger-Evolves u (record_state p) none none pairs l₂
                        (create_pairs-All (IsOther u) notes credits pairs others made)
