-- ===== src/Accounting/Ledger/Evolve.antt =====
-- Acquire/Accounting/_ledger.py: what its calls do to the record of another debit note, whether they
-- return or raise.
use acquire.Base.{
  ℕ, String, Bool, true, false, Option, none, some, List, [], ◌∷◌, ◌≡◌, ◌≢◌, ap, inl, inr,
  Option-cases, subst, ◌==◌, find, All, length,
}
use acquire.Base.Result.{
  Error, Result, ok, unmatched_receipt_error, unmatched_refund_error, value_error,
}
use acquire.Base.Exec.{Exec, ◌>>=◌, ◌>>◌, lift}
use acquire.Base.Exec.Runs.{then-runs, lift-runs, try-runs}
use acquire.Accounting.Formats.{Formats}
use acquire.Accounting.Transaction.{new_transaction}
use acquire.Accounting.Notes.{
  DebitNote, CreditNote, Receipt, Refund, TransactionState, TransactionRecord, PairedNote, direct,
  provisional, receipting, refunding,
}
use acquire.Accounting.Postings.{
  Ledger, Stamp, debit_receipt, credit_receipt, debit_refund, credit_refund,
}
use acquire.Accounting.Postings.Records.{
  debit_receipt-same, credit_receipt-same, debit_refund-same, credit_refund-same,
}
use acquire.Accounting.Ledger.{
  save_transaction, load_test_and_set, check_that, matches_note, reset_state,
  debit_matching_receipt, debit_note_from_receipt, debit_matching_refund, debit_note_from_refund,
  credit_note_from_receipt, credit_note_from_refund, pair_notes, balanced_pairs, create_pairs,
  new_record, record_to_ledger, pair_and_record,
}
use acquire.Accounting.Ledger.States.{
  ◌⟶◌, start_receipt, end_receipt, reset_receipt, start_refund, end_refund, reset_refund, Evolves,
  Evolves-refl, Evolves-trans, Evolves-same, new-Evolves, load-Evolves, load-unchanged,
}

abbrev AllPaired : (DebitNote → Type 0) → Option (List PairedNote) → Type 0
AllPaired P none = Unit
AllPaired P (some pairs) = All (λ pair. P pair.debit_note) pairs

pair_notes-All :
    (P : DebitNote → Type 0) (notes : List DebitNote) (credits : List (ℕ × CreditNote))
    → All P notes
    → AllPaired P (pair_notes notes credits)
unfolding pair_notes
pair_notes-All P [] credits h = tt
pair_notes-All P (note ∷ notes) credits h = elim (Option-cases (find note.uid credits)) [
  | inl e ↦ rw (AllPaired, e) tt
  | inr (c, e) ↦ elim (Option-cases (pair_notes notes credits)) [
    | inl e' ↦ rw (AllPaired, e, e') tt
    | inr (pairs, e') ↦
        rw (AllPaired, e, e') (h.0, subst (AllPaired P) e' (pair_notes-All P notes credits h.1))
  ]
]

balanced_pairs-All :
    (P : DebitNote → Type 0) (b : Bool) (o : Option (List PairedNote)) (pairs : List PairedNote)
    → AllPaired P o
    → balanced_pairs b o ≡ ok pairs
    → All (λ pair. P pair.debit_note) pairs
unfolding balanced_pairs
balanced_pairs-All P true (some made) pairs h e =
    let same : some made ≡ some pairs = cc in subst (AllPaired P) same h
balanced_pairs-All P true none pairs h e = cc
balanced_pairs-All P false o pairs h e = cc

-- The debit notes that are paired are those that were given.
pub create_pairs-All :
    (P : DebitNote → Type 0) (notes : List DebitNote) (credits : List (ℕ × CreditNote))
    (pairs : List PairedNote)
    → All P notes
    → create_pairs notes credits ≡ ok pairs
    → All (λ pair. P pair.debit_note) pairs
unfolding create_pairs
create_pairs-All P [] credits pairs h e = cc
create_pairs-All P (note ∷ notes) credits pairs h e =
    balanced_pairs-All P (length credits == length (note ∷ notes))
      (pair_notes (note ∷ notes) credits) pairs (pair_notes-All P (note ∷ notes) credits h) e

module _ (u : ℕ) where
  abbrev pub IsOther : DebitNote → Type 0
  IsOther note = note.uid ≢ u

  pub record_to_ledger-Evolves :
      (state : TransactionState) (r : Option Receipt) (refund : Option Refund)
      (pairs : List PairedNote) (l : Ledger)
      → All (λ pair. IsOther pair.debit_note) pairs
      → Evolves u l (record_to_ledger state r refund pairs l).1
  unfolding record_to_ledger new_record
  record_to_ledger-Evolves state r refund [] l fresh = Evolves-refl u l
  record_to_ledger-Evolves state r refund (pair ∷ pairs) l fresh =
      let new = new_record state r refund pair in
      let saved = save_transaction new l in
      Evolves-trans u l saved (record_to_ledger state r refund (pair ∷ pairs) l).1
        (new-Evolves u new l fresh.0)
        (then-runs (Evolves u) (Evolves-refl u) (Evolves-trans u)
          (record_to_ledger state r refund pairs) _ saved
          (record_to_ledger-Evolves state r refund pairs saved fresh.1) λ _ t. Evolves-refl u t)

  pub pair_and_record-Evolves :
      (state : TransactionState) (r : Option Receipt) (refund : Option Refund) (note : DebitNote)
      (c : CreditNote) (l : Ledger)
      → IsOther note
      → Evolves u l (pair_and_record state r refund note c l).1
  unfolding pair_and_record
  pair_and_record-Evolves state r refund note c l fresh =
      lift-runs (Evolves u) (Evolves-refl u) (Evolves-trans u)
        (create_pairs (note ∷ []) ((c.debit_note_uid, c) ∷ [])) _ l
        λ pairs made.
          record_to_ledger-Evolves state r refund pairs l (
            create_pairs-All IsOther (note ∷ []) ((c.debit_note_uid, c) ∷ []) pairs (fresh, tt)
              made)

  check_that-Evolves :
      {B : Type 0} (b : Bool) (why : Error) (next : Exec Ledger B) (l : Ledger)
      → Evolves u l (next l).1
      → Evolves u l ((check_that b why >> next) l).1
  unfolding check_that
  check_that-Evolves true why next l h = h
  check_that-Evolves false why next l h = Evolves-refl u l

  tested :
      {B : Type 0} (v : ℕ) (a : TransactionState) (next : TransactionRecord → Exec Ledger B)
      (l : Ledger)
      → ((r : TransactionRecord) (t : Ledger) → Evolves u t (next r t).1)
      → Evolves u l ((load_test_and_set v a a >>= next) l).1
  tested v a next l k =
      then-runs (Evolves u) (Evolves-refl u) (Evolves-trans u) (load_test_and_set v a a) next l
        (Evolves-same u l (load_test_and_set v a a l).1
          (ap (λ t. t.records) (load-unchanged u v a l)))
        k

  changed :
      {B : Type 0} (v : ℕ) {a b : TransactionState}
      → a ⟶ b
      → (next : TransactionRecord → Exec Ledger B) (l : Ledger)
      → ((r : TransactionRecord) (t : Ledger) → Evolves u t (next r t).1)
      → Evolves u l ((load_test_and_set v a b >>= next) l).1
  changed v {a} {b} step next l k =
      then-runs (Evolves u) (Evolves-refl u) (Evolves-trans u) (load_test_and_set v a b) next l
        (load-Evolves u v a b step l) k

  pub posted :
      {A B : Type 0} (call : Exec Ledger A) (next : A → Exec Ledger B) (l : Ledger)
      → (call l).1.records ≡ l.records
      → ((a : A) (t : Ledger) → Evolves u t (next a t).1)
      → Evolves u l ((call >>= next) l).1
  posted call next l same k =
      then-runs (Evolves u) (Evolves-refl u) (Evolves-trans u) call next l
        (Evolves-same u l (call l).1 same) k

  ends : {A : Type 0} (r : Result A) (l : Ledger) → Evolves u l (lift r l).1
  ends r l = Evolves-refl u l

  module _ (f : Formats) (describe : ℕ → String) (stamp : Stamp) (account : ℕ) where
    pub debit_note_from_receipt-Evolves :
        (r : Receipt) (l : Ledger)
        → Evolves u l (debit_note_from_receipt f describe stamp account r l).1
    unfolding debit_note_from_receipt debit_matching_receipt reset_state
    debit_note_from_receipt-Evolves r l =
        changed r.credit_note.debit_note_uid start_receipt _ l λ t l₁.
          try-runs (Evolves u) (Evolves-refl u) (Evolves-trans u)
            (debit_matching_receipt f describe stamp account r t)
            (reset_state r.credit_note.debit_note_uid receipting provisional) l₁
            (check_that-Evolves (matches_note t r.credit_note) unmatched_receipt_error _ l₁ (
              check_that-Evolves (account == r.credit_note.debit_account_uid) value_error _ l₁ (
                posted (debit_receipt stamp account r) _ l₁ (debit_receipt-same stamp account r l₁)
                  λ _ l₂.
                    lift-runs (Evolves u) (Evolves-refl u) (Evolves-trans u)
                      (new_transaction f r.receipted_value
                        (some (describe r.credit_note.debit_note_uid)))
                      _ l₂ λ _ _. Evolves-refl u l₂)))
            λ _ l₂.
              changed r.credit_note.debit_note_uid reset_receipt _ l₂ λ _ l₃. Evolves-refl u l₃

    pub debit_note_from_refund-Evolves :
        (r : Refund) (l : Ledger)
        → Evolves u l (debit_note_from_refund f describe stamp account r l).1
    unfolding debit_note_from_refund debit_matching_refund reset_state
    debit_note_from_refund-Evolves r l =
        changed r.credit_note.debit_note_uid start_refund _ l λ t l₁.
          try-runs (Evolves u) (Evolves-refl u) (Evolves-trans u)
            (debit_matching_refund f describe stamp account r t)
            (reset_state r.credit_note.debit_note_uid refunding direct) l₁
            (check_that-Evolves (matches_note t r.credit_note) unmatched_refund_error _ l₁ (
              check_that-Evolves (account == r.credit_note.account_uid) value_error _ l₁ (
                posted (debit_refund stamp account r) _ l₁ (debit_refund-same stamp account r l₁)
                  λ _ l₂.
                    lift-runs (Evolves u) (Evolves-refl u) (Evolves-trans u)
                      (new_transaction f r.credit_note.value
                        (some (describe r.credit_note.debit_note_uid)))
                      _ l₂ λ _ _. Evolves-refl u l₂)))
            λ _ l₂. changed r.credit_note.debit_note_uid reset_refund _ l₂ λ _ l₃. Evolves-refl u l₃

  module _ (stamp : Stamp) (account : ℕ) (note : DebitNote) where
    pub credit_note_from_receipt-Evolves :
        (r : Receipt) (l : Ledger) → Evolves u l (credit_note_from_receipt stamp account note r l).1
    unfolding credit_note_from_receipt
    credit_note_from_receipt-Evolves r l =
        tested r.credit_note.debit_note_uid receipting _ l λ t l₁.
          check_that-Evolves (matches_note t r.credit_note) unmatched_receipt_error _ l₁ (
            check_that-Evolves (account == r.credit_note.account_uid) value_error _ l₁ (
              posted (credit_receipt stamp account note r) _ l₁
                (credit_receipt-same stamp account note r l₁)
                λ _ l₂.
                  changed r.credit_note.debit_note_uid end_receipt _ l₂ λ _ l₃. Evolves-refl u l₃))

    pub credit_note_from_refund-Evolves :
        (r : Refund) (l : Ledger) → Evolves u l (credit_note_from_refund stamp account note r l).1
    unfolding credit_note_from_refund
    credit_note_from_refund-Evolves r l = tested r.credit_note.debit_note_uid refunding _ l λ t l₁.
        check_that-Evolves (matches_note t r.credit_note) unmatched_refund_error _ l₁ (
          check_that-Evolves (account == r.credit_note.debit_account_uid) value_error _ l₁ (
            posted (credit_refund stamp account note r) _ l₁
              (credit_refund-same stamp account note r l₁)
              λ _ l₂.
                changed r.credit_note.debit_note_uid end_refund _ l₂ λ _ l₃. Evolves-refl u l₃))
