-- ===== src/Accounting/Ledger/Sequences.antt =====
-- Acquire/Accounting/_ledger.py: sequences of calls of the ledger, of which each may return or raise.
use acquire.Base.{ℕ, String, Bool, Option, List, [], ◌∷◌, ◌≢◌, All, subst}
use acquire.Base.Exec.{Exec}
use acquire.Accounting.Formats.{Formats}
use acquire.Accounting.Transaction.{Transaction}
use acquire.Accounting.Notes.{Receipt, Refund, TransactionState, TransactionRecord, receipted}
use acquire.Accounting.Postings.{Ledger, Stamp, Funds}
use acquire.Accounting.Ledger.{receipt_transaction, refund_transaction}
use acquire.Accounting.Ledger.Perform.{perform}
use acquire.Accounting.Ledger.States.{
  Evolves, Evolves-refl, Evolves-trans, HasState, IsStored, ◌⟶*◌, receipted-final,
}
use acquire.Accounting.Ledger.Calls.{receipt_transaction-Evolves, refund_transaction-Evolves}
use acquire.Accounting.Ledger.Performing.{perform-Evolves}

-- The calls of a ledger, with what each takes from outside.
pub data Call : Type 0 where
  performing : Funds → (ℕ → Stamp) → ℕ → Bool → (ℕ → Stamp) → ℕ → Option ℕ → List Transaction → Call
  receipt_of : Stamp → Stamp → Receipt → Call
  refund_of : Stamp → Stamp → Refund → Call

-- The call takes no UID for a debit note that is in use.
abbrev pub IsFresh : ℕ → Call → Type 0
IsFresh u (performing funds stamps debited p credit_stamps credited receipt_by ts) =
    (i : ℕ) → (stamps i).uid ≢ u
IsFresh u (receipt_of debit_stamp credit_stamp r) = debit_stamp.uid ≢ u
IsFresh u (refund_of debit_stamp credit_stamp r) = debit_stamp.uid ≢ u

module _ (f : Formats) (describe : ℕ → String) where
  pub call : Call → Exec Ledger (List TransactionRecord)
  call (performing funds stamps debited p credit_stamps credited receipt_by ts) =
      perform funds stamps debited p credit_stamps credited receipt_by ts
  call (receipt_of debit_stamp credit_stamp r) =
      receipt_transaction f describe debit_stamp credit_stamp r
  call (refund_of debit_stamp credit_stamp r) =
      refund_transaction f describe debit_stamp credit_stamp r

  -- The ledger after calls of which each may have raised.
  pub run : List Call → Ledger → Ledger
  run [] l = l
  run (c ∷ cs) l = run cs (call c l).1

  module _ (u : ℕ) where
    call-Evolves : (c : Call) (l : Ledger) → IsFresh u c → Evolves u l (call c l).1
    unfolding call
    call-Evolves (performing funds stamps debited p credit_stamps credited receipt_by ts) l fresh =
        perform-Evolves u funds stamps debited p fresh credit_stamps credited receipt_by ts l
    call-Evolves (receipt_of debit_stamp credit_stamp r) l fresh =
        receipt_transaction-Evolves u f describe debit_stamp credit_stamp fresh r l
    call-Evolves (refund_of debit_stamp credit_stamp r) l fresh =
        refund_transaction-Evolves u f describe debit_stamp credit_stamp fresh r l

    run-Evolves : (cs : List Call) (l : Ledger) → All (IsFresh u) cs → Evolves u l (run cs l)
    unfolding run
    run-Evolves [] l fresh = Evolves-refl u l
    run-Evolves (c ∷ cs) l fresh =
        Evolves-trans u l (call c l).1 (run cs (call c l).1) (call-Evolves c l fresh.0)
          (run-Evolves cs (call c l).1 fresh.1)

    -- From a state where every record is stored under its debit note's UID, through calls that each may return or raise, and take no UID for a debit note that is in use, each record stays
    -- under its debit note's UID, and the record of a debit note only goes through the changes of its state.
    pub run-HasState :
        (cs : List Call) (l : Ledger) (s : TransactionState)
        → All (IsFresh u) cs
        → IsStored l
        → HasState u l s
        → IsStored (run cs l) × ((t : TransactionState) × HasState u (run cs l) t × (s ⟶* t))
    run-HasState cs l s fresh stored h =
        let (after, evolves) = run-Evolves cs l fresh stored in (after, evolves s h)

    pub run-receipted :
        (cs : List Call) (l : Ledger)
        → All (IsFresh u) cs
        → IsStored l
        → HasState u l receipted
        → HasState u (run cs l) receipted
    run-receipted cs l fresh stored h =
        let (_, (t, has, path)) = run-HasState cs l receipted fresh stored h in
        subst (HasState u (run cs l)) (receipted-final t path) has
