-- ===== src/Accounting/CashCheque/Twice.antt =====
-- A cheque that is cashed for the second time.
use acquire.Base.{ℕ, Bool, true, false, List, ◌∷◌, ◌≡◌, refl, sym, ◌∙◌, subst, some}
use acquire.Base.Find.{eqb_true}
use acquire.Base.Result.{ok, err, type_error}
use acquire.Base.Exec.{Yields, then-Yields, lift-Yields, Yields-returned}
use acquire.Accounting.Transaction.{Transaction, new_transaction}
use acquire.Accounting.Notes.{CreditNote, TransactionRecord}
use acquire.Accounting.Postings.{Ledger}
use acquire.Accounting.Accounts
use acquire.Client.Cheque.{Reading, read}
use acquire.Accounting.CashCheque.{
  World, Surroundings, Args, on_ledger, check_accounts, description_of, was_cashed, set_cashed,
  refund_records, claim, transfer, cash, cash_cheque,
}

was_cashed_here : (uid : ℕ) (uids : List ℕ) → was_cashed uid (uid ∷ uids) ≡ true
unfolding was_cashed
was_cashed_here uid uids = rw (eqb_true uid uid refl) refl

-- Notes are returned only with the key of the cheque written.
claim-was_cashed :
    (s : Surroundings) (uid : ℕ) (records : List TransactionRecord) (known : Bool) (w : World)
    → Yields (claim s uid records known w) (λ _ t. was_cashed uid t.cashed ≡ true)
unfolding claim set_cashed refund_records
claim-was_cashed s uid records true w = lift-Yields s.unlock _ w _ λ _ _. tt
claim-was_cashed s uid records false w =
    lift-Yields s.unlock _ _ _ λ _ _. was_cashed_here uid w.cashed

cash-was_cashed :
    (s : Surroundings) (args : Args) (info : Reading) (w : World)
    → Yields (cash s args info w) (λ _ t. was_cashed info.info.uid t.cashed ≡ true)
unfolding cash
cash-was_cashed s args info w = then-Yields (check_accounts args info) _ w _ λ _ w₁.
    lift-Yields (new_transaction s.reading.formats info.spend _) _ w₁ _ λ t _.
      then-Yields (on_ledger (transfer s args info t)) _ w₁ _ λ records w₂.
        lift-Yields s.lock _ w₂ _
          λ _ _. claim-was_cashed s info.info.uid records (was_cashed info.info.uid w₂.cashed) w₂

module _ (s : Surroundings) (args : Args) (w : World) {info : Reading}
    (reads : read s.reading args.cheque args.spend args.resource args.receipt_by ≡ ok info) where
  cash_cheque_read : cash_cheque s args w ≡ cash s args info w
  unfolding cash_cheque
  cash_cheque_read = rw (reads) refl

  returned-was_cashed :
      {notes : List CreditNote} {t : World}
      → cash_cheque s args w ≡ (ok notes, t)
      → was_cashed info.info.uid t.cashed ≡ true
  returned-was_cashed h =
      Yields-returned (cash s args info w) (λ _ t. was_cashed info.info.uid t.cashed ≡ true)
        (sym cash_cheque_read ∙ h) (cash-was_cashed s args info w)

  cash_again :
      (t : Transaction) (records : List TransactionRecord) (l : Ledger) (groups : Accounts.World)
      → was_cashed info.info.uid w.cashed ≡ true
      → check_accounts args info w ≡ (ok tt, record w { groups = groups })
      → new_transaction s.reading.formats info.spend
          (some (description_of args.description info.resource))
        ≡ ok t
      → transfer s args info t w.ledger ≡ (ok records, l)
      → s.lock ≡ ok tt
      → s.unlock ≡ ok tt
      → cash s args info w ≡ (err type_error, record w { groups = groups; ledger = l })
  unfolding cash on_ledger claim refund_records
  cash_again t records l groups known checked made moved locked unlocked =
      rw (checked, made, moved, locked, known, unlocked) refl

-- After a call of `cash_cheque` returned credit notes, a second call whose cheque has the same UID raises a
-- `TypeError` where it means to refund: where its checks hold, its transfer is made and the mutex is had, the
-- ledger is left as the second transfer made it.
pub cash_cheque_twice :
    (s s' : Surroundings) (args args' : Args) (w w₁ : World) (notes : List CreditNote)
    (info info' : Reading) (t : Transaction) (records : List TransactionRecord) (l : Ledger)
    (groups : Accounts.World)
    → read s.reading args.cheque args.spend args.resource args.receipt_by ≡ ok info
    → cash_cheque s args w ≡ (ok notes, w₁)
    → read s'.reading args'.cheque args'.spend args'.resource args'.receipt_by ≡ ok info'
    → info'.info.uid ≡ info.info.uid
    → check_accounts args' info' w₁ ≡ (ok tt, record w₁ { groups = groups })
    → new_transaction s'.reading.formats info'.spend
        (some (description_of args'.description info'.resource))
      ≡ ok t
    → transfer s' args' info' t w₁.ledger ≡ (ok records, l)
    → s'.lock ≡ ok tt
    → s'.unlock ≡ ok tt
    → cash_cheque s' args' w₁ ≡ (err type_error, record w₁ { groups = groups; ledger = l })
cash_cheque_twice s s' args args' w w₁ notes info info' t records l groups reads returned reads'
      same checked made moved locked unlocked =
    cash_cheque_read s' args' w₁ reads'
    ∙ cash_again s' args' w₁ reads' t records l groups
        (subst (λ u. was_cashed u w₁.cashed ≡ true) (sym same)
          (returned-was_cashed s args w reads returned))
        checked made moved locked unlocked
