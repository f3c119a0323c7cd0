-- ===== src/Accounting/CashCheque.antt =====
-- services/accounting/cash_cheque.py: the accounting service cashes a cheque. The state is the ledger, the
-- groups of accounts, and the UIDs of the cheques that were cashed, which are keys of the object store.
pub mod Twice
mod Tests
use acquire.Base.{
  ℕ, String, Bool, true, false, Option, none, some, List, [], ◌∷◌, if◌then◌else◌, ◌==◌, ◌||◌, map,
}
use acquire.Base.Int.{ℤ}
use acquire.Base.Result.{Error, Result, ok, err, payment_error, permission_error, type_error}
use acquire.Base.Exec.{Exec, return_, raise, lift, get_state, try, ◌>>=◌, ◌>>◌}
use acquire.Accounting.Formats.{Formats}
use acquire.Accounting.Transaction.{Transaction, new_transaction}
use acquire.Accounting.Notes.{CreditNote, TransactionRecord}
use acquire.Accounting.Postings.{Ledger, Stamp, Funds}
use acquire.Accounting.Ledger.Perform.{perform}
use acquire.Accounting.Accounts
use acquire.Accounting.Accounts.{Account, Accounts, uid_of, load_account, new_accounts, contains}
use acquire.Client.Cheque
use acquire.Client.Cheque.{Cheque, Reading, read}

pub record World : Type 0 where
  pub ledger : Ledger
  pub groups : Accounts.World
  pub cashed : List ℕ

-- What reading the cheque and `Ledger.perform` take from outside, and how the calls on the mutex end.
pub record Surroundings : Type 0 where
  pub reading : Cheque.Surroundings
  pub funds : Funds
  pub debit_stamps : ℕ → Stamp
  pub credit_stamps : ℕ → Stamp
  pub lock : Result (Unit {0})
  pub unlock : Result (Unit {0})

-- The dictionary of arguments, when each of them could be read.
pub record Args : Type 0 where
  pub cheque : Cheque
  pub spend : Option ℤ
  pub resource : String
  pub account_uid : ℕ
  pub receipt_by : ℕ
  pub description : Option String

on_ledger : {A : Type 0} → Exec Ledger A → Exec World A
on_ledger call w = ((call w.ledger).0, record w { ledger = (call w.ledger).1 })

on_groups : {A : Type 0} → Exec Accounts.World A → Exec World A
on_groups call w = ((call w.groups).0, record w { groups = (call w.groups).1 })

-- `except Exception: raise PaymentError`
as_payment_error : {A : Type 0} → Result A → Result A
as_payment_error (ok a) = ok a
as_payment_error (err why) = err payment_error

find_account : ℕ → Exec World Account
unfolding as_payment_error
find_account uid w = (as_payment_error (load_account (uid_of uid) w.groups), w)

require_owner : Bool → Exec World (Unit {0})
require_owner true = return_ tt
require_owner false = raise permission_error

pub description_of : Option String → String → String
description_of none resource = resource
description_of (some description) resource = description

credit_notes : List TransactionRecord → List CreditNote
credit_notes [] = []
credit_notes (r ∷ rs) = r.credit_note ∷ credit_notes rs

was_cashed : ℕ → List ℕ → Bool
was_cashed uid [] = false
was_cashed uid (u ∷ uids) = u == uid || was_cashed uid uids

set_cashed : ℕ → Exec World (Unit {0})
set_cashed uid w = (ok tt, record w { cashed = uid ∷ w.cashed })

-- `Ledger.refund` of a list of transaction records, which is no `Refund`.
refund_records : List TransactionRecord → Exec World (Unit {0})
refund_records records = raise type_error

-- The key of the cheque, behind the mutex. The transfer has been made by then.
claim : Surroundings → ℕ → List TransactionRecord → Bool → Exec World (List CreditNote)
unfolding set_cashed refund_records credit_notes
claim s uid records true = do lift s.unlock; refund_records records; return_ (credit_notes records)
claim s uid records false = do set_cashed uid; lift s.unlock; return_ (credit_notes records)

-- `Ledger.perform` of the one transaction, which is provisional.
pub transfer : Surroundings → Args → Reading → Transaction → Exec Ledger (List TransactionRecord)
transfer s args info t =
    perform s.funds s.debit_stamps info.info.account_uid true s.credit_stamps args.account_uid
      (some args.receipt_by) (t ∷ [])

-- What is checked of the accounts before anything is transferred.
pub check_accounts : Args → Reading → Exec World (Unit {0})
unfolding find_account on_groups require_owner
check_accounts args info = do
  debit_account ← find_account info.info.account_uid
  find_account args.account_uid
  accounts ← on_groups (new_accounts info.authorisation.user_guid none none)
  owned ← on_groups (contains accounts debit_account)
  require_owner owned

pub cash : Surroundings → Args → Reading → Exec World (List CreditNote)
unfolding check_accounts on_ledger transfer description_of claim was_cashed
cash s args info = do
  check_accounts args info
  t ← lift (
      new_transaction s.reading.formats info.spend
        (some (description_of args.description info.resource)))
  records ← on_ledger (transfer s args info t)
  lift s.lock
  w ← get_state
  claim s info.info.uid records (was_cashed info.info.uid w.cashed)

-- `run`
pub cash_cheque : Surroundings → Args → Exec World (List CreditNote)
unfolding cash
cash_cheque s args = do
  info ← lift (read s.reading args.cheque args.spend args.resource args.receipt_by)
  cash s args info
