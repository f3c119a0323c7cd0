-- ===== src/Accounting/CashCheque/Tests.antt =====
-- One cheque, cashed twice.
use acquire.Base.{ℕ, String, ◌≡◌, refl, true, false, none, some, List, [], ◌∷◌, ◌+◌}
use acquire.Base.Int.{pos, neg}
use acquire.Base.Result.{ok, err, type_error}
use acquire.Accounting.Formats.{Formats, create_decimal}
use acquire.Accounting.Transaction.{Transaction, new_transaction}
use acquire.Accounting.Notes.{CreditNote, TransactionRecord, provisional}
use acquire.Accounting.Postings.{
  Ledger, Stamp, line_item, write, post, deadline, receipt_deadline, debit_code, credit_code,
  undo_if_overdrawn, positive_debit, debit_account, credit_account,
}
use acquire.Accounting.TransactionInfo.{TransactionInfo, account_receivable, current_liability}
use acquire.Accounting.Ledger.{
  credit_note_of, create_pairs, pair_notes, balanced_pairs, record_to_ledger, new_record,
  save_transaction,
}
use acquire.Accounting.Ledger.Perform.{
  perform, debit_all, debit_step, debit_note_from_transaction, note_of_debit, nonnegative,
  first_deadline, credit_all, credit_step, credit_note_from_debit_note, note_of_credit, set_note,
  record_state,
}
use acquire.Accounting.Accounts
use acquire.Accounting.Accounts.{Account, new_accounts, contains, load_account, uid_of}
use acquire.Identity.AclRule.{owner, inherit}
use acquire.Identity.AclRules.{acl_rule}
use acquire.Identity.AclRules.Build.{create}
use acquire.Identity.AclRules.Resolve.{resolve}
use acquire.Client.Cheque
use acquire.Client.Cheque.{Cheque, Info, Message, signed, Reading, read}
use acquire.Accounting.CashCheque.{
  World, Surroundings, Args, check_accounts, description_of, transfer, cash_cheque,
}
use acquire.Accounting.CashCheque.Twice.{cash_cheque_twice}

abbrev plain : Formats
plain = record {
  round6 = λ v. v;
  show = λ _. [];
  read = λ _. none;
  show_time = λ _. [];
  read_time = λ _. none;
  part_of = λ _ _ _. "";
}

abbrev info : Info
info = record {
  recipient_url = none;
  max_spend = none;
  expiry_date = none;
  uid = 3;
  resource = some "storage";
  account_uid = 1;
}

abbrev message : Message
message = record {
  info = 7 ∷ [];
  authorisation = record { user_guid = some "ada"; verify = λ _. ok tt };
}

abbrev reading_service : Cheque.Surroundings
reading_service = record {
  decrypt = λ _. ok message;
  loads = λ _. ok info;
  get_trusted_service = λ _. ok 4;
  verify_data = λ _ _. ok tt;
  now = 1000;
  formats = plain;
}

abbrev stamp_of : ℕ → Stamp
stamp_of uid = record {
  loaded = ok tt;
  uid = uid;
  now = 1000;
  next_week = 604800001000;
  is_written = true;
}

-- The stamps of the n-th call.
abbrev call : ℕ → Surroundings
call n = record {
  reading = reading_service;
  funds = record { check = λ _ _ _. ok tt; overdraws = λ _ _. false };
  debit_stamps = λ i. stamp_of (i + n + 10);
  credit_stamps = λ i. stamp_of (i + n + 20);
  lock = ok tt;
  unlock = ok tt;
}

abbrev args : Args
args = record {
  cheque = record { cheque = some (signed 9 12); accounting_service_url = none };
  spend = some (pos 5);
  resource = "storage";
  account_uid = 2;
  receipt_by = 7200001000;
  description = none;
}

abbrev account : ℕ → String → Account
account uid name = record {
  uid = uid;
  name = name;
  description = name;
  overdraft_limit = pos 0;
  aclrules = create (acl_rule inherit) none none [] [] none;
  group_name = some "ada";
}

abbrev groups : Accounts.World
groups = record {
  acls = ("ada", create (acl_rule owner) (some "ada") none [] [] none) ∷ [];
  uids = ("ada", "main", uid_of 1) ∷ [];
  accounts = (1, account 1 "main") ∷ (2, account 2 "service") ∷ [];
}

abbrev uncashed : World
uncashed = record { ledger = record { entries = []; records = [] }; groups = groups; cashed = [] }

abbrev dictionary : Reading
dictionary = record {
  info = info;
  recipient_key_fingerprint = none;
  spend = pos 5;
  resource = "storage";
  auth_resource = message.info;
  authorisation = message.authorisation;
  receipt_by = 7200001000;
}

abbrev payment : Transaction
payment = record { value = pos 5; description = some "storage" }

dictionary_read :
    read reading_service args.cheque args.spend args.resource args.receipt_by ≡ ok dictionary
unfolding read create_decimal neg
dictionary_read = refl

abbrev credit_of : ℕ → CreditNote
credit_of n = record {
  account_uid = 2;
  debit_account_uid = 1;
  datetime = 1000;
  uid = n + 20;
  debit_note_uid = n + 10;
  value = pos 5;
  is_provisional = true;
  receipt_by = some 7200001000;
}

-- What the n-th call reserves.
abbrev reserved : ℕ → TransactionRecord
reserved n = record {
  debit_note = record {
    transaction = payment;
    account_uid = 1;
    is_provisional = true;
    datetime = 1000;
    uid = n + 10;
    receipt_by = some 7200001000;
  };
  credit_note = credit_of n;
  transaction_state = provisional;
  receipt = none;
  refund = none;
}

abbrev entries_of : ℕ → List (ℕ × TransactionInfo) → List (ℕ × TransactionInfo)
entries_of n entries =
    (
      2,
      record {
        code = some account_receivable;
        value = pos 5;
        receipted_value = none;
        datetime = 1000;
        uid = (n + 20) ∷ [];
      },
    )
    ∷ (
      1,
      record {
        code = some current_liability;
        value = pos 5;
        receipted_value = none;
        datetime = 1000;
        uid = (n + 10) ∷ [];
      },
    )
    ∷ entries

abbrev cashed_once : World
cashed_once = record {
  ledger = record { entries = entries_of 0 []; records = (10, reserved 0) ∷ [] };
  groups = groups;
  cashed = 3 ∷ [];
}

abbrev reserved_twice : Ledger
reserved_twice = record {
  entries = entries_of 1 (entries_of 0 []);
  records = (11, reserved 1) ∷ (10, reserved 0) ∷ [];
}

first_cashed : cash_cheque (call 0) args uncashed ≡ (ok (credit_of 0 ∷ []), cashed_once)
unfolding cash_cheque read create_decimal neg resolve create new_accounts contains load_account
    new_transaction transfer perform debit_all debit_step debit_note_from_transaction note_of_debit
    nonnegative first_deadline credit_all credit_step credit_note_from_debit_note note_of_credit
    credit_note_of set_note create_pairs pair_notes balanced_pairs record_to_ledger record_state
    new_record save_transaction line_item write post deadline receipt_deadline debit_code
    credit_code undo_if_overdrawn positive_debit debit_account credit_account
first_cashed = refl

accounts_checked :
    check_accounts args dictionary cashed_once ≡ (ok tt, record cashed_once { groups = groups })
unfolding check_accounts new_accounts contains load_account resolve create
accounts_checked = refl

payment_made : new_transaction plain (pos 5) (some "storage") ≡ ok payment
unfolding new_transaction create_decimal neg
payment_made = refl

transferred_again :
    transfer (call 1) args dictionary payment cashed_once.ledger
    ≡ (ok (reserved 1 ∷ []), reserved_twice)
unfolding transfer perform debit_all debit_step debit_note_from_transaction note_of_debit
    nonnegative first_deadline credit_all credit_step credit_note_from_debit_note note_of_credit
    credit_note_of set_note create_pairs pair_notes balanced_pairs record_to_ledger record_state
    new_record save_transaction line_item write post deadline receipt_deadline debit_code
    credit_code undo_if_overdrawn positive_debit debit_account credit_account
transferred_again = refl

cash_cheque_twice_example :
    cash_cheque (call 1) args cashed_once
    ≡ (err type_error, record cashed_once { groups = groups; ledger = reserved_twice })
unfolding description_of
cash_cheque_twice_example =
    cash_cheque_twice (call 0) (call 1) args args uncashed cashed_once (credit_of 0 ∷ []) dictionary
      dictionary payment (reserved 1 ∷ []) reserved_twice groups dictionary_read first_cashed
      dictionary_read refl accounts_checked payment_made transferred_again refl refl
