-- ===== src/Client/Cheque/Tests.antt =====
-- Cheques that are read, and a use of the theorem on what is accepted.
use acquire.Base.{ℕ, str_eq, ◌≡◌, ◌↔◌, refl, true, Option, none, some, List, [], ◌∷◌, if◌then◌else◌}
use acquire.Base.Int.{ℤ, pos, neg, ◌+ℤ◌}
use acquire.Base.Result.{ok, err, payment_error, permission_error}
use acquire.Accounting.Formats.{Formats, create_decimal, create_from_text}
use acquire.Accounting.Notes.{CreditNote}
use acquire.Client.Cheque.{
  Info, Message, signed, Cheque, Surroundings, Reading, reading, read, to_data, from_data,
  accept_notes,
}
use acquire.Client.Cheque.Accepts.{Accepts, read-Accepts}

-- Amounts and times as single numbers.
abbrev number : List ℕ → Option ℕ
number (n ∷ []) = some n
number _ = none

abbrev amount : List ℕ → Option ℤ
amount (n ∷ []) = some (pos n)
amount _ = none

abbrev plain : Formats
plain = record {
  round6 = λ v. v;
  show = λ _. [];
  read = amount;
  show_time = λ t. t ∷ [];
  read_time = number;
  part_of = λ _ _ _. "";
}

abbrev storage_cheque : Info
storage_cheque = record {
  recipient_url = some "storage";
  max_spend = some (50 ∷ []);
  expiry_date = some (1000 ∷ []);
  uid = 3;
  resource = some "one gigabyte";
  account_uid = 1;
}

abbrev message : Message
message = record {
  info = 7 ∷ [];
  authorisation = record { user_guid = some "ada"; verify = λ _. ok tt };
}

abbrev service : Surroundings
service = record {
  decrypt = λ c. ok message;
  loads = λ text. ok storage_cheque;
  get_trusted_service = λ url. if str_eq url "storage" then ok 4 else err permission_error;
  verify_data = λ key d. ok tt;
  now = 5000;
  formats = plain;
}

abbrev cheque : Cheque
cheque = record { cheque = some (signed 9 12); accounting_service_url = some "accounting" }

-- It expired at 1000 and was for a gigabyte.
abbrev much_later : Reading
much_later = reading message (pos 20) "two hours" 9000 storage_cheque (some 12)

read_late : read service cheque (some (pos 20)) "two hours" 9000 ≡ ok much_later
unfolding read create_decimal create_from_text neg
read_late = refl

read_too_much : read service cheque (some (pos 51)) "one gigabyte" 900 ≡ err payment_error
unfolding read create_decimal create_from_text neg
read_too_much = refl

stored_cheque : from_data (to_data cheque) ≡ cheque
unfolding from_data to_data
stored_cheque = refl

abbrev note : ℕ → CreditNote
note n = record {
  account_uid = 2;
  debit_account_uid = 1;
  datetime = 0;
  uid = n;
  debit_note_uid = n;
  value = pos 10;
  is_provisional = true;
  receipt_by = none;
}

accept_two : accept_notes 2 (pos 20) (note 1 ∷ note 2 ∷ []) ≡ ok (note 1 ∷ note 2 ∷ [])
unfolding accept_notes ◌+ℤ◌
accept_two = refl

accept_other_account : accept_notes 3 (pos 10) (note 1 ∷ []) ≡ err payment_error
unfolding accept_notes
accept_other_account = refl

read-Accepts_example :
    (read service cheque (some (pos 20)) "two hours" 9000 ≡ ok much_later)
    ↔ Accepts service cheque (some (pos 20)) "two hours" 9000 much_later
read-Accepts_example = read-Accepts service cheque (some (pos 20)) "two hours" 9000 much_later
