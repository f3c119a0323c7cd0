-- ===== src/Client/Cheque.antt =====
-- Acquire/Client/_cheque.py: `Cheque.read` on the accounting service, and the checks of `Cheque.cash` on the
-- credit notes that come back. Texts that are only compared are strings, keys and signatures are numbers.
pub mod Accepts
mod Tests
use acquire.Base.{
  ℕ, String, str_eq, Bool, true, false, not, Option, none, some, List, [], ◌∷◌, if◌then◌else◌, ltb,
  ◌==◌,
}
use acquire.Base.Int.{ℤ, pos, ◌+ℤ◌, ltb_ℤ, eqb_ℤ}
use acquire.Base.Result.{Error, Result, ok, err, payment_error, type_error, value_error, ◌>>=◌}
use acquire.Accounting.Formats.{Formats, create_decimal, create_from_text}
use acquire.Accounting.Notes.{CreditNote}
use acquire.Identity.Identifiers.{Guid}

-- What a cheque says. `Cheque.write` gives it all keys; `none` is JSON's null or a missing key.
pub record Info : Type 0 where
  pub recipient_url : Option String
  pub max_spend : Option (List ℕ)
  pub expiry_date : Option (List ℕ)
  pub uid : ℕ
  pub resource : Option String
  pub account_uid : ℕ

-- The user, and whether their signature is valid for a text.
pub record Authorisation : Type 0 where
  pub user_guid : Guid
  pub verify : List ℕ → Result (Unit {0})

pub record Message : Type 0 where
  pub info : List ℕ
  pub authorisation : Authorisation

-- The dictionary of a cheque: what was encrypted for the accounting service, or a wrapper that whoever cashes
-- the cheque has signed. Both carry a fingerprint.
pub data Data : Type 0 where
  encrypted : ℕ → ℕ → Data
  signed : ℕ → ℕ → Data

pub record Cheque : Type 0 where
  pub cheque : Option Data
  pub accounting_service_url : Option String

-- What `read` takes from its service and from Python: decryption, the JSON of a text, the services that are
-- trusted (by number), their signatures, the clock, and the formats of numbers and times.
pub record Surroundings : Type 0 where
  pub decrypt : ℕ → Result Message
  pub loads : List ℕ → Result Info
  pub get_trusted_service : String → Result ℕ
  pub verify_data : ℕ → Data → Result (Unit {0})
  pub now : ℕ
  pub formats : Formats

-- The dictionary that `read` returns.
pub record Reading : Type 0 where
  pub info : Info
  pub recipient_key_fingerprint : Option ℕ
  pub spend : ℤ
  pub resource : String
  pub auth_resource : List ℕ
  pub authorisation : Authorisation
  pub receipt_by : ℕ

-- `Cheque.from_data` of the dictionary of `Cheque.to_data`, which is empty for a null cheque.
pub to_data : Cheque → Option (Data × Option String)
to_data c = elim c.cheque [ none ↦ none | some d ↦ some (d, c.accounting_service_url) ]

pub from_data : Option (Data × Option String) → Cheque
from_data none = record { cheque = none; accounting_service_url = none }
from_data (some (d, url)) = record { cheque = some d; accounting_service_url = url }

pub content : Data → ℕ
content (encrypted c fingerprint) = c
content (signed c fingerprint) = c

pub fingerprint : Data → ℕ
fingerprint (encrypted c f) = f
fingerprint (signed c f) = f

-- `except Exception: raise PaymentError`
as_payment_error : Result (Unit {0}) → Result (Unit {0})
as_payment_error (ok u) = ok tt
as_payment_error (err why) = err payment_error

-- `if recipient_url:`
pub named : Option String → Option String
named none = none
named (some url) = if str_eq url "" then none else some url

check_recipient : Surroundings → Data → Option String → Result (Option ℕ)
unfolding fingerprint
check_recipient s d none = ok none
check_recipient s d (some url) = s.get_trusted_service url >>= λ service.
    s.verify_data service d >>= λ _. ok (some (fingerprint d))

require : Bool → Result (Unit {0})
require true = ok tt
require false = err payment_error

-- The resource that was passed is compared with itself.
check_resource : String → Option String → Result (Unit {0})
unfolding require
check_resource resource none = ok tt
check_resource resource (some cheque_resource) = require (str_eq resource resource)

check_spend : Surroundings → ℤ → Option (List ℕ) → Result (Unit {0})
unfolding require
check_spend s spend none = ok tt
check_spend s spend (some text) =
    create_from_text s.formats text >>= λ most. require (not (ltb_ℤ most spend))

-- `del expiry_date["expiry_date"]`: neither a text nor `None` lets its items be deleted.
del_item : Option (List ℕ) → Result (Option (List ℕ))
del_item date = err type_error

expiry_of : Result (Option (List ℕ)) → Option (List ℕ)
expiry_of (ok date) = date
expiry_of (err why) = none

read_date : Option ℕ → Result ℕ
read_date none = err value_error
read_date (some t) = ok t

check_expiry : Surroundings → ℕ → Option (List ℕ) → Result (Unit {0})
unfolding require read_date
check_expiry s receipt_by none = ok tt
check_expiry s receipt_by (some text) = read_date (s.formats.read_time text) >>= λ expiry_date.
    require (not (ltb receipt_by s.now)) >>= λ _. require (not (ltb expiry_date receipt_by))

pub decimal_of : Formats → Option ℤ → Result ℤ
decimal_of f none = ok (pos 0)
decimal_of f (some v) = create_decimal f v

pub reading : Message → ℤ → String → ℕ → Info → Option ℕ → Reading
reading message spend resource receipt_by info key = record {
  info = info;
  recipient_key_fingerprint = key;
  spend = spend;
  resource = resource;
  auth_resource = message.info;
  authorisation = message.authorisation;
  receipt_by = receipt_by;
}

read_info : Surroundings → Data → Message → ℤ → String → ℕ → Info → Result Reading
unfolding named check_recipient check_resource check_spend del_item expiry_of check_expiry reading
read_info s d message spend resource receipt_by info =
    check_recipient s d (named info.recipient_url) >>= λ key.
    check_resource resource info.resource >>= λ _. check_spend s spend info.max_spend >>= λ _.
    check_expiry s receipt_by (expiry_of (del_item info.expiry_date)) >>= λ _.
    ok (reading message spend resource receipt_by info key)

-- `Cheque.read`
unfoldable pub read : Surroundings → Cheque → Option ℤ → String → ℕ → Result Reading
unfolding content as_payment_error decimal_of read_info
read s c spend resource receipt_by = elim c.cheque [
  | none ↦ err payment_error
  | some d ↦ decimal_of s.formats spend >>= λ amount. s.decrypt (content d) >>= λ message.
      as_payment_error (message.authorisation.verify message.info) >>= λ _.
      s.loads message.info >>= λ info. read_info s d message amount resource receipt_by info
]

-- The end of `Cheque.cash`: the notes pay into the account, and their values make up what was spent.
pub total_cashed : ℕ → ℤ → List CreditNote → Result ℤ
total_cashed account total [] = ok total
total_cashed account total (note ∷ notes) =
    if note.account_uid == account
    then total_cashed account (total +ℤ note.value) notes
    else err payment_error

pub accept_notes : ℕ → ℤ → List CreditNote → Result (List CreditNote)
unfolding total_cashed
accept_notes account spend notes = total_cashed account (pos 0) notes >>= λ total.
    if eqb_ℤ total spend then ok notes else err payment_error
