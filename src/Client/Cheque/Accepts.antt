-- ===== src/Client/Cheque/Accepts.antt =====
-- Which cheques `Cheque.read` accepts.
use Prim.{absurd}
use acquire.Base.{
  ℕ, String, str_eq_refl, Bool, true, false, not, Option, none, some, List, ◌≡◌, refl, sym, ap, ◌∙◌,
  ◌↔◌, inl, inr, Option-cases,
}
use acquire.Base.Int.{ℤ, ltb_ℤ}
use acquire.Base.Result.{Result, ok, err, payment_error, bind_returned, ok_injective}
use acquire.Accounting.Formats.{create_from_text}
use acquire.Client.Cheque.{
  Info, Message, Data, Cheque, Surroundings, Reading, content, fingerprint, named, check_recipient,
  require, as_payment_error, check_resource, check_spend, del_item, expiry_of, check_expiry,
  decimal_of, reading, read_info, read,
}

-- A recipient that is named is trusted, and has signed the cheque.
abbrev pub HasSigned : Surroundings → Data → Option String → Option ℕ → Type 0
HasSigned s d none key = key ≡ none
HasSigned s d (some url) key =
    (service : ℕ) × (s.get_trusted_service url ≡ ok service)
    × (s.verify_data service d ≡ ok tt)
    × (key ≡ some (fingerprint d))

-- What is spent is at most what the cheque allows, if it says so.
abbrev pub IsAllowed : Surroundings → ℤ → Option (List ℕ) → Type 0
IsAllowed s spend none = Unit
IsAllowed s spend (some text) =
    (most : ℤ) × (create_from_text s.formats text ≡ ok most) × (ltb_ℤ most spend ≡ false)

-- All that `read` asks for.
pub record Accepts (s : Surroundings) (c : Cheque) (spend : Option ℤ) (resource : String)
    (receipt_by : ℕ) (r : Reading) : Type 0 where
  pub blob : Data
  pub message : Message
  pub amount : ℤ
  pub info : Info
  pub key : Option ℕ
  pub present : c.cheque ≡ some blob
  pub exact : decimal_of s.formats spend ≡ ok amount
  pub decrypted : s.decrypt (content blob) ≡ ok message
  pub authorised : message.authorisation.verify message.info ≡ ok tt
  pub understood : s.loads message.info ≡ ok info
  pub recipient : HasSigned s blob (named info.recipient_url) key
  pub allowed : IsAllowed s amount info.max_spend
  pub result : r ≡ reading message amount resource receipt_by info key

require-true : (b : Bool) {u : Unit {0}} → require b ≡ ok u → b ≡ true
unfolding require
require-true true h = refl
require-true false h = cc

not-true : (b : Bool) → not b ≡ true → b ≡ false
not-true true h = cc
not-true false h = refl

check_recipient-HasSigned :
    (s : Surroundings) (d : Data) (url : Option String) {key : Option ℕ}
    → check_recipient s d url ≡ ok key
    → HasSigned s d url key
unfolding check_recipient
check_recipient-HasSigned s d none h = sym (ok_injective h)
check_recipient-HasSigned s d (some url) h =
    let (service, t, k) = bind_returned (s.get_trusted_service url) _ h in
    let (u, v, e) = bind_returned (s.verify_data service d) _ k in
    (service, t, v, sym (ok_injective e))

HasSigned-check_recipient :
    (s : Surroundings) (d : Data) (url : Option String) {key : Option ℕ}
    → HasSigned s d url key
    → check_recipient s d url ≡ ok key
unfolding check_recipient
HasSigned-check_recipient s d none h = ap ok (sym h)
HasSigned-check_recipient s d (some url) (service, t, v, e) = rw (t, v) (ap ok (sym e))

check_spend-IsAllowed :
    (s : Surroundings) (spend : ℤ) (text : Option (List ℕ)) {u : Unit {0}}
    → check_spend s spend text ≡ ok u
    → IsAllowed s spend text
unfolding check_spend
check_spend-IsAllowed s spend none h = tt
check_spend-IsAllowed s spend (some text) h =
    let (most, m, k) = bind_returned (create_from_text s.formats text) _ h in
    (most, m, not-true _ (require-true (not (ltb_ℤ most spend)) k))

IsAllowed-check_spend :
    (s : Surroundings) (spend : ℤ) (text : Option (List ℕ))
    → IsAllowed s spend text
    → check_spend s spend text ≡ ok tt
unfolding check_spend require
IsAllowed-check_spend s spend none h = refl
IsAllowed-check_spend s spend (some text) (most, m, k) = rw (m, k) refl

check_resource_lem :
    (resource : String) (said : Option String) → check_resource resource said ≡ ok tt
unfolding check_resource require
check_resource_lem resource none = refl
check_resource_lem resource (some said) = rw (str_eq_refl resource) refl

authorised_lem : (r : Result (Unit {0})) {u : Unit {0}} → as_payment_error r ≡ ok u → r ≡ ok tt
unfolding as_payment_error
authorised_lem (ok u) h = refl
authorised_lem (err why) h = cc

module _ (s : Surroundings) (c : Cheque) (spend : Option ℤ) (resource : String) (receipt_by : ℕ)
    (r : Reading) where
  read-Accepts-some :
      (d : Data)
      → read s (record c { cheque = some d }) spend resource receipt_by ≡ ok r
      → c.cheque ≡ some d
      → Accepts s c spend resource receipt_by r
  unfolding read read_info
  read-Accepts-some d h present =
      let (amount, exact, h₁) = bind_returned (decimal_of s.formats spend) _ h in
      let (message, decrypted, h₂) = bind_returned (s.decrypt (content d)) _ h₁ in
      let (_, signed, h₃) =
        bind_returned (as_payment_error (message.authorisation.verify message.info)) _ h₂ in
      let (info, understood, h₄) = bind_returned (s.loads message.info) _ h₃ in
      let (key, recipient, h₅) =
        bind_returned (check_recipient s d (named info.recipient_url)) _ h₄ in
      let (_, _, h₆) = bind_returned (check_resource resource info.resource) _ h₅ in
      let (_, allowed, h₇) = bind_returned (check_spend s amount info.max_spend) _ h₆ in
      record {
        blob = d;
        message = message;
        amount = amount;
        info = info;
        key = key;
        present = present;
        exact = exact;
        decrypted = decrypted;
        authorised = authorised_lem _ signed;
        understood = understood;
        recipient = check_recipient-HasSigned s d (named info.recipient_url) recipient;
        allowed = check_spend-IsAllowed s amount info.max_spend allowed;
        result = sym (ok_injective h₇);
      }

  with_data :
      (o : Option Data)
      → c.cheque ≡ o
      → read s c spend resource receipt_by
        ≡ read s (record c { cheque = o }) spend resource receipt_by
  with_data o h =
      ap (λ (o : Option Data). read s (record c { cheque = o }) spend resource receipt_by) h

  null_refused : read s (record c { cheque = none }) spend resource receipt_by ≡ err payment_error
  unfolding read
  null_refused = refl

  pub Accepts-if_read :
      read s c spend resource receipt_by ≡ ok r → Accepts s c spend resource receipt_by r
  Accepts-if_read h = elim (Option-cases c.cheque) [
    | inl e ↦ absurd (refused (sym h ∙ with_data none e ∙ null_refused))
    | inr (d, e) ↦ read-Accepts-some d (sym (with_data (some d) e) ∙ h) e
  ]
    where
      refused : ok r ≡ err payment_error → ⊥
      refused e = cc

  read_accepted :
      (a : Accepts s c spend resource receipt_by r)
      → read s (record c { cheque = some a.blob }) spend resource receipt_by ≡ ok r
  unfolding read read_info as_payment_error check_expiry expiry_of del_item
  read_accepted a =
      rw
        (
          a.exact,
          a.decrypted,
          a.authorised,
          a.understood,
          HasSigned-check_recipient s a.blob (named a.info.recipient_url) a.recipient,
          check_resource_lem resource a.info.resource,
          IsAllowed-check_spend s a.amount a.info.max_spend a.allowed,
        )
        (ap ok (sym a.result))

  -- `Cheque.read` returns a dictionary exactly if the cheque is not null, the spend is an amount, the cheque
  -- can be decrypted, its user has signed its text, the recipient that the text names, if any, is trusted and
  -- has signed the cheque, and the spend is at most the maximum of the text, if any. The dictionary is then
  -- that of the text, with what was passed. Neither the expiry date of the text nor its resource decides.
  pub read-Accepts :
      (read s c spend resource receipt_by ≡ ok r) ↔ Accepts s c spend resource receipt_by r
  read-Accepts = (Accepts-if_read, λ a. with_data (some a.blob) a.present ∙ read_accepted a)
