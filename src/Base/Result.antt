-- ===== src/Base/Result.antt =====
-- Python's exceptions: a call returns a value or raises.
use mathlib.Core.Path.{◌≡◌, refl, ap}
use mathlib.Core.Logic.{◌≢◌}
use mathlib.Core.Bool.{Bool, true, false}

-- The exception classes that the modelled code raises.
pub data Error : Type 0 where
  type_error value_error permission_error unbound_local_error attribute_error : Error
  account_error transaction_error insufficient_funds_error unbalanced_ledger_error : Error
  unmatched_receipt_error unmatched_refund_error ledger_error mutex_timeout_error : Error
  overflow_error object_store_error login_session_error missing_service_error payment_error
        service_error key_error index_error :
      Error

pub data Result {ℓ} (A : Type ℓ) : Type ℓ where
  ok : A → Result A
  err : Error → Result A

-- A call and the code that goes on with its value; an exception passes it by.
infixl 5 ◌>>=◌
abbrev pub ◌>>=◌ {ℓ κ} : {V : Type ℓ} {W : Type κ} → Result V → (V → Result W) → Result W
ok v >>= next = next v
err why >>= next = err why

-- `try: m except: handler`
abbrev pub catch {ℓ} : {A : Type ℓ} → Result A → Result A → Result A
catch (ok a) h = ok a
catch (err e) h = h

abbrev pub is_ok {ℓ} : {A : Type ℓ} → Result A → Bool
is_ok (ok _) = true
is_ok (err _) = false

-- Where the whole returned, the call did, and what went on from its value.
pub bind_returned {ℓ κ} :
    {V : Type ℓ} {W : Type κ} (call : Result V) (next : V → Result W) {w : W}
    → (call >>= next) ≡ ok w
    → (v : V) × (call ≡ ok v) × (next v ≡ ok w)
bind_returned (ok v) next returned = (v, refl, returned)
bind_returned (err why) next returned = cc

abbrev value_or {ℓ} : {A : Type ℓ} → A → Result A → A
value_or a (ok b) = b
value_or a (err _) = a

pub ok_injective {ℓ} : {A : Type ℓ} {a b : A} → ok a ≡ ok b → a ≡ b
ok_injective {a} p = ap (value_or a) p

pub ok_not_err {ℓ} : {A : Type ℓ} {a : A} {e : Error} → ok a ≢ err e
ok_not_err p = cc
