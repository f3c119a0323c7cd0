-- ===== src/Accounting/TransactionInfo.antt =====
-- Acquire/Accounting/_transactioninfo.py: what a key of the object store says of a transaction: its
-- time, its UID, its code and its value. A key is the list of its parts between slashes.
mod Parse
pub mod Keys
use mathlib.Core.List.{reverse}
use acquire.Base.{
  ℕ, zero, suc, ◌+◌, ◌-◌, Bool, true, false, Option, none, some, List, [], ◌∷◌, ◌++◌, if◌then◌else◌,
  ◌==◌, ltb, length, get_elem?,
}
use acquire.Base.Int.{ℤ, pos, neg}
use acquire.Base.Result.{Result, ok, err, ◌>>=◌, value_error, permission_error, attribute_error}
use acquire.Accounting.Formats.{Formats, create_from_text}

pub data TransactionCode : Type 0 where
  credit debit current_liability account_receivable : TransactionCode
  received_receipt sent_receipt received_refund sent_refund : TransactionCode

pub record TransactionInfo : Type 0 where
  pub code : Option TransactionCode
  pub value : ℤ
  pub receipted_value : Option ℤ
  pub datetime : ℕ
  pub uid : List ℕ

-- `TransactionInfo.value()`
unfoldable pub effective_value : TransactionInfo → ℤ
effective_value t = elim t.receipted_value [ none ↦ t.value | some r ↦ r ]

-- The two letters of a code.
unfoldable pub code_letters : TransactionCode → ℕ × ℕ
code_letters TransactionCode.credit = (b'C', b'R')
code_letters TransactionCode.debit = (b'D', b'R')
code_letters TransactionCode.current_liability = (b'C', b'L')
code_letters TransactionCode.account_receivable = (b'A', b'R')
code_letters TransactionCode.received_receipt = (b'R', b'R')
code_letters TransactionCode.sent_receipt = (b'S', b'R')
code_letters TransactionCode.received_refund = (b'R', b'F')
code_letters TransactionCode.sent_refund = (b'S', b'F')

-- `_get_code`
unfoldable pub get_code : ℕ → ℕ → Option TransactionCode
get_code a b =
    if b == b'R'
    then if a == b'C'
      then some credit
      else if a == b'D'
      then some debit
      else if a == b'A'
      then some account_receivable
      else if a == b'R'
      then some received_receipt
      else if a == b'S'
      then some sent_receipt
      else none
    else if b == b'L'
    then if a == b'C' then some current_liability else none
    else if b == b'F'
    then if a == b'R' then some received_refund else if a == b'S' then some sent_refund else none
    else none

-- `TransactionInfo.encode`
unfoldable pub encode : Formats → TransactionCode → ℤ → Option ℤ → List ℕ
unfolding code_letters
encode f code value none = (code_letters code).0 ∷ (code_letters code).1 ∷ f.show value
encode f code value (some receipted) =
    (code_letters code).0 ∷ (code_letters code).1 ∷ (f.show value ++ b'T' ∷ f.show receipted)

-- `to_key`, as the three last parts of a key. Without a code there are no letters.
unfoldable pub to_key : Formats → TransactionInfo → Result (List (List ℕ))
to_key f t = elim t.code [
  | none ↦ err attribute_error
  | some code ↦ ok (f.show_time t.datetime ∷ t.uid ∷ encode f code t.value t.receipted_value ∷ [])
]

-- `"…".split("T")`, its first part and its second part if there is one.
unfoldable pub split_T : List ℕ → List ℕ × Option (List ℕ)
split_T [] = ([], none)
split_T (c ∷ s) =
    let (first, second) = split_T s in if c == b'T' then ([], some first) else (c ∷ first, second)

unfoldable pub is_receipt_code : TransactionCode → Bool
is_receipt_code received_receipt = true
is_receipt_code sent_receipt = true
is_receipt_code _ = false

-- Both values of a receipt; `none` is an exception on the way.
both_values : Result ℤ → Result ℤ → Option (ℤ × ℤ)
both_values (ok v) (ok r) = some (v, r)
both_values (ok v) (err e) = none
both_values (err e) r = none

two_values : Formats → List ℕ × Option (List ℕ) → Option (ℤ × ℤ)
unfolding both_values
two_values f (first, none) = none
two_values f (first, some second) =
    both_values (create_from_text f first) (create_from_text f second)

one_value : ℕ → List ℕ → TransactionCode → Result ℤ → Option TransactionInfo
one_value t uid code (ok v) =
    some (record { code = some code; value = v; receipted_value = none; datetime = t; uid = uid })
one_value t uid code (err e) = none

-- The values behind the two letters.
parse_values : Formats → ℕ → List ℕ → List ℕ → TransactionCode → Option TransactionInfo
parse_values f t uid s code =
    elim (if is_receipt_code code then two_values f (split_T s) else none) [
      | none ↦ one_value t uid code (create_from_text f s)
      | some (v, r) ↦ some (record {
        code = some code;
        value = v;
        receipted_value = some r;
        datetime = t;
        uid = uid;
      })
    ]

-- A part that may hold a code and its values; `none` is an exception on the way.
pub parse_part : Formats → ℕ → List ℕ → List ℕ → Option TransactionInfo
parse_part f t uid [] = none
parse_part f t uid (a ∷ []) = none
parse_part f t uid (a ∷ b ∷ s) = elim (get_code a b) [
  | none ↦ none
  | some code ↦ parse_values f t uid s code
]

-- Python's index of the part that lies `k` parts before the last of `n`: past the first it counts
-- from the end again.
unfoldable wrap : ℕ → ℕ → ℕ
wrap n k = if ltb k n then k else k - n

-- The parts of one round; `none` is an index out of range or another exception on the way.
parse_parts : Formats → Option (List ℕ) → Option (List ℕ) → Option (List ℕ) → Option TransactionInfo
parse_parts f (some date) (some uid) (some part) = elim (f.read_time date) [
  | none ↦ none
  | some t ↦ parse_part f t uid part
]
parse_parts f _ _ _ = none

-- One round of `from_key`: part `i` from the end, its UID one part before it and its time two.
pub parse_at : Formats → List (List ℕ) → ℕ → Option TransactionInfo
parse_at f rev i =
    parse_parts f (get_elem? rev (wrap (length rev) (i + 2)))
      (get_elem? rev (wrap (length rev) (i + 1))) (get_elem? rev i)

-- The loop from the last part to the first. `rounds` counts the parts that are left.
pub scan : Formats → List (List ℕ) → ℕ → ℕ → Result TransactionInfo
scan f rev zero i = err value_error
scan f rev (suc rounds) i =
    let rest = scan f rev rounds (i + 1) in elim (parse_at f rev i) [ none ↦ rest | some t ↦ ok t ]

-- `TransactionInfo.from_key`
pub from_key : Formats → List (List ℕ) → Result TransactionInfo
from_key f parts = scan f (reverse parts) (length parts) 0

-- The new object of `rescind` keeps the receipted value 0 of its constructor.
unfoldable pub renewed : TransactionInfo → Option TransactionCode → ℤ → TransactionInfo
renewed t code v = record {
  code = code;
  value = v;
  receipted_value = some (pos 0);
  datetime = t.datetime;
  uid = reverse t.uid;
}

-- Two of its branches set no code.
unfoldable pub rescind_code : TransactionInfo → Option TransactionCode → Result TransactionInfo
rescind_code t (some TransactionCode.debit) = ok (renewed t (some credit) t.value)
rescind_code t (some TransactionCode.credit) = ok (renewed t (some debit) t.value)
rescind_code t (some TransactionCode.current_liability) = ok (renewed t none (neg t.value))
rescind_code t (some TransactionCode.account_receivable) = ok (renewed t none (neg t.value))
rescind_code t _ = err permission_error

-- `TransactionInfo.rescind`
unfoldable pub rescind : TransactionInfo → Result TransactionInfo
rescind t = rescind_code t t.code
