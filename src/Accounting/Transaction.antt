-- ===== src/Accounting/Transaction.antt =====
-- Acquire/Accounting/_transaction.py: the value of a transaction and what it is for, and how a large
-- value is split over several transactions.
pub mod Split
use acquire.Base.{
  ℕ, zero, suc, ◌+◌, String, Bool, true, false, Option, none, some, List, [], ◌∷◌, if◌then◌else◌,
  length,
}
use acquire.Base.Int.{ℤ, pos, negsuc, ◌+ℤ◌, ◌-ℤ◌, ltb_ℤ, leb_ℤ, eqb_ℤ, pos_part}
use acquire.Base.Result.{Result, ok, err, ◌>>=◌, transaction_error}
use acquire.Accounting.Formats.{Formats}

pub record Transaction : Type 0 where
  pub value : ℤ
  pub description : Option String

-- `_create_decimal` of this file, which takes no negative value.
unfoldable pub create_value : Formats → ℤ → Result ℤ
create_value f value =
    let d = f.round6 value in
    if ltb_ℤ d (pos 0)
    then err transaction_error
    else if leb_ℤ (pos 1000000000000000000000) d
    then err transaction_error
    else ok d

-- 999999.999999 units
abbrev pub maximum_transaction_value : ℤ
maximum_transaction_value = pos 999999999999

unfoldable pub describe : ℤ → Option String → Result Transaction
describe value none =
    if ltb_ℤ (pos 0) value
    then err transaction_error
    else ok (record { value = value; description = none })
describe value (some s) = ok (record { value = value; description = some s })

unfoldable pub check_maximum : ℤ → Option String → Result Transaction
unfolding describe
check_maximum value description =
    if ltb_ℤ maximum_transaction_value value
    then err transaction_error
    else if ltb_ℤ value (pos 0)
    then err transaction_error
    else describe value description

-- The constructor.
unfoldable pub new_transaction : Formats → ℤ → Option String → Result Transaction
unfolding create_value check_maximum
new_transaction f value description = create_value f value >>= λ v. check_maximum v description

-- The loop that takes the maximum off while the value is larger, and the last value. The fuel is
-- the value itself, of which each round takes more than one unit.
pieces : ℕ → ℤ → List ℤ
pieces zero value = if ltb_ℤ (pos 0) value then value ∷ [] else []
pieces (suc fuel) value =
    let more = maximum_transaction_value ∷ pieces fuel (value -ℤ maximum_transaction_value) in
    if ltb_ℤ maximum_transaction_value value
    then more
    else if ltb_ℤ (pos 0) value
    then value ∷ []
    else []

pub sum : List ℤ → ℤ
sum [] = pos 0
sum (v ∷ vs) = v +ℤ sum vs

-- `values[-1] -= d`
subtract_last : ℤ → List ℤ → List ℤ
subtract_last d [] = []
subtract_last d (v ∷ []) = (v -ℤ d) ∷ []
subtract_last d (v ∷ w ∷ vs) = v ∷ subtract_last d (w ∷ vs)

-- Part i of n, and those after it.
transactions_from : Formats → Option String → ℕ → ℕ → List ℤ → Result (List Transaction)
transactions_from f description i n [] = ok []
transactions_from f description i n (v ∷ vs) =
    new_transaction f v (some (f.part_of description i n)) >>= λ t.
    transactions_from f description (i + 1) n vs >>= λ ts. ok (t ∷ ts)

pub values : List Transaction → List ℤ
values [] = []
values (t ∷ ts) = t.value ∷ values ts

-- The total is rounded once more and compared with the value that was split.
check_total : Formats → ℤ → List Transaction → Result (List Transaction)
check_total f value ts = create_value f (sum (values ts)) >>= λ total.
    if eqb_ℤ total value then ok ts else err transaction_error

split_large : Formats → ℤ → Option String → Result (List Transaction)
split_large f value description =
    let parts = pieces (pos_part value) value in
    let total = sum parts in
    let parts' = if eqb_ℤ total value then parts else subtract_last (total -ℤ value) parts in
    transactions_from f description 1 (length parts') parts' >>= check_total f value

-- `Transaction.split`
pub split : Formats → ℤ → Option String → Result (List Transaction)
split f value description = create_value f value >>= λ v.
    if ltb_ℤ v maximum_transaction_value
    then (new_transaction f v description >>= λ t. ok (t ∷ []))
    else split_large f v description
