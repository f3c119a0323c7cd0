-- ===== src/Accounting/Transaction/Split.antt =====
-- Acquire/Accounting/_transaction.py: splitting a value loses nothing and makes no part too large.
use acquire.Base.{
  ℕ, zero, suc, ◌+◌, ◌≤◌, String, ◌≡◌, refl, inl, inr, true, Option, some, List, [], ◌∷◌, arith,
  All, length, Bool-cases,
}
use acquire.Base.Int.{ℤ, pos, ◌-ℤ◌, ◌≤ℤ◌, ◌<ℤ◌, ltb_ℤ, pos_part, int_laws, eqb_ℤ_refl}
use acquire.Base.Result.{ok}
use acquire.Accounting.Formats.{Formats, IsFormats, IsSmall}
use acquire.Accounting.Transaction.{
  Transaction, create_value, maximum_transaction_value, new_transaction, pieces, sum,
  transactions_from, values, check_total, split_large, split,
}

-- A part is positive and no larger than the maximum.
abbrev pub IsPart : ℤ → Type 0
IsPart v = (pos 0 <ℤ v) × (v ≤ℤ maximum_transaction_value)

larger :
    (v : ℤ)
    → ltb_ℤ maximum_transaction_value v ≡ true
    → (pos 0 ≤ℤ v -ℤ maximum_transaction_value) × (maximum_transaction_value <ℤ v)
larger v h = let k : maximum_transaction_value <ℤ v = ground arith in omega int_laws

below :
    (v : ℤ) (fuel : ℕ)
    → pos_part v ≤ suc fuel
    → ltb_ℤ maximum_transaction_value v ≡ true
    → pos_part (v -ℤ maximum_transaction_value) ≤ fuel
unfolding ◌-ℤ◌
below v fuel k h = ground arith

pieces_lem :
    (fuel : ℕ) (v : ℤ)
    → pos 0 ≤ℤ v
    → pos_part v ≤ fuel
    → (sum (pieces fuel v) ≡ v) × All IsPart (pieces fuel v)
unfolding pieces sum
pieces_lem zero v h k = elim (Bool-cases (ltb_ℤ (pos 0) v)) [
  | inl e ↦ absurd (ground arith)
  | inr e ↦ rw e (ground arith, tt)
]
pieces_lem (suc fuel) v h k = elim (Bool-cases (ltb_ℤ maximum_transaction_value v)) [
  | inl e ↦
      let (total, parts) =
        pieces_lem fuel (v -ℤ maximum_transaction_value) (larger v e).0 (below v fuel k e) in
      rw e (rw total (omega int_laws), ((omega arith, omega arith), parts))
  | inr e ↦ elim (Bool-cases (ltb_ℤ (pos 0) v)) [
    | inl p ↦ rw (e, p) (omega int_laws, ((ground arith, ground arith), tt))
    | inr p ↦ rw (e, p) (ground arith, tt)
  ]
]

-- A value that `create_value` leaves alone, not above the maximum, makes a transaction.
new_part :
    (f : Formats) (v : ℤ) (text : String)
    → IsFormats f
    → pos 0 ≤ℤ v
    → v ≤ℤ maximum_transaction_value
    → new_transaction f v (some text) ≡ ok (record { value = v; description = some text })
unfolding new_transaction
new_part f v text laws low high =
    let small : IsSmall v = (omega int_laws, omega int_laws) in
    let exact = laws.round_small v small in ground (arith, exact)

-- Every part becomes a transaction of its value.
transactions_from_lem :
    (f : Formats) (description : Option String) (i n : ℕ) (vs : List ℤ)
    → IsFormats f
    → All IsPart vs
    → (ts : List Transaction) × (transactions_from f description i n vs ≡ ok ts) × (values ts ≡ vs)
unfolding transactions_from values
transactions_from_lem f description i n [] laws h = ([], refl, refl)
transactions_from_lem f description i n (v ∷ vs) laws h =
    let (ts, e, same) = transactions_from_lem f description (i + 1) n vs laws h.1 in
    let text = f.part_of description i n in
    (
      record { value = v; description = some text } ∷ ts,
      rw (new_part f v text laws (omega (arith, h.0.0)) h.0.1, e) refl,
      rw same refl,
    )

module _ (f : Formats) (laws : IsFormats f) where
  create_value_lem :
      (value w : ℤ)
      → f.round6 value ≡ w
      → pos 0 ≤ℤ w
      → w <ℤ pos 1000000000000000000000
      → create_value f value ≡ ok w
  unfolding create_value
  create_value_lem value w e low high = ground (arith, e)

  check_total_lem :
      (value w : ℤ) (ts : List Transaction)
      → f.round6 value ≡ w
      → pos 0 ≤ℤ w
      → w <ℤ pos 1000000000000000000000
      → sum (values ts) ≡ w
      → check_total f w ts ≡ ok ts
  unfolding check_total
  check_total_lem value w ts e low high total =
      let stable : f.round6 w ≡ w = rw (← e) (laws.round_stable value) in
      rw (total, create_value_lem w w stable low high, eqb_ℤ_refl w) refl

  split_large_lem :
      (value w : ℤ) (text : String)
      → f.round6 value ≡ w
      → pos 0 ≤ℤ w
      → w <ℤ pos 1000000000000000000000
      → (ts : List Transaction) × (split_large f w (some text) ≡ ok ts)
        × (sum (values ts) ≡ w)
        × All IsPart (values ts)
  unfolding split_large
  split_large_lem value w text e low high =
      let (total, parts) = pieces_lem (pos_part w) w low (omega arith) in
      let n = length (pieces (pos_part w) w) in
      let (ts, made, same) =
        transactions_from_lem f (some text) 1 n (pieces (pos_part w) w) laws parts in
      let whole : sum (values ts) ≡ w = rw same total in
      (
        ts,
        rw (total, eqb_ℤ_refl w, made) (check_total_lem value w ts e low high whole),
        whole,
        rw same parts,
      )

-- A part is at most the maximum.
parts_bounded : (vs : List ℤ) → All IsPart vs → All (λ v. v ≤ℤ maximum_transaction_value) vs
parts_bounded [] h = tt
parts_bounded (v ∷ vs) h = (h.0.1, parts_bounded vs h.1)

-- Splitting a value that rounds to `w`, from 0 up to 10^15 units, gives transactions whose values
-- add up to `w` exactly, none above the maximum, and all positive if `w` is.
pub split_lem :
    (f : Formats) (value w : ℤ) (text : String)
    → IsFormats f
    → f.round6 value ≡ w
    → pos 0 ≤ℤ w
    → w <ℤ pos 1000000000000000000000
    → (ts : List Transaction) × (split f value (some text) ≡ ok ts)
      × (sum (values ts) ≡ w)
      × All (λ v. v ≤ℤ maximum_transaction_value) (values ts)
      × (pos 0 <ℤ w → All IsPart (values ts))
unfolding split
split_lem f value w text laws e low high = elim (Bool-cases (ltb_ℤ w maximum_transaction_value)) [
  | inl small ↦
      let bound : w ≤ℤ maximum_transaction_value = ground arith in
      (
        record { value = w; description = some text } ∷ [],
        rw (create_value_lem f laws value w e low high, small, new_part f w text laws low bound)
            refl,
        unfold sum values in omega int_laws,
        unfold values in (bound, tt),
        λ positive. unfold values in ((positive, bound), tt),
      )
  | inr large ↦
      let (ts, made, total, parts) = split_large_lem f laws value w text e low high in
      (
        ts,
        rw (create_value_lem f laws value w e low high, large) made,
        total,
        parts_bounded (values ts) parts,
        λ _. parts,
      )
]
