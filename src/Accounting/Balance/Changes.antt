-- ===== src/Accounting/Balance/Changes.antt =====
-- Acquire/Accounting/_balance.py: the changes of the transactions that pass a test.
use Prim.{absurd}
use acquire.Base.{
  ℕ, ◌+◌, ◌≡◌, refl, ap, sym, ◌∙◌, inl, inr, Bool, true, false, List, [], ◌∷◌, ◌++◌, ◌&&◌, arith,
  All, filter, Bool-cases,
}
use acquire.Accounting.TransactionInfo.{TransactionInfo}
use acquire.Accounting.Balance.{Balance, zero_balance, add_balance}
use acquire.Accounting.Balance.Adding.{
  change, total_change, add_balance_comm, add_balance_assoc, add_balance_zero,
}
use acquire.Accounting.Balance.Sums.{add_balance_swap}

abbrev pub keep : Bool → Balance → Balance
keep true b = b
keep false b = zero_balance

-- The changes of the transactions that pass a test.
abbrev pub change_if : (TransactionInfo → Bool) → List TransactionInfo → Balance
change_if p [] = zero_balance
change_if p (t ∷ ts) = add_balance (keep (p t) (change t)) (change_if p ts)

abbrev pub bit : Bool → ℕ
bit true = 1
bit false = 0

pub add_zero_balance : (b : Balance) → add_balance zero_balance b ≡ b
add_zero_balance b = add_balance_comm zero_balance b ∙ add_balance_zero b

keep_split :
    (x y z : Bool) (b : Balance)
    → bit x + bit y ≡ bit z
    → keep z b ≡ add_balance (keep x b) (keep y b)
keep_split true true true b h = absurd (omega (arith, h))
keep_split true true false b h = absurd (omega (arith, h))
keep_split true false true b h = sym (add_balance_zero b)
keep_split true false false b h = absurd (omega (arith, h))
keep_split false true true b h = sym (add_zero_balance b)
keep_split false true false b h = absurd (omega (arith, h))
keep_split false false true b h = absurd (omega (arith, h))
keep_split false false false b h = sym (add_zero_balance zero_balance)

add_interchange :
    (a b c d : Balance)
    → add_balance (add_balance a b) (add_balance c d)
      ≡ add_balance (add_balance a c) (add_balance b d)
add_interchange a b c d =
    sym (add_balance_assoc (add_balance a b) c d)
    ∙ ap (λ x. add_balance x d) (add_balance_swap a b c)
    ∙ add_balance_assoc (add_balance a c) b d

-- Where every transaction passes exactly as many of two tests as it passes of a third, the changes
-- of the two make up those of the third.
pub change_if_split :
    (p q r : TransactionInfo → Bool) (ts : List TransactionInfo)
    → All (λ t. bit (p t) + bit (q t) ≡ bit (r t)) ts
    → change_if r ts ≡ add_balance (change_if p ts) (change_if q ts)
change_if_split p q r [] h = sym (add_zero_balance zero_balance)
change_if_split p q r (t ∷ ts) h =
    rw (keep_split (p t) (q t) (r t) (change t) h.0, change_if_split p q r ts h.1)
      (add_interchange (keep (p t) (change t)) (keep (q t) (change t)) (change_if p ts)
        (change_if q ts))

pub change_if_cong :
    (p q : TransactionInfo → Bool) (ts : List TransactionInfo)
    → All (λ t. p t ≡ q t) ts
    → change_if p ts ≡ change_if q ts
change_if_cong p q [] h = refl
change_if_cong p q (t ∷ ts) h = rw (h.0, change_if_cong p q ts h.1) refl

pub change_if_nothing :
    (p : TransactionInfo → Bool) (ts : List TransactionInfo)
    → All (λ t. p t ≡ false) ts
    → change_if p ts ≡ zero_balance
change_if_nothing p [] h = refl
change_if_nothing p (t ∷ ts) h =
    rw (h.0, change_if_nothing p ts h.1) (add_zero_balance zero_balance)

pub total_change-append :
    (ts us : List TransactionInfo)
    → total_change (ts ++ us) ≡ add_balance (total_change ts) (total_change us)
unfolding total_change
total_change-append [] us = (sym (add_zero_balance (total_change us)))
total_change-append (t ∷ ts) us =
    ap (add_balance (change t)) (total_change-append ts us)
    ∙ sym (add_balance_assoc (change t) (total_change ts) (total_change us))

keep_and_true : (x : Bool) (b : Balance) → keep (x && true) b ≡ keep x b
keep_and_true true b = refl
keep_and_true false b = refl

keep_and_false : (x : Bool) (b : Balance) → keep (x && false) b ≡ zero_balance
keep_and_false true b = refl
keep_and_false false b = refl

pub change_if-filter :
    (p q : TransactionInfo → Bool) (ts : List TransactionInfo)
    → change_if p (filter q ts) ≡ change_if (λ t. p t && q t) ts
change_if-filter p q [] = refl
change_if-filter p q (t ∷ ts) = elim (Bool-cases (q t)) [
  | inl h ↦
      rw (h, keep_and_true (p t) (change t))
        (ap (add_balance (keep (p t) (change t))) (change_if-filter p q ts))
  | inr h ↦
      rw (h, keep_and_false (p t) (change t)) (change_if-filter p q ts ∙ sym (add_zero_balance _))
]

pub total_change-filter :
    (p : TransactionInfo → Bool) (ts : List TransactionInfo)
    → total_change (filter p ts) ≡ change_if p ts
unfolding total_change
total_change-filter p [] = refl
total_change-filter p (t ∷ ts) = elim (Bool-cases (p t)) [
  | inl h ↦ rw h (ap (add_balance (change t)) (total_change-filter p ts))
  | inr h ↦ rw h (total_change-filter p ts ∙ sym (add_zero_balance (change_if p ts)))
]
