-- ===== src/Accounting/Balance/Sums.antt =====
-- `_sum_transactions` of Acquire/Accounting/_account.py: the order of the transactions.
use Prim.{absurd}
use mathlib.Core.List.{Permᴰ}
use acquire.Base.{◌≡◌, refl, ap, sym, ◌∙◌, ◌⊎◌, inl, inr, Option, none, some, List, ◌∷◌}
use acquire.Base.Int.{ℤ, int_laws}
use acquire.Base.Result.{Result, ok, err, type_error, ◌>>=◌}
use acquire.Accounting.TransactionInfo.{TransactionInfo, TransactionCode}
use acquire.Accounting.Balance.{
  Balance, zero_balance, add_balance, add_info, add_code, add_received_receipt, add_sent_receipt,
  sum_from, sum_transactions,
}
use acquire.Accounting.Balance.Adding.{balance_eq, CodeSummable, change, add_info-change}

summable_or_not :
    (c : Option TransactionCode) (r : Option ℤ) → CodeSummable c r ⊎ (¬ CodeSummable c r)
summable_or_not (some TransactionCode.received_receipt) none = inr (λ h. h)
summable_or_not (some TransactionCode.sent_receipt) none = inr (λ h. h)
summable_or_not (some TransactionCode.received_receipt) (some r) = inl tt
summable_or_not (some TransactionCode.sent_receipt) (some r) = inl tt
summable_or_not none r = inl tt
summable_or_not (some TransactionCode.credit) r = inl tt
summable_or_not (some TransactionCode.debit) r = inl tt
summable_or_not (some TransactionCode.current_liability) r = inl tt
summable_or_not (some TransactionCode.account_receivable) r = inl tt
summable_or_not (some TransactionCode.received_refund) r = inl tt
summable_or_not (some TransactionCode.sent_refund) r = inl tt

received_receipt_raises :
    (b : Balance) (v : ℤ) (r : Option ℤ)
    → ¬ CodeSummable (some TransactionCode.received_receipt) r
    → add_received_receipt b v r ≡ err type_error
unfolding add_received_receipt
received_receipt_raises b v none h = refl
received_receipt_raises b v (some r) h = absurd (h tt)

sent_receipt_raises :
    (b : Balance) (v : ℤ) (r : Option ℤ)
    → ¬ CodeSummable (some TransactionCode.sent_receipt) r
    → add_sent_receipt b v r ≡ err type_error
unfolding add_sent_receipt
sent_receipt_raises b v none h = refl
sent_receipt_raises b v (some r) h = absurd (h tt)

add_code_raises :
    (b : Balance) (t : TransactionInfo) (c : Option TransactionCode)
    → ¬ CodeSummable c t.receipted_value
    → add_code b t c ≡ err type_error
unfolding add_code
add_code_raises b t (some TransactionCode.received_receipt) h =
    received_receipt_raises b t.value t.receipted_value h
add_code_raises b t (some TransactionCode.sent_receipt) h =
    sent_receipt_raises b t.value t.receipted_value h
add_code_raises b t none h = absurd (h tt)
add_code_raises b t (some TransactionCode.credit) h = absurd (h tt)
add_code_raises b t (some TransactionCode.debit) h = absurd (h tt)
add_code_raises b t (some TransactionCode.current_liability) h = absurd (h tt)
add_code_raises b t (some TransactionCode.account_receivable) h = absurd (h tt)
add_code_raises b t (some TransactionCode.received_refund) h = absurd (h tt)
add_code_raises b t (some TransactionCode.sent_refund) h = absurd (h tt)

-- A transaction either always adds its change or always raises.
abbrev AddsOrRaises : TransactionInfo → Type 0
AddsOrRaises t =
    ((b : Balance) → add_info b t ≡ ok (add_balance b (change t)))
    ⊎ ((b : Balance) → add_info b t ≡ err type_error)

adds_or_raises : (t : TransactionInfo) → AddsOrRaises t
unfolding add_info
adds_or_raises t = elim (summable_or_not t.code t.receipted_value) [
  | inl h ↦ inl (λ b. add_info-change b t h)
  | inr h ↦ inr (λ b. add_code_raises b t t.code h)
]

both_added : Balance → TransactionInfo → TransactionInfo → Result Balance
both_added b s t = add_info b s >>= λ c. add_info c t

pub add_balance_swap :
    (b c d : Balance) → add_balance (add_balance b c) d ≡ add_balance (add_balance b d) c
unfolding add_balance
add_balance_swap b c d = balance_eq (omega int_laws) (omega int_laws) (omega int_laws)

both_added_swap : (b : Balance) (s t : TransactionInfo) → both_added b s t ≡ both_added b t s
unfolding both_added
both_added_swap b s t = elim (adds_or_raises s) [
  | inl hs ↦ elim (adds_or_raises t) [
    | inl ht ↦
        rw (hs b, ht b, ht (add_balance b (change s)), hs (add_balance b (change t)))
          (ap (λ (x : Balance). ok x) (add_balance_swap b (change s) (change t)))
    | inr ht ↦ rw (hs b, ht b, ht (add_balance b (change s))) refl
  ]
  | inr hs ↦ elim (adds_or_raises t) [
    | inl ht ↦ rw (hs b, ht b, hs (add_balance b (change t))) refl
    | inr ht ↦ rw (hs b, ht b) refl
  ]
]

sum_from-two :
    (b : Balance) (s t : TransactionInfo) (ts : List TransactionInfo)
    → sum_from b (s ∷ t ∷ ts) ≡ both_added b s t >>= λ c. sum_from c ts
unfolding sum_from both_added
sum_from-two b s t ts = elim (adds_or_raises s) [
  | inl h ↦ rw (h b, sum_from) refl
  | inr h ↦ rw (h b, sum_from) refl
]

bind_cong :
    (r : Result Balance) (f g : Balance → Result Balance)
    → ((c : Balance) → f c ≡ g c)
    → (r >>= f) ≡ (r >>= g)
bind_cong (ok c) f g h = h c
bind_cong (err e) f g h = refl

-- The order in which transactions are listed changes neither their sum nor whether it raises.
pub sum_from-Perm :
    (b : Balance) {ts us : List TransactionInfo} → Permᴰ ts us → sum_from b ts ≡ sum_from b us
unfolding sum_from
sum_from-Perm b Permᴰ.nil = refl
sum_from-Perm b (Permᴰ.cons {a} {l₁} {l₂} e p) =
    ap (λ x. sum_from b (x ∷ l₁)) e
    ∙ bind_cong (add_info b _) (λ c. sum_from c l₁) (λ c. sum_from c l₂) (λ c. sum_from-Perm c p)
sum_from-Perm b (Permᴰ.swap {a = s} {b = t} {a'} {l} e k) =
    sum_from-two b s t l
    ∙ ap (λ r. r >>= λ c. sum_from c l) (both_added_swap b s t)
    ∙ sym (sum_from-two b t s l)
    ∙ ap (λ x. sum_from b (x ∷ s ∷ l)) k
    ∙ ap (λ x. sum_from b (a' ∷ x ∷ l)) e
sum_from-Perm b (Permᴰ.trans p q) = sum_from-Perm b p ∙ sum_from-Perm b q

-- Transactions listed in another order have the same sum, or raise the same exception.
pub sum_transactions-Perm :
    {ts us : List TransactionInfo} → Permᴰ ts us → sum_transactions ts ≡ sum_transactions us
unfolding sum_transactions
sum_transactions-Perm p = sum_from-Perm zero_balance p
