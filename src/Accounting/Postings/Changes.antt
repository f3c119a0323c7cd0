-- ===== src/Accounting/Postings/Changes.antt =====
-- What the entries of a debit and of a credit change add up to.
use acquire.Base.{
  ℕ, Bool, true, false, Option, none, some, List, [], ◌∷◌, ◌≡◌, refl, sym, ap, ◌∙◌, inl, inr,
  Bool-cases, if◌then◌else◌,
}
use acquire.Base.Int.{leb_ℤ, ℤ, pos, neg, ◌+ℤ◌, int_laws}
use acquire.Base.Result.{ok}
use acquire.Base.Exec.{Yields, seq-Yields, lift-Yields, then-Yields}
use acquire.Accounting.TransactionInfo.{rescind, TransactionInfo, TransactionCode}
use acquire.Accounting.Balance.{Balance, zero_balance, add_balance}
use acquire.Accounting.Balance.Adding.{change, add_balance_assoc}
use acquire.Accounting.Notes.{DebitNote}
use acquire.Accounting.Postings.{
  Ledger, Stamp, Funds, line_item, write, post, debit_code, credit_code, undo, undo_if_overdrawn,
  positive_debit, debit_account, credit_account, receipt_deadline, write_rescinded,
}

abbrev pub total_of : List (ℕ × TransactionInfo) → Balance
total_of [] = zero_balance
total_of ((account, t) ∷ es) = add_balance (change t) (total_of es)

-- The balances of all accounts together.
abbrev pub total : Ledger → Balance
total l = total_of l.entries

-- Debits and credits cancel, and every liability is another account's receivable.
abbrev pub IsBalanced : Balance → Type 0
IsBalanced b = (b.balance ≡ pos 0) × (b.liability ≡ b.receivable)

pub add_balance-IsBalanced :
    (b c : Balance) → IsBalanced b → IsBalanced c → IsBalanced (add_balance b c)
unfolding add_balance ◌+ℤ◌
add_balance-IsBalanced b c h k = (rw (h.0, k.0) refl, rw (h.1, k.1) refl)

abbrev pub debit_effect : Bool → ℤ → Balance
debit_effect true v = record { balance = pos 0; liability = v; receivable = pos 0 }
debit_effect false v = record { balance = neg v; liability = pos 0; receivable = pos 0 }

abbrev pub credit_effect : Bool → ℤ → Balance
credit_effect true v = record { balance = pos 0; liability = pos 0; receivable = v }
credit_effect false v = record { balance = v; liability = pos 0; receivable = pos 0 }

pub transfer-IsBalanced :
    (is_provisional : Bool) (v : ℤ)
    → IsBalanced (add_balance (credit_effect is_provisional v) (debit_effect is_provisional v))
unfolding add_balance
transfer-IsBalanced true v = (omega int_laws, omega int_laws)
transfer-IsBalanced false v = (omega int_laws, omega int_laws)

-- The call wrote exactly this line_item, and nothing else changed.
abbrev pub Posted : Ledger → ℕ → TransactionInfo → Ledger → Type 0
Posted l account info l' = l' ≡ record l { entries = (account, info) ∷ l.entries }

-- The sum of all balances grew by that of the change.
pub record Adds (l : Ledger) (b : Balance) (l' : Ledger) : Type 0 where
  pub adds : total l' ≡ add_balance b (total l)

pub Posted-Adds :
    (l l' : Ledger) (account : ℕ) (info : TransactionInfo) {b : Balance}
    → Posted l account info l'
    → change info ≡ b
    → Adds l b l'
Posted-Adds l l' account info h k = record {
  adds = ap (λ l'. total l') h ∙ ap (λ c. add_balance c (total l)) k;
}

pub Adds-twice :
    {l m l' : Ledger} {b c : Balance} → Adds l b m → Adds m c l' → Adds l (add_balance c b) l'
Adds-twice {l = l} {b = b} {c = c} h k = record {
  adds = k.adds ∙ ap (λ x. add_balance c x) h.adds ∙ sym (add_balance_assoc c b (total l));
}

pub Adds-IsBalanced :
    {l l' : Ledger} {b : Balance}
    → Adds l b l'
    → IsBalanced b
    → IsBalanced (total l)
    → IsBalanced (total l')
Adds-IsBalanced {l = l} {b = b} h k balanced =
    rw (h.adds) (add_balance-IsBalanced b (total l) k balanced)

write-Posted :
    (is_written : Bool) (account : ℕ) (info : TransactionInfo) (l : Ledger)
    → Yields (write is_written account info l) (λ _ l'. Posted l account info l')
unfolding write
write-Posted true account info l = refl
write-Posted false account info l = tt

pub post-Posted :
    (stamp : Stamp) (account : ℕ) (code : TransactionCode) (v : ℤ) (r : Option ℤ) (l : Ledger)
    → Yields
        (post stamp account code v r l)
        (λ _ l'. Posted l account (line_item stamp code v r) l')
unfolding post
post-Posted stamp account code v r l =
    seq-Yields (write stamp.is_written account (line_item stamp code v r)) _ l _ _
      (write-Posted stamp.is_written account (line_item stamp code v r) l) (λ _ l' h. h)

-- The undoing of an entry never returns.
undo-raises :
    (stamp : Stamp) (account : ℕ) (info : TransactionInfo) (l : Ledger) (q : Unit → Ledger → Type 0)
    → Yields (undo stamp account info l) q
unfolding undo
undo-raises stamp account info l q =
    lift-Yields (rescind info) _ l q
      λ x _. then-Yields (write_rescinded stamp.is_written account x) _ l q λ _ t. tt

overdrawn-unchanged :
    (b : Bool) (stamp : Stamp) (account : ℕ) (info : TransactionInfo) (l : Ledger)
    → Yields (if b then undo stamp account info l else (ok tt, l)) (λ _ l'. l' ≡ l)
overdrawn-unchanged true stamp account info l = undo-raises stamp account info l _
overdrawn-unchanged false stamp account info l = refl

-- A debit that returns `none` changed nothing; another wrote its one line_item, of a positive value.
abbrev pub Debited : Ledger → Stamp → ℕ → ℤ → Bool → Option (ℕ × ℕ × Option ℕ) → Ledger → Type 0
Debited l stamp account v p none l' = (leb_ℤ v (pos 0) ≡ true) × (l' ≡ l)
Debited l stamp account v p (some r) l' =
    (leb_ℤ v (pos 0) ≡ false) × Posted l account (line_item stamp (debit_code p) v none) l'

positive_debit-Posted :
    (funds : Funds) (stamp : Stamp) (account : ℕ) (v : ℤ) (p : Bool) (receipt_by : Option ℕ)
    (l : Ledger)
    → leb_ℤ v (pos 0) ≡ false
    → Yields (positive_debit funds stamp account v p receipt_by l) (Debited l stamp account v p)
unfolding positive_debit undo_if_overdrawn
positive_debit-Posted funds stamp account v p receipt_by l positive =
    lift-Yields (funds.check l account v) _ l _ λ _ _.
      lift-Yields (receipt_deadline stamp p receipt_by) _ l _ λ until _.
        seq-Yields (post stamp account (debit_code p) v none) _ l _ _
          (post-Posted stamp account (debit_code p) v none l)
          λ _ l₁ h.
            seq-Yields
              (undo_if_overdrawn funds stamp account (line_item stamp (debit_code p) v none)) _ l₁ _
              _ (overdrawn-unchanged (funds.overdraws l₁ account) stamp account _ l₁)
              λ _ l₂ k. (positive, k ∙ h)

pub debit_account-Debited :
    (funds : Funds) (stamp : Stamp) (account : ℕ) (v : ℤ) (p : Bool) (receipt_by : Option ℕ)
    (l : Ledger)
    → Yields (debit_account funds stamp account v p receipt_by l) (Debited l stamp account v p)
unfolding debit_account
debit_account-Debited funds stamp account v p receipt_by l = elim (Bool-cases (leb_ℤ v (pos 0))) [
  | inl h ↦ rw (h) (h, refl)
  | inr h ↦ rw (h) (positive_debit-Posted funds stamp account v p receipt_by l h)
]

abbrev pub Credited : Ledger → Stamp → ℕ → DebitNote → Option (ℕ × ℕ) → Ledger → Type 0
Credited l stamp account note none l' = (leb_ℤ note.transaction.value (pos 0) ≡ true) × (l' ≡ l)
Credited l stamp account note (some r) l' =
    (leb_ℤ note.transaction.value (pos 0) ≡ false)
    × Posted l account
        (line_item stamp (credit_code note.is_provisional) note.transaction.value none) l'

pub credit_account-Credited :
    (stamp : Stamp) (account : ℕ) (note : DebitNote) (l : Ledger)
    → Yields (credit_account stamp account note l) (Credited l stamp account note)
unfolding credit_account
credit_account-Credited stamp account note l =
    elim (Bool-cases (leb_ℤ note.transaction.value (pos 0))) [
      | inl h ↦ rw (h) (h, refl)
      | inr h ↦ rw (h) (
          seq-Yields
            (post stamp account (credit_code note.is_provisional) note.transaction.value none) _ l _
            _
            (post-Posted stamp account (credit_code note.is_provisional) note.transaction.value none
              l)
            λ _ _ k. (h, k))
    ]
