-- ===== src/Accounting/Ledger/States.antt =====
-- Acquire/Accounting/_transactionrecord.py: the states of a transaction's record and their changes.
use Prim.{absurd}
use mathlib.Core.Option.{some-injective}
use acquire.Base.{
  ℕ, true, Option, none, some, ◌≡◌, ◌≢◌, refl, ap, sym, ◌∙◌, Bool-cases, inl, inr, subst, ◌==◌,
  find, All,
}
use acquire.Base.Find.{eqb_eq, find-here, find-there, find-All}
use acquire.Accounting.Notes.{
  TransactionState, TransactionRecord, direct, provisional, receipting, receipted, refunding,
  refunded,
}
use acquire.Accounting.Postings.{Ledger}
use acquire.Accounting.Ledger.{
  eq_state, save_transaction, change_state, test_and_set, load_test_and_set,
}

-- The changes of a record's state.
infix 40 ◌⟶◌
pub data ◌⟶◌ : TransactionState → TransactionState → Type 0 where
  start_receipt : provisional ⟶ receipting
  end_receipt : receipting ⟶ receipted
  reset_receipt : receipting ⟶ provisional
  start_refund : direct ⟶ refunding
  end_refund : refunding ⟶ refunded
  reset_refund : refunding ⟶ direct

-- The states that later changes lead to.
infix 40 ◌⟶*◌
pub data ◌⟶*◌ : TransactionState → TransactionState → Type 0 where
  done : {s : TransactionState} → s ⟶* s
  more : {s t u : TransactionState} → s ⟶ t → t ⟶* u → s ⟶* u

⟶*-append : {s t u : TransactionState} → s ⟶* t → t ⟶* u → s ⟶* u
⟶*-append done k = k
⟶*-append (more a h) k = more a (⟶*-append h k)

pub receipted-final : (t : TransactionState) → receipted ⟶* t → t ≡ receipted
receipted-final t done = refl
receipted-final t (more x _) = elim x [ ]

pub refunded-final : (t : TransactionState) → refunded ⟶* t → t ≡ refunded
refunded-final t done = refl
refunded-final t (more x _) = elim x [ ]

pub eq_state_sound : (s t : TransactionState) → eq_state s t ≡ true → s ≡ t
unfolding eq_state
eq_state_sound direct direct h = refl
eq_state_sound provisional provisional h = refl
eq_state_sound receipting receipting h = refl
eq_state_sound receipted receipted h = refl
eq_state_sound refunding refunding h = refl
eq_state_sound refunded refunded h = refl
eq_state_sound _ _ h = cc

pub eq_state_refl : (s : TransactionState) → eq_state s s ≡ true
unfolding eq_state
eq_state_refl direct = refl
eq_state_refl provisional = refl
eq_state_refl receipting = refl
eq_state_refl receipted = refl
eq_state_refl refunding = refl
eq_state_refl refunded = refl

-- Each record is stored under the UID of its debit note.
abbrev pub IsStored : Ledger → Type 0
IsStored l = All (λ kr. kr.1.debit_note.uid ≡ kr.0) l.records

abbrev pub HasState : ℕ → Ledger → TransactionState → Type 0
HasState u l s = (r : TransactionRecord) × (find u l.records ≡ some r) × (r.transaction_state ≡ s)

-- The record of a debit note is still there, and its state only went through changes.
abbrev pub Evolves : ℕ → Ledger → Ledger → Type 0
Evolves u l l' =
    IsStored l
    → IsStored l'
      × ((s : TransactionState)
          → HasState u l s
          → (t : TransactionState) × HasState u l' t × (s ⟶* t))

module _ (u : ℕ) where
  pub Evolves-refl : (l : Ledger) → Evolves u l l
  Evolves-refl l stored = (stored, λ s h. (s, h, done))

  pub Evolves-trans : (l m n : Ledger) → Evolves u l m → Evolves u m n → Evolves u l n
  Evolves-trans l m n h k stored =
      let (stored_m, to_m) = h stored in
      let (stored_n, to_n) = k stored_m in
      (
        stored_n,
        λ s has.
            let (t, has_t, s_t) = to_m s has in
            let (v, has_v, t_v) = to_n t has_t in (v, has_v, ⟶*-append s_t t_v),
      )

  pub Evolves-same : (l l' : Ledger) → l'.records ≡ l.records → Evolves u l l'
  Evolves-same l l' same stored = (
    subst (λ rs. All (λ kr. kr.1.debit_note.uid ≡ kr.0) rs) (sym same) stored,
    λ s h. (s, (h.0, ap (find u) same ∙ h.1, h.2), done),
  )

  -- A record that is stored takes the place of the one under the same UID.
  save_transaction-Evolves :
      (new : TransactionRecord) (l : Ledger)
      → ((s : TransactionState)
          → new.debit_note.uid ≡ u
          → HasState u l s
          → s ⟶* new.transaction_state)
      → Evolves u l (save_transaction new l)
  unfolding save_transaction
  save_transaction-Evolves new l changes stored = (
    (refl, stored),
    λ s h. elim (Bool-cases (new.debit_note.uid == u)) [
      | inl e ↦ (
        new.transaction_state,
        (new, find-here u new.debit_note.uid new l.records e, refl),
        changes s (eqb_eq new.debit_note.uid u e) h,
      )
      | inr e ↦ (s, (h.0, find-there u new.debit_note.uid new l.records e ∙ h.1, h.2), done)
    ],
  )

  pub new-Evolves :
      (new : TransactionRecord) (l : Ledger)
      → new.debit_note.uid ≢ u
      → Evolves u l (save_transaction new l)
  new-Evolves new l fresh = save_transaction-Evolves new l λ _ same _. absurd (fresh same)

  same_state :
      (l : Ledger) (r : TransactionRecord) (s : TransactionState)
      → find u l.records ≡ some r
      → HasState u l s
      → s ≡ r.transaction_state
  same_state l r s found h =
      sym h.2 ∙ ap (λ x. x.transaction_state) (some-injective h.0 r (sym h.1 ∙ found))

  module _ (v : ℕ) (a b : TransactionState) (step : a ⟶ b) (l : Ledger) where
    change_state-Evolves :
        (r : TransactionRecord)
        → find v l.records ≡ some r
        → r.transaction_state ≡ a
        → Evolves u l (change_state r a b l).1
    unfolding change_state
    change_state-Evolves r found is_a = elim (Bool-cases (eq_state a b)) [
      | inl h ↦ rw (h) (Evolves-refl l)
      | inr h ↦ rw (h) (λ stored.
          let uid : r.debit_note.uid ≡ v =
            find-All (λ k x. x.debit_note.uid ≡ k) v l.records stored found in
          save_transaction-Evolves (record r { transaction_state = b }) l
            (λ s same has.
              let found_u : find u l.records ≡ some r =
                ap (λ k. find k l.records) (sym same ∙ uid) ∙ found in
              subst (λ x. x ⟶* b) (sym (same_state l r s found_u has ∙ is_a)) (more step done))
            stored)
    ]

    test_and_set-Evolves :
        (r : Option TransactionRecord) → find v l.records ≡ r → Evolves u l (test_and_set r a b l).1
    unfolding test_and_set
    test_and_set-Evolves none found = Evolves-refl l
    test_and_set-Evolves (some r) found = elim (Bool-cases (eq_state r.transaction_state a)) [
      | inl h ↦ rw (h) (change_state-Evolves r found (eq_state_sound r.transaction_state a h))
      | inr h ↦ rw (h) (Evolves-refl l)
    ]

    pub load-Evolves : Evolves u l (load_test_and_set v a b l).1
    unfolding load_test_and_set
    load-Evolves = test_and_set-Evolves (find v l.records) refl

  module _ (v : ℕ) (a : TransactionState) (l : Ledger) where
    test-unchanged : (r : Option TransactionRecord) → (test_and_set r a a l).1 ≡ l
    unfolding test_and_set change_state
    test-unchanged none = refl
    test-unchanged (some r) = elim (Bool-cases (eq_state r.transaction_state a)) [
      | inl h ↦ rw (h, eq_state_refl a) refl
      | inr h ↦ rw (h) refl
    ]

    -- A state that is only tested is not written.
    pub load-unchanged : (load_test_and_set v a a l).1 ≡ l
    unfolding load_test_and_set
    load-unchanged = test-unchanged (find v l.records)
