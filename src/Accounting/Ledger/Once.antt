-- ===== src/Accounting/Ledger/Once.antt =====
-- Acquire/Accounting/_ledger.py: a debit note is receipted or refunded once, whatever calls follow.
use acquire.Base.{
  ℕ, String, false, Option, none, some, List, ◌≡◌, ◌≢◌, refl, sym, ◌∙◌, inl, inr, Bool-cases, All,
  subst, find, ◌==◌,
}
use acquire.Base.Result.{Result, ok, err, transaction_error, value_error, unmatched_receipt_error}
use acquire.Base.Exec.{Yields, seq-Yields, lift-Yields, final-Yields, both-Yields, Yields-returned}
use acquire.Accounting.Formats.{Formats}
use acquire.Accounting.Notes.{
  DebitNote, Receipt, Refund, TransactionState, TransactionRecord, direct, provisional, receipting,
  receipted, refunding,
}
use acquire.Accounting.Postings.{Ledger, Stamp, credit_receipt}
use acquire.Accounting.Ledger.{
  eq_state, save_transaction, change_state, test_and_set, load_test_and_set, matches_note,
  debit_note_from_receipt, credit_note_from_receipt, debit_note_from_refund, pair_and_record,
  receipt_transaction, receipt_loaded, refund_loaded, load_second, load_accounts,
  refund_transaction,
}
use acquire.Base.Find.{find-All, find-here, eqb_true}
use acquire.Accounting.Postings.Records.{credit_receipt-same}
use acquire.Accounting.Ledger.Returns.{check_that-Yields}
use acquire.Accounting.Ledger.Sequences.{Call, run, IsFresh, run-receipted}
use acquire.Accounting.Ledger.States.{
  Evolves-same, load-unchanged, HasState, IsStored, receipted-final, eq_state_sound,
}
use acquire.Accounting.Ledger.Evolve.{
  IsOther, pair_and_record-Evolves, debit_note_from_receipt-Evolves,
  credit_note_from_receipt-Evolves,
}
use acquire.Accounting.Ledger.Calls.{receipt_note-IsOther}

module _ (v : ℕ) (a b : TransactionState) (l : Ledger) where
  test_and_set-state :
      (r : Option TransactionRecord)
      → find v l.records ≡ r
      → Yields (test_and_set r a b l) (λ _ _. HasState v l a)
  unfolding test_and_set
  test_and_set-state none found = tt
  test_and_set-state (some r) found = elim (Bool-cases (eq_state r.transaction_state a)) [
    | inl h ↦ rw (h) (
        final-Yields (change_state r a b l) (λ _. HasState v l a)
          (r, found, eq_state_sound r.transaction_state a h))
    | inr h ↦ rw (h) tt
  ]

  -- Where the test returns, the record had the expected state.
  load-state : Yields (load_test_and_set v a b l) (λ _ _. HasState v l a)
  unfolding load_test_and_set
  load-state = test_and_set-state (find v l.records) refl

  module _ (stored : IsStored l) where
    change_state-now :
        (r : TransactionRecord)
        → find v l.records ≡ some r
        → r.transaction_state ≡ a
        → Yields (change_state r a b l) (λ _ t. HasState v t b)
    unfolding change_state save_transaction
    change_state-now r found is_a = elim (Bool-cases (eq_state a b)) [
      | inl h ↦ rw (h) (r, found, is_a ∙ eq_state_sound a b h)
      | inr h ↦
          let uid : r.debit_note.uid ≡ v =
            find-All (λ k x. x.debit_note.uid ≡ k) v l.records stored found in
          rw (h) (
            record r { transaction_state = b },
            find-here v r.debit_note.uid (record r { transaction_state = b }) l.records
                (eqb_true r.debit_note.uid v uid),
            refl,
          )
    ]

    test_and_set-now :
        (r : Option TransactionRecord)
        → find v l.records ≡ r
        → Yields (test_and_set r a b l) (λ _ t. HasState v t b)
    unfolding test_and_set
    test_and_set-now none found = tt
    test_and_set-now (some r) found = elim (Bool-cases (eq_state r.transaction_state a)) [
      | inl h ↦ rw (h) (change_state-now r found (eq_state_sound r.transaction_state a h))
      | inr h ↦ rw (h) tt
    ]

    load-now : Yields (load_test_and_set v a b l) (λ _ t. HasState v t b)
    unfolding load_test_and_set
    load-now = test_and_set-now (find v l.records) refl

  test_and_set-fails :
      (o : Option TransactionRecord) (r : TransactionRecord)
      → o ≡ some r
      → eq_state r.transaction_state a ≡ false
      → test_and_set o a b l ≡ (err transaction_error, l)
  unfolding test_and_set
  test_and_set-fails o r is_r h = rw (is_r, test_and_set, h) refl

  load-fails :
      (s : TransactionState)
      → HasState v l s
      → eq_state s a ≡ false
      → load_test_and_set v a b l ≡ (err transaction_error, l)
  unfolding load_test_and_set
  load-fails s h e =
      test_and_set-fails (find v l.records) h.0 h.1 (subst (λ x. eq_state x a ≡ false) (sym h.2) e)

load_second_swap :
    (first second : Result (Unit {0}))
    → load_second first second ≡ ok tt
    → load_second second first ≡ ok tt
unfolding load_second
load_second_swap (ok u) (ok v) h = refl
load_second_swap (ok u) (err why) h = h
load_second_swap (err why) (ok v) h = h
load_second_swap (err why) (err other) h = cc

-- Both accounts load, in either order.
abbrev AreLoaded : Stamp → Stamp → Type 0
AreLoaded debit_stamp credit_stamp =
    (load_accounts debit_stamp credit_stamp ≡ ok tt)
    × (load_accounts credit_stamp debit_stamp ≡ ok tt)

load_accounts_swap :
    (first second : Stamp) → load_accounts first second ≡ ok tt → AreLoaded first second
unfolding load_accounts
load_accounts_swap first second h = (h, load_second_swap first.loaded second.loaded h)

module _ (f : Formats) (describe : ℕ → String) (debit_stamp credit_stamp : Stamp) where
  pub receipt-fails :
      (r : Receipt) (l : Ledger) (s : TransactionState)
      → HasState r.credit_note.debit_note_uid l s
      → eq_state s provisional ≡ false
      → load_accounts debit_stamp credit_stamp ≡ ok tt
      → receipt_transaction f describe debit_stamp credit_stamp r l ≡ (err transaction_error, l)
  unfolding receipt_loaded receipt_transaction debit_note_from_receipt
  receipt-fails r l s h e loaded =
      rw (loaded, load-fails r.credit_note.debit_note_uid provisional receipting l s h e) refl

  pub refund-fails :
      (r : Refund) (l : Ledger) (s : TransactionState)
      → HasState r.credit_note.debit_note_uid l s
      → eq_state s direct ≡ false
      → load_accounts credit_stamp debit_stamp ≡ ok tt
      → refund_transaction f describe debit_stamp credit_stamp r l ≡ (err transaction_error, l)
  unfolding refund_loaded refund_transaction debit_note_from_refund
  refund-fails r l s h e loaded =
      rw (loaded, load-fails r.credit_note.debit_note_uid direct refunding l s h e) refl

  receipt-AreLoaded :
      (r : Receipt) (l : Ledger)
      → Yields
          (receipt_transaction f describe debit_stamp credit_stamp r l)
          (λ _ _. AreLoaded debit_stamp credit_stamp)
  unfolding receipt_transaction
  receipt-AreLoaded r l = lift-Yields (load_accounts debit_stamp credit_stamp) _ l _ λ _ h.
      final-Yields (receipt_loaded f describe debit_stamp credit_stamp r l)
        (λ _. AreLoaded debit_stamp credit_stamp) (load_accounts_swap debit_stamp credit_stamp h)

  -- Only the record of a provisional debit note is receipted.
  receipt_loaded-provisional :
      (r : Receipt) (l : Ledger)
      → Yields
          (receipt_loaded f describe debit_stamp credit_stamp r l)
          (λ _ _. HasState r.credit_note.debit_note_uid l provisional)
  unfolding receipt_loaded debit_note_from_receipt
  receipt_loaded-provisional r l =
      let was : Type 0 = HasState r.credit_note.debit_note_uid l provisional in
      seq-Yields (debit_note_from_receipt f describe debit_stamp r.credit_note.debit_account_uid r)
        _ l (λ _ _. was) _
        (seq-Yields (load_test_and_set r.credit_note.debit_note_uid provisional receipting) _ l
          (λ _ _. was) _ (load-state r.credit_note.debit_note_uid provisional receipting l)
          λ _ _ h. final-Yields _ (λ _. was) h)
        λ _ _ h. final-Yields _ (λ _. was) h

  receipt-provisional :
      (r : Receipt) (l : Ledger)
      → Yields
          (receipt_transaction f describe debit_stamp credit_stamp r l)
          (λ _ _. HasState r.credit_note.debit_note_uid l provisional)
  unfolding receipt_transaction
  receipt-provisional r l =
      lift-Yields (load_accounts debit_stamp credit_stamp) _ l _
        λ _ _. receipt_loaded-provisional r l

credit_note-receipted :
    (stamp : Stamp) (account : ℕ) (note : DebitNote) (r : Receipt) (l : Ledger)
    → IsStored l
    → Yields
        (credit_note_from_receipt stamp account note r l)
        (λ _ t. HasState r.credit_note.debit_note_uid t receipted)
unfolding credit_note_from_receipt
credit_note-receipted stamp account note r l stored =
    let u = r.credit_note.debit_note_uid in
    seq-Yields (load_test_and_set u receipting receipting) _ l (λ _ t. IsStored t) _
      (final-Yields (load_test_and_set u receipting receipting l) IsStored
        (subst IsStored (sym (load-unchanged u u receipting l)) stored))
      λ t l₁ stored₁.
        check_that-Yields (matches_note t r.credit_note) unmatched_receipt_error _ l₁ _ (
          check_that-Yields (account == r.credit_note.account_uid) value_error _ l₁ _ (
            seq-Yields (credit_receipt stamp account note r) _ l₁ (λ _ t. IsStored t) _
              (final-Yields (credit_receipt stamp account note r l₁) IsStored
                (Evolves-same u l₁ (credit_receipt stamp account note r l₁).1
                  (credit_receipt-same stamp account note r l₁) stored₁).0)
              λ _ l₂ stored₂.
                seq-Yields (load_test_and_set u receipting receipted) _ l₂ _ _
                  (load-now u receipting receipted l₂ stored₂) λ _ _ h. h))

eq_receipted_provisional : eq_state receipted provisional ≡ false
unfolding eq_state
eq_receipted_provisional = refl

eq_receipted_direct : eq_state receipted direct ≡ false
unfolding eq_state
eq_receipted_direct = refl

module _ (f : Formats) (describe : ℕ → String) (debit_stamp credit_stamp : Stamp) where
  -- A receipt that returns leaves its record receipted.
  receipt_loaded-receipted :
      (r : Receipt) (l : Ledger)
      → debit_stamp.uid ≢ r.credit_note.debit_note_uid
      → IsStored l
      → Yields
          (receipt_loaded f describe debit_stamp credit_stamp r l)
          (λ _ l'. IsStored l' × HasState r.credit_note.debit_note_uid l' receipted)
  unfolding receipt_loaded
  receipt_loaded-receipted r l fresh stored =
      let u = r.credit_note.debit_note_uid in
      let debits =
        debit_note_from_receipt f describe debit_stamp r.credit_note.debit_account_uid r in
      seq-Yields debits _ l (λ note t. IsOther u note × IsStored t) _
        (both-Yields (debits l) (λ note _. IsOther u note) (λ _ t. IsStored t)
          (receipt_note-IsOther u f describe debit_stamp fresh r.credit_note.debit_account_uid r l)
          (final-Yields (debits l) IsStored
            (debit_note_from_receipt-Evolves u f describe debit_stamp
              r.credit_note.debit_account_uid r l stored).0))
        λ note l₁ h.
          let credits = credit_note_from_receipt credit_stamp r.credit_note.account_uid note r in
          seq-Yields credits _ l₁ (λ _ t. IsStored t × HasState u t receipted) _
            (both-Yields (credits l₁) (λ _ t. IsStored t) (λ _ t. HasState u t receipted)
              (final-Yields (credits l₁) IsStored
                (credit_note_from_receipt-Evolves u credit_stamp r.credit_note.account_uid note r l₁
                  h.1).0)
              (credit_note-receipted credit_stamp r.credit_note.account_uid note r l₁ h.1))
            λ c l₂ k.
              let (stored₃, evolves) =
                pair_and_record-Evolves u direct (some r) none note c l₂ h.0 k.0 in
              let (t, has, path) = evolves receipted k.1 in
              final-Yields (pair_and_record direct (some r) none note c l₂)
                (λ l'. IsStored l' × HasState u l' receipted)
                (
                  stored₃,
                  subst (HasState u (pair_and_record direct (some r) none note c l₂).1)
                      (receipted-final t path) has,
                )

  receipt-receipted :
      (r : Receipt) (l : Ledger)
      → debit_stamp.uid ≢ r.credit_note.debit_note_uid
      → IsStored l
      → Yields
          (receipt_transaction f describe debit_stamp credit_stamp r l)
          (λ _ l'. IsStored l' × HasState r.credit_note.debit_note_uid l' receipted)
  unfolding receipt_transaction
  receipt-receipted r l fresh stored =
      lift-Yields (load_accounts debit_stamp credit_stamp) _ l _
        λ _ _. receipt_loaded-receipted r l fresh stored

  -- A receipt that returns found the record of its debit note provisional. However many calls follow it, whether
  -- they return or raise, a further receipt and a refund of the same debit note, with accounts that load as they did, raise a transaction error and change
  -- nothing, if the records are stored under their debit notes' UIDs and no call takes a UID for that debit note.
  pub receipt-once :
      (cs : List Call) (r again : Receipt) (refund : Refund) (l : Ledger)
      {records : List TransactionRecord} {l' : Ledger}
      → IsStored l
      → debit_stamp.uid ≢ r.credit_note.debit_note_uid
      → All (IsFresh r.credit_note.debit_note_uid) cs
      → again.credit_note.debit_note_uid ≡ r.credit_note.debit_note_uid
      → refund.credit_note.debit_note_uid ≡ r.credit_note.debit_note_uid
      → receipt_transaction f describe debit_stamp credit_stamp r l ≡ (ok records, l')
      → HasState r.credit_note.debit_note_uid l provisional
        × (receipt_transaction f describe debit_stamp credit_stamp again (run f describe cs l')
            ≡ (err transaction_error, run f describe cs l'))
        × (refund_transaction f describe debit_stamp credit_stamp refund (run f describe cs l')
            ≡ (err transaction_error, run f describe cs l'))
  receipt-once cs r again refund l {l' = l'} stored fresh fresh_calls same_again same_refund
        returned =
      let u = r.credit_note.debit_note_uid in
      let outcome = receipt_transaction f describe debit_stamp credit_stamp r l in
      let (stored', now) =
        Yields-returned outcome (λ _ t. IsStored t × HasState u t receipted) returned
          (receipt-receipted r l fresh stored) in
      let loaded =
        Yields-returned outcome (λ _ _. AreLoaded debit_stamp credit_stamp) returned
          (receipt-AreLoaded f describe debit_stamp credit_stamp r l) in
      let later = run-receipted f describe u cs l' fresh_calls stored' now in
      (
        Yields-returned outcome (λ _ _. HasState u l provisional) returned
            (receipt-provisional f describe debit_stamp credit_stamp r l),
        receipt-fails f describe debit_stamp credit_stamp again (run f describe cs l') receipted
            (subst (λ v. HasState v (run f describe cs l') receipted) (sym same_again) later)
            eq_receipted_provisional loaded.0,
        refund-fails f describe debit_stamp credit_stamp refund (run f describe cs l') receipted
            (subst (λ v. HasState v (run f describe cs l') receipted) (sym same_refund) later)
            eq_receipted_direct loaded.1,
      )
