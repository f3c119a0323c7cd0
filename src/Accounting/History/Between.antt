-- ===== src/Accounting/History/Between.antt =====
-- `_get_transactions_between` of Acquire/Accounting/_account.py: both of its searches find the
-- changes between two times.
use acquire.Base.{
  ℕ, zero, suc, ◌+◌, ◌-◌, ◌/◌, ◌%◌, ◌≤◌, ◌<◌, ◌≡◌, ◌≢◌, ap, sym, ◌∙◌, inl, inr, Bool, true, false,
  List, [], ◌∷◌, ◌++◌, ◌&&◌, arith, All, ◌==◌, ltb, leb, filter, Bool-cases,
}
use acquire.Accounting.TransactionInfo.{TransactionInfo}
use acquire.Accounting.Balance.{add_balance}
use acquire.Accounting.Balance.Adding.{total_change}
use acquire.Accounting.Balance.Changes.{
  bit, change_if, change_if_split, change_if_cong, change_if_nothing, change_if-filter,
  total_change-append, total_change-filter,
}
use acquire.Accounting.History.{
  hour_length, day_length, end_of_days, is_between, is_on_day, search_days,
  get_transactions_between,
}

-- No transaction stands exactly at the top of an hour.
abbrev pub IsOffHour : TransactionInfo → Type 0
IsOffHour t = t.datetime % hour_length ≢ 0

-- The days from `day` on, `n` of them.
abbrev in_days : ℕ → ℕ → ℕ → Bool
in_days day n d = leb day d && ltb d (day + n)

day_bits :
    (x day n : ℕ) (b : Bool)
    → bit (b && (x == day)) + bit (b && in_days (suc day) n x) ≡ bit (b && in_days day (suc n) x)
day_bits x day n b = ground arith

pub All-of :
    {P : TransactionInfo → Type 0} (h : (t : TransactionInfo) → P t) (ts : List TransactionInfo)
    → All P ts
All-of h [] = tt
All-of h (t ∷ ts) = (h t, All-of h ts)

no_days : (b : Bool) (day d : ℕ) → (b && in_days day 0 d) ≡ false
no_days b day d = ground arith

-- The search by days finds the changes of its days.
search_days-change :
    (ts : List TransactionInfo) (start end day n : ℕ)
    → total_change (search_days ts start end day n)
      ≡ change_if (λ t. is_between start end t && in_days day n (t.datetime / day_length)) ts
unfolding search_days total_change is_on_day
search_days-change ts start end day zero = sym (
    change_if_nothing _ ts
      (All-of (λ t. no_days (is_between start end t) day (t.datetime / day_length)) ts))
search_days-change ts start end day (suc n) =
    total_change-append (filter (is_between start end) (filter (is_on_day day) ts)) _
    ∙ ap (λ x. add_balance x (total_change (search_days ts start end (suc day) n)))
        (total_change-filter (is_between start end) (filter (is_on_day day) ts)
          ∙ change_if-filter (is_between start end) (is_on_day day) ts)
    ∙ ap (add_balance (change_if (λ t. is_between start end t && is_on_day day t) ts))
        (search_days-change ts start end (suc day) n)
    ∙ sym (
        change_if_split (λ t. is_between start end t && is_on_day day t)
          (λ t. is_between start end t && in_days (suc day) n (t.datetime / day_length))
          (λ t. is_between start end t && in_days day (suc n) (t.datetime / day_length)) ts
          (All-of (λ t. day_bits (t.datetime / day_length) day n (is_between start end t)) ts))

-- Every transaction between the two times lies on one of the days.
all_days :
    (start end time : ℕ)
    → time % hour_length ≢ 0
    → start < time
    → time ≤ end
    → in_days (start / day_length) (end_of_days end - start / day_length) (time / day_length) ≡ true
unfolding end_of_days
all_days start end time off low high = ground arith

between_on_days :
    (start end : ℕ) (t : TransactionInfo)
    → IsOffHour t
    → (is_between start end t
        && in_days
            (start / day_length)
            (end_of_days end - start / day_length)
            (t.datetime / day_length))
      ≡ is_between start end t
unfolding is_between
between_on_days start end t off = ground (arith, all_days start end t.datetime off)

pub All-map :
    {P Q : TransactionInfo → Type 0} (h : (t : TransactionInfo) → P t → Q t)
    (ts : List TransactionInfo)
    → All P ts
    → All Q ts
All-map h [] p = tt
All-map h (t ∷ ts) p = (h t p.0, All-map h ts p.1)

-- Where no transaction stands at the top of an hour, `_get_transactions_between` finds exactly the
-- changes of the transactions after the first time and up to the second, by either search.
pub get_transactions_between-change :
    (ts : List TransactionInfo) (start end : ℕ)
    → All IsOffHour ts
    → total_change (get_transactions_between ts start end) ≡ change_if (is_between start end) ts
unfolding get_transactions_between
get_transactions_between-change ts start end off =
    elim (Bool-cases (ltb (end_of_days end) (start / day_length + 8))) [
      | inl h ↦
          rw (h, get_transactions_between)
            (search_days-change ts start end (start / day_length)
                (end_of_days end - start / day_length)
              ∙ change_if_cong _ _ ts (All-map (between_on_days start end) ts off))
      | inr h ↦ rw (h, get_transactions_between) (total_change-filter (is_between start end) ts)
    ]

All-append :
    (P : TransactionInfo → Type 0) (ts us : List TransactionInfo)
    → All P ts
    → All P us
    → All P (ts ++ us)
All-append P [] us h k = k
All-append P (t ∷ ts) us h k = (h.0, All-append P ts us h.1 k)

All-filter :
    (P : TransactionInfo → Type 0) (p : TransactionInfo → Bool) (ts : List TransactionInfo)
    → All P ts
    → All P (filter p ts)
All-filter P p [] h = tt
All-filter P p (t ∷ ts) h = elim (Bool-cases (p t)) [
  | inl e ↦ rw e (h.0, All-filter P p ts h.1)
  | inr e ↦ rw e (All-filter P p ts h.1)
]

All-search_days :
    (P : TransactionInfo → Type 0) (ts : List TransactionInfo) (start end day n : ℕ)
    → All P ts
    → All P (search_days ts start end day n)
unfolding search_days
All-search_days P ts start end day zero h = tt
All-search_days P ts start end day (suc n) h =
    All-append P _ _ (All-filter P _ _ (All-filter P (is_on_day day) ts h))
      (All-search_days P ts start end (suc day) n h)

pub All-get_transactions_between :
    (P : TransactionInfo → Type 0) (ts : List TransactionInfo) (start end : ℕ)
    → All P ts
    → All P (get_transactions_between ts start end)
unfolding get_transactions_between
All-get_transactions_between P ts start end h =
    elim (Bool-cases (ltb (end_of_days end) (start / day_length + 8))) [
      | inl e ↦ rw (e, get_transactions_between) (All-search_days P ts start end _ _ h)
      | inr e ↦ rw (e, get_transactions_between) (All-filter P (is_between start end) ts h)
    ]
