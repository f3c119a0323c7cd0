-- ===== src/Accounting/History/Stored.antt =====
-- `_find_last_balance_key` of Acquire/Accounting/_account.py: it returns the key of a stored balance.
use Prim.{absurd}
use mathlib.Core.Path.{subst}
use mathlib.Core.Option.{some-injective}
use acquire.Base.{
  ℕ, zero, suc, ◌≤◌, ◌≡◌, ◌≢◌, refl, ap, sym, ◌∙◌, inl, inr, ◌⊎◌, Bool, Option, none, some, List,
  [], ◌∷◌, arith, ◌==◌, ltb, find, Bool-cases,
}
use acquire.Base.Find.{find-here, find-there}
use acquire.Base.Result.{Result, ok}
use acquire.Accounting.Formats.{Formats}
use acquire.Accounting.Balance.{Balance}
use acquire.Accounting.History.{
  later, latest, find_since_today, find_in_months, find_since_yesterday,
}

-- A key that is stored.
abbrev pub HasKey : List (ℕ × Balance) → ℕ → Type 0
HasKey bs k = (b : Balance) × (find k bs ≡ some b)

HasKey-cons :
    (i : ℕ) (x : Balance) (bs : List (ℕ × Balance)) (k : ℕ) → HasKey bs k → HasKey ((i, x) ∷ bs) k
HasKey-cons i x bs k (b, found) = elim (Bool-cases (i == k)) [
  | inl e ↦ (x, find-here k i x bs e)
  | inr e ↦ (b, find-there k i x bs e ∙ found)
]

later_cases : (hour : ℕ) (o : Option ℕ) → (later hour o ≡ hour) ⊎ (o ≡ some (later hour o))
unfolding later
later_cases hour none = inl refl
later_cases hour (some k) = elim (Bool-cases (ltb hour k)) [
  | inl h ↦ inr (rw h refl)
  | inr h ↦ inl (rw h refl)
]

some_not_none : {A : Type 0} {x : A} → none ≢ some x
some_not_none p = cc

latest-HasKey :
    (p : ℕ → Bool) (bs : List (ℕ × Balance)) (k : ℕ) → latest p bs ≡ some k → HasKey bs k
unfolding latest
latest-HasKey p [] k found = absurd (some_not_none found)
latest-HasKey p ((hour, b) ∷ bs) k found = elim (Bool-cases (p hour)) [
  | inl h ↦
      let is_later : later hour (latest p bs) ≡ k = some-injective _ _ (sym (rw h refl) ∙ found) in
      elim (later_cases hour (latest p bs)) [
        | inl same ↦ (b, find-here k hour b bs (ground (arith, sym same ∙ is_later)))
        | inr older ↦
            HasKey-cons hour b bs k (latest-HasKey p bs k (older ∙ ap (λ x. some x) is_later))
      ]
  | inr h ↦ HasKey-cons hour b bs k (latest-HasKey p bs k (sym (rw h refl) ∙ found))
]

abbrev pub KeyOf : List (ℕ × Balance) → Option ℕ → Type 0
KeyOf bs none = Unit
KeyOf bs (some k) = HasKey bs k

-- A search that returns a key returns a stored one.
abbrev pub Finds : List (ℕ × Balance) → Result (Option ℕ) → Type 0
Finds bs search = (key : Option ℕ) × (search ≡ ok key) × KeyOf bs key

latest-or :
    (bs : List (ℕ × Balance)) (o : Option ℕ) (rest : Result (Option ℕ))
    → ((k : ℕ) → o ≡ some k → HasKey bs k)
    → Finds bs rest
    → Finds bs (elim o [ none ↦ rest | some hour ↦ ok (some hour) ])
latest-or bs none rest h r = r
latest-or bs (some k) rest h r = (some k, refl, h k refl)

module _ (f : Formats) (month_of_day : ℕ → ℕ) where
  find_in_months-Finds :
      (bs : List (ℕ × Balance)) (month n : ℕ)
      → n ≤ month
      → Finds bs (find_in_months f month_of_day bs month n)
  unfolding find_in_months
  find_in_months-Finds bs month zero h = (none, refl, tt)
  find_in_months-Finds bs zero (suc n) h = absurd (omega (arith, h))
  find_in_months-Finds bs (suc month) (suc n) h =
      latest-or bs _ _ (latest-HasKey _ bs) (find_in_months-Finds bs month n (omega (arith, h)))

  find_since_yesterday-Finds :
      (bs : List (ℕ × Balance)) (yesterday : ℕ)
      → 6 ≤ month_of_day yesterday
      → Finds bs (find_since_yesterday f month_of_day bs (suc yesterday))
  unfolding find_since_yesterday
  find_since_yesterday-Finds bs yesterday h =
      latest-or bs _ _ (latest-HasKey _ bs) (
        latest-or bs _ _ (latest-HasKey _ bs)
          (find_in_months-Finds bs (month_of_day yesterday) 6 h))

  -- Half a year or more after the first day, the search does not raise.
  pub find_since_today-Finds :
      (bs : List (ℕ × Balance)) (today yesterday : ℕ)
      → today ≡ suc yesterday
      → 6 ≤ month_of_day yesterday
      → Finds bs (find_since_today f month_of_day bs today)
  find_since_today-Finds bs today yesterday is_yesterday h =
      subst (λ d. Finds bs (find_since_today f month_of_day bs d)) (sym is_yesterday)
        (unfold find_since_today in
          latest-or bs _ _ (latest-HasKey _ bs) (find_since_yesterday-Finds bs yesterday h))
