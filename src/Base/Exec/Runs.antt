-- ===== src/Base/Exec/Runs.antt =====
-- What a call does to the state, whether it returns or raises: a reflexive and transitive relation
-- between the states before and after it.
use mathlib.Core.Path.{◌≡◌, refl}
use mathlib.Core.Bool.{Bool, true, false}
use acquire.Base.Tests.{if◌then◌else◌}
use acquire.Base.Result.{Error, Result, ok, err}
use acquire.Base.Exec.{Exec, and_then, handle, try, Yields, ◌>>=◌, lift}

module _ {S : Type 0} (R : S → S → Type 0) (R-refl : (s : S) → R s s)
    (R-trans : (s t u : S) → R s t → R t u → R s u) where
  and_then-runs :
      {A B : Type 0} (s : S) (outcome : Result A × S) (next : A → Exec S B) (p : A → S → Type 0)
      → Yields outcome p
      → R s outcome.1
      → ((a : A) (t : S) → p a t → R t (next a t).1)
      → R s (and_then outcome next).1
  and_then-runs s (ok a, t) next p y h k = R-trans s t _ h (k a t y)
  and_then-runs s (err why, t) next p y h k = h

  -- The rule of sequences, where the second call may rely on what the first returned.
  pub seq-runs :
      {A B : Type 0} (call : Exec S A) (next : A → Exec S B) (s : S) (p : A → S → Type 0)
      → Yields (call s) p
      → R s (call s).1
      → ((a : A) (t : S) → p a t → R t (next a t).1)
      → R s ((call >>= next) s).1
  seq-runs call next s p y h k = and_then-runs s (call s) next p y h k

  any : {A : Type 0} (outcome : Result A × S) → Yields outcome (λ _ _. Unit {0})
  any (ok a, t) = tt
  any (err why, t) = tt

  pub then-runs :
      {A B : Type 0} (call : Exec S A) (next : A → Exec S B) (s : S)
      → R s (call s).1
      → ((a : A) (t : S) → R t (next a t).1)
      → R s ((call >>= next) s).1
  then-runs call next s h k =
      and_then-runs s (call s) next (λ _ _. Unit {0}) (any (call s)) h λ a t _. k a t

  pub lift-runs :
      {A B : Type 0} (r : Result A) (next : A → Exec S B) (s : S)
      → ((a : A) → r ≡ ok a → R s (next a s).1)
      → R s ((lift r >>= next) s).1
  lift-runs (ok a) next s k = k a refl
  lift-runs (err why) next s k = R-refl s

  pub either-runs :
      {A : Type 0} (test : Bool) (yes_call no_call : Exec S A) (s : S)
      → R s (yes_call s).1
      → R s (no_call s).1
      → R s ((if test then yes_call else no_call) s).1
  either-runs true yes_call no_call s h k = h
  either-runs false yes_call no_call s h k = k

  handle-runs :
      {A : Type 0} (s : S) (outcome : Result A × S) (handler : Error → Exec S A)
      → R s outcome.1
      → ((why : Error) (t : S) → R t (handler why t).1)
      → R s (handle outcome handler).1
  handle-runs s (ok a, t) handler h k = h
  handle-runs s (err why, t) handler h k = R-trans s t _ h (k why t)

  pub try-runs :
      {A : Type 0} (call : Exec S A) (handler : Error → Exec S A) (s : S)
      → R s (call s).1
      → ((why : Error) (t : S) → R t (handler why t).1)
      → R s (try call handler s).1
  try-runs call handler s h k = handle-runs s (call s) handler h k
