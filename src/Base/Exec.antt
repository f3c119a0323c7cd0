-- ===== src/Base/Exec.antt =====
-- Code that changes a state and may raise. What was done before an exception stays done.
pub mod Runs
use Prim.{absurd}
use mathlib.Core.Path.{◌≡◌, refl, subst}
use acquire.Base.Result.{Error, Result, ok, err}

abbrev pub Exec : Type 0 → Type 0 → Type 0
Exec S A = S → Result A × S

module _ {S : Type 0} where
  abbrev pub return_ : {A : Type 0} → A → Exec S A
  return_ a s = (ok a, s)

  abbrev pub raise : {A : Type 0} → Error → Exec S A
  raise why s = (err why, s)

  abbrev pub lift : {A : Type 0} → Result A → Exec S A
  lift r s = (r, s)

  abbrev pub get_state : Exec S S
  get_state s = (ok s, s)

  abbrev pub and_then : {A B : Type 0} → Result A × S → (A → Exec S B) → Result B × S
  and_then (ok a, s) next = next a s
  and_then (err why, s) next = (err why, s)

  infixl 5 ◌>>=◌ ◌>>◌
  abbrev pub ◌>>=◌ : {A B : Type 0} → Exec S A → (A → Exec S B) → Exec S B
  ◌>>=◌ call next s = and_then (call s) next

  abbrev pub ◌>>◌ : {A B : Type 0} → Exec S A → Exec S B → Exec S B
  call >> next = call >>= λ _. next

  -- `try: call except: handler`, where the handler goes on with the exception.
  abbrev pub handle : {A : Type 0} → Result A × S → (Error → Exec S A) → Result A × S
  handle (ok a, s) handler = (ok a, s)
  handle (err why, s) handler = handler why s

  abbrev pub try : {A : Type 0} → Exec S A → (Error → Exec S A) → Exec S A
  try call handler s = handle (call s) handler

  -- The state in which a call that returned `a` left off.
  abbrev pub Returned : {A : Type 0} → Result A × S → A → S → Type 0
  Returned outcome a s = outcome ≡ (ok a, s)

  -- The outcome, if it is one that was returned, satisfies a postcondition.
  abbrev pub Yields : {A : Type 0} → Result A × S → (A → S → Type 0) → Type 0
  Yields (ok a, s) q = q a s
  Yields (err why, s) q = Unit {0}

  -- A postcondition holds of whatever is returned.
  pub Yields-returned :
      {A : Type 0} (outcome : Result A × S) (q : A → S → Type 0) {a : A} {s : S}
      → Returned outcome a s
      → Yields outcome q
      → q a s
  Yields-returned outcome q h y = subst (λ o. Yields o q) h y

  and_then-Yields :
      {A B : Type 0} (outcome : Result A × S) (next : A → Exec S B) (p : A → S → Type 0)
      (q : B → S → Type 0)
      → Yields outcome p
      → ((a : A) (t : S) → p a t → Yields (next a t) q)
      → Yields (and_then outcome next) q
  and_then-Yields (ok a, t) next p q y k = k a t y
  and_then-Yields (err why, t) next p q y k = tt

  -- The rule of sequences: what the first call ensures, the second starts from.
  pub seq-Yields :
      {A B : Type 0} (call : Exec S A) (next : A → Exec S B) (s : S) (p : A → S → Type 0)
      (q : B → S → Type 0)
      → Yields (call s) p
      → ((a : A) (t : S) → p a t → Yields (next a t) q)
      → Yields ((call >>= next) s) q
  seq-Yields call next s p q y k = and_then-Yields (call s) next p q y k

  -- The same for a result that leaves the state alone.
  pub lift-Yields :
      {A B : Type 0} (r : Result A) (next : A → Exec S B) (s : S) (q : B → S → Type 0)
      → ((a : A) → r ≡ ok a → Yields (next a s) q)
      → Yields ((lift r >>= next) s) q
  lift-Yields (ok a) next s q k = k a refl
  lift-Yields (err why) next s q k = tt

  handle-Yields :
      {A : Type 0} (outcome : Result A × S) (handler : Error → Exec S A) (q : A → S → Type 0)
      → Yields outcome q
      → ((why : Error) (t : S) → Yields (handler why t) q)
      → Yields (handle outcome handler) q
  handle-Yields (ok a, t) handler q y k = y
  handle-Yields (err why, t) handler q y k = k why t

  pub try-Yields :
      {A : Type 0} (call : Exec S A) (handler : Error → Exec S A) (s : S) (q : A → S → Type 0)
      → Yields (call s) q
      → ((why : Error) (t : S) → Yields (handler why t) q)
      → Yields (try call handler s) q
  try-Yields call handler s q y k = handle-Yields (call s) handler q y k

  pub weaken-Yields :
      {A : Type 0} (outcome : Result A × S) {p q : A → S → Type 0}
      → Yields outcome p
      → ((a : A) (t : S) → p a t → q a t)
      → Yields outcome q
  weaken-Yields (ok a, t) y k = k a t y
  weaken-Yields (err why, t) y k = tt

  and_then-raises :
      {A B : Type 0} (outcome : Result A × S) (next : A → Exec S B) (q : B → S → Type 0)
      → ((a : A) (t : S) → Yields (next a t) q)
      → Yields (and_then outcome next) q
  and_then-raises (ok a, t) next q k = k a t
  and_then-raises (err why, t) next q k = tt

  -- Whatever the first call does, the postcondition is the second's.
  pub then-Yields :
      {A B : Type 0} (call : Exec S A) (next : A → Exec S B) (s : S) (q : B → S → Type 0)
      → ((a : A) (t : S) → Yields (next a t) q)
      → Yields ((call >>= next) s) q
  then-Yields call next s q k = and_then-raises (call s) next q k

  -- What holds of the state in any case holds of it after a return.
  pub final-Yields :
      {A : Type 0} (outcome : Result A × S) (q : S → Type 0)
      → q outcome.1
      → Yields outcome (λ _ s. q s)
  final-Yields (ok a, t) q h = h
  final-Yields (err why, t) q h = tt

  pub both-Yields :
      {A : Type 0} (outcome : Result A × S) (p q : A → S → Type 0)
      → Yields outcome p
      → Yields outcome q
      → Yields outcome (λ a s. p a s × q a s)
  both-Yields (ok a, t) p q h k = (h, k)
  both-Yields (err why, t) p q h k = tt

  -- The outcome was returned, and satisfies a postcondition.
  abbrev pub Ensures : {A : Type 0} → Result A × S → (A → S → Type 0) → Type 0
  Ensures (ok a, s) q = q a s
  Ensures (err why, s) q = ⊥

  and_then-Ensures :
      {A B : Type 0} (outcome : Result A × S) (next : A → Exec S B) (p : A → S → Type 0)
      (q : B → S → Type 0)
      → Ensures outcome p
      → ((a : A) (t : S) → p a t → Ensures (next a t) q)
      → Ensures (and_then outcome next) q
  and_then-Ensures (ok a, t) next p q y k = k a t y
  and_then-Ensures (err why, t) next p q y k = absurd y

  pub seq-Ensures :
      {A B : Type 0} (call : Exec S A) (next : A → Exec S B) (s : S) (p : A → S → Type 0)
      (q : B → S → Type 0)
      → Ensures (call s) p
      → ((a : A) (t : S) → p a t → Ensures (next a t) q)
      → Ensures ((call >>= next) s) q
  seq-Ensures call next s p q y k = and_then-Ensures (call s) next p q y k

  handle-Ensures :
      {A : Type 0} (outcome : Result A × S) (handler : Error → Exec S A) (q : A → S → Type 0)
      → Ensures outcome q
      → Ensures (handle outcome handler) q
  handle-Ensures (ok a, t) handler q y = y
  handle-Ensures (err why, t) handler q y = absurd y

  pub try-Ensures :
      {A : Type 0} (call : Exec S A) (handler : Error → Exec S A) (s : S) (q : A → S → Type 0)
      → Ensures (call s) q
      → Ensures (try call handler s) q
  try-Ensures call handler s q y = handle-Ensures (call s) handler q y

  pub Ensures-returned :
      {A : Type 0} (outcome : Result A × S) (q : A → S → Type 0)
      → Ensures outcome q
      → (a : A) × (s : S) × (outcome ≡ (ok a, s)) × q a s
  Ensures-returned (ok a, t) q y = (a, t, refl, y)
  Ensures-returned (err why, t) q y = absurd y

  -- The outcome was an exception, and satisfies a postcondition.
  abbrev pub Fails : {A : Type 0} → Result A × S → (Error → S → Type 0) → Type 0
  Fails (ok a, s) q = ⊥
  Fails (err why, s) q = q why s

  and_then-Fails :
      {A B : Type 0} (outcome : Result A × S) (next : A → Exec S B) (p : A → S → Type 0)
      (q : Error → S → Type 0)
      → Ensures outcome p
      → ((a : A) (t : S) → p a t → Fails (next a t) q)
      → Fails (and_then outcome next) q
  and_then-Fails (ok a, t) next p q y k = k a t y
  and_then-Fails (err why, t) next p q y k = absurd y

  -- The first call returns and the second raises.
  pub seq-Fails :
      {A B : Type 0} (call : Exec S A) (next : A → Exec S B) (s : S) (p : A → S → Type 0)
      (q : Error → S → Type 0)
      → Ensures (call s) p
      → ((a : A) (t : S) → p a t → Fails (next a t) q)
      → Fails ((call >>= next) s) q
  seq-Fails call next s p q y k = and_then-Fails (call s) next p q y k

  first_fails :
      {A B : Type 0} (outcome : Result A × S) (next : A → Exec S B) (q : Error → S → Type 0)
      → Fails outcome q
      → Fails (and_then outcome next) q
  first_fails (ok a, t) next q y = absurd y
  first_fails (err why, t) next q y = y

  pub first-Fails :
      {A B : Type 0} (call : Exec S A) (next : A → Exec S B) (s : S) (q : Error → S → Type 0)
      → Fails (call s) q
      → Fails ((call >>= next) s) q
  first-Fails call next s q y = first_fails (call s) next q y

  pub weaken-Fails :
      {A : Type 0} (outcome : Result A × S) (p q : Error → S → Type 0)
      → Fails outcome p
      → ((why : Error) (t : S) → p why t → q why t)
      → Fails outcome q
  weaken-Fails (ok a, t) p q y k = absurd y
  weaken-Fails (err why, t) p q y k = k why t y

  pub Fails-raised :
      {A : Type 0} (outcome : Result A × S) (q : Error → S → Type 0)
      → Fails outcome q
      → (why : Error) × (s : S) × (outcome ≡ (err why, s)) × q why s
  Fails-raised (ok a, t) q y = absurd y
  Fails-raised (err why, t) q y = (why, t, refl, y)

  pub Ensures-Yields :
      {A : Type 0} (outcome : Result A × S) (p q : A → S → Type 0)
      → Ensures outcome p
      → Yields outcome q
      → Ensures outcome (λ a s. p a s × q a s)
  Ensures-Yields (ok a, t) p q h k = (h, k)
  Ensures-Yields (err why, t) p q h k = absurd h
