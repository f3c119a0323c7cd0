-- ===== src/Base/Find.antt =====
-- Looking up a key of a list of pairs.
use mathlib.Core.Option.{some-injective}
use mathlib.Core.Path.{◌≡◌, subst, sym, ◌∙◌, refl}
use mathlib.Core.Logic.{inl, inr}
use mathlib.Core.Bool.{true, false}
use mathlib.Core.Option.{some}
use mathlib.Core.List.{List, [], ◌∷◌}
use Prim.Native.Nat.{ℕ}
use native.Mathlib.Omega.{arith}
use acquire.Base.Tests.{◌==◌, Bool-cases}
use acquire.Base.Lists.{All, find}

pub eqb_eq : (i k : ℕ) → (i == k) ≡ true → i ≡ k
eqb_eq i k h = ground (arith, h)

pub find-here :
    {A : Type 0} (k i : ℕ) (x : A) (xs : List (ℕ × A))
    → (i == k) ≡ true
    → find k ((i, x) ∷ xs) ≡ some x
find-here k i x xs h = rw h refl

pub find-there :
    {A : Type 0} (k i : ℕ) (x : A) (xs : List (ℕ × A))
    → (i == k) ≡ false
    → find k ((i, x) ∷ xs) ≡ find k xs
find-there k i x xs h = rw h refl

pub find-All :
    {A : Type 0} (P : ℕ → A → Type 0) (k : ℕ) (xs : List (ℕ × A)) {x : A}
    → All (λ kx. P kx.0 kx.1) xs
    → find k xs ≡ some x
    → P k x
find-All P k [] h found = cc
find-All P k ((i, y) ∷ xs) {x} h found = elim (Bool-cases (i == k)) [
  | inl e ↦
      let y_is_x : y ≡ x = some-injective y x (sym (find-here k i y xs e) ∙ found) in
      subst (λ z. P k z) y_is_x (subst (λ j. P j y) (omega (arith, eqb_eq i k e)) h.0)
  | inr e ↦ find-All P k xs h.1 (sym (find-there k i y xs e) ∙ found)
]

pub eqb_true : (i k : ℕ) → i ≡ k → (i == k) ≡ true
eqb_true i k h = ground (arith, h)
