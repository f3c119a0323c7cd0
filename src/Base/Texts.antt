-- ===== src/Base/Texts.antt =====
-- Texts as the lists of their code points, and Python's operations on them.
use Prim.Native.Char.{code}
use Prim.Native.String.{String}
use acquire.Base.Tests.{◌==◌, if◌then◌else◌}
use Prim.Native.Nat.{ℕ}
use mathlib.Core.Path.{◌≡◌, refl, subst}
use mathlib.Core.Logic.{◌≢◌}
use mathlib.Core.Bool.{Bool, true, false, ◌&&◌}
use mathlib.Core.List.{List, [], ◌∷◌}
use native.Mathlib.Omega.{arith}

abbrev pub Text : Type 0
Text = List ℕ

abbrev pub codes : String → Text
codes String.[] = []
codes (String.◌∷◌ c s) = code c ∷ codes s

unfoldable pub same : Text → Text → Bool
same [] [] = true
same (c ∷ cs) (d ∷ ds) = c == d && same cs ds
same _ _ = false

pub same-true : (xs ys : Text) → same xs ys ≡ true → xs ≡ ys
unfolding same
same-true [] [] h = refl
same-true [] (_ ∷ _) h = cc
same-true (_ ∷ _) [] h = cc
same-true (c ∷ cs) (d ∷ ds) h = ground (arith, same-true cs ds)

pub same_refl : (cs : Text) → same cs cs ≡ true
unfolding same
same_refl [] = refl
same_refl (c ∷ cs) = ground (arith, same_refl cs)

pub same-false : (xs ys : Text) → same xs ys ≡ false → xs ≢ ys
same-false xs ys h e = cc (subst (λ zs. same xs zs ≡ true) e (same_refl xs))

-- `text.startswith(prefix)`
unfoldable pub starts_with : Text → Text → Bool
starts_with [] text = true
starts_with (c ∷ cs) [] = false
starts_with (c ∷ cs) (d ∷ ds) = c == d && starts_with cs ds

-- `text.split(separator)[0]`
unfoldable pub before : ℕ → Text → Text
before separator [] = []
before separator (c ∷ cs) = if c == separator then [] else c ∷ before separator cs
