-- ===== src/Identity/AclRule/Algebra.antt =====
-- Acquire/Identity/_aclrule.py: the algebra of `+`, `-` and `*` on rules.
use acquire.Base.{◌≡◌, refl, ◌↔◌, ◌⊎◌, Bool, true, false, none, some, arith}
use acquire.Identity.AclRule.{
  Permission, perm_max, perm_sub, perm_min, AclRule, zip_with, add, multiply, inherit,
  is_fully_resolved, force_resolve,
}

-- `permits p`: `p` grants. A permission that is inherited does not, by itself.
abbrev pub permits : Permission → Bool
permits (some true) = true
permits _ = false

pub perm_max_assoc : (a b c : Permission) → perm_max (perm_max a b) c ≡ perm_max a (perm_max b c)
unfolding perm_max
perm_max_assoc none b c = refl
perm_max_assoc (some true) b c = ground arith
perm_max_assoc (some false) b c = ground arith

pub perm_min_assoc : (a b c : Permission) → perm_min (perm_min a b) c ≡ perm_min a (perm_min b c)
unfolding perm_min
perm_min_assoc none b c = refl
perm_min_assoc (some true) b c = ground arith
perm_min_assoc (some false) b c = ground arith

perm_max_laws :
    (a b : Permission) → (perm_max a b ≡ perm_max b a) × (perm_max a a ≡ a) × (perm_max a none ≡ a)
unfolding perm_max
perm_max_laws a b = ground arith

perm_min_laws :
    (a b : Permission) → (perm_min a b ≡ perm_min b a) × (perm_min a a ≡ a) × (perm_min a none ≡ a)
unfolding perm_min
perm_min_laws a b = ground arith

-- Rules are equal when their four permissions are.
pub rule_eq :
    (a b : AclRule)
    → a.is_owner ≡ b.is_owner
    → a.is_readable ≡ b.is_readable
    → a.is_writeable ≡ b.is_writeable
    → a.is_executable ≡ b.is_executable
    → a ≡ b
rule_eq a b o r w x =
    λ i. record { is_owner = o i; is_readable = r i; is_writeable = w i; is_executable = x i }

-- The laws of an operation on permissions are laws of the operation on rules.
module _ (f : Permission → Permission → Permission) where
  zip_with_assoc :
      ((p q r : Permission) → f (f p q) r ≡ f p (f q r))
      → (a b c : AclRule) → zip_with f (zip_with f a b) c ≡ zip_with f a (zip_with f b c)
  zip_with_assoc law a b c =
      rule_eq _ _ (law a.is_owner b.is_owner c.is_owner)
        (law a.is_readable b.is_readable c.is_readable)
        (law a.is_writeable b.is_writeable c.is_writeable)
        (law a.is_executable b.is_executable c.is_executable)

  zip_with_laws :
      ((p q : Permission) → (f p q ≡ f q p) × (f p p ≡ p) × (f p none ≡ p))
      → (a b : AclRule)
      → (zip_with f a b ≡ zip_with f b a) × (zip_with f a a ≡ a) × (zip_with f a inherit ≡ a)
  zip_with_laws law a b =
      let o = law a.is_owner b.is_owner in
      let r = law a.is_readable b.is_readable in
      let w = law a.is_writeable b.is_writeable in
      let x = law a.is_executable b.is_executable in
      (rule_eq _ _ o.0 r.0 w.0 x.0, rule_eq _ _ o.1 r.1 w.1 x.1, rule_eq _ _ o.2 r.2 w.2 x.2)

-- `+` and `*` on rules are each associative, commutative and idempotent, with `inherit` as the
-- unit of both: how often and in which order rules are combined by one of them does not matter.
pub combine_semilattice :
    (a b c : AclRule)
    → ((add (add a b) c ≡ add a (add b c))
        × (add a b ≡ add b a)
        × (add a a ≡ a)
        × (add a inherit ≡ a))
      × ((multiply (multiply a b) c ≡ multiply a (multiply b c))
          × (multiply a b ≡ multiply b a)
          × (multiply a a ≡ a)
          × (multiply a inherit ≡ a))
unfolding add multiply
combine_semilattice a b c =
    let sum = zip_with_laws perm_max perm_max_laws a b in
    let product = zip_with_laws perm_min perm_min_laws a b in
    (
      (zip_with_assoc perm_max perm_max_assoc a b c, sum.0, sum.1, sum.2),
      (zip_with_assoc perm_min perm_min_assoc a b c, product.0, product.1, product.2),
    )

-- On permissions, `+` grants what either side grants; `*` refuses what either side refuses, and
-- `-` refuses what the right side grants and otherwise keeps the left.
pub combine_permits :
    (a b : Permission)
    → ((permits (perm_max a b) ≡ true) ↔ ((permits a ≡ true) ⊎ (permits b ≡ true)))
      × ((perm_min a b ≡ some false) ↔ ((a ≡ some false) ⊎ (b ≡ some false)))
      × (permits b ≡ true → perm_sub a b ≡ some false)
      × (permits b ≡ false → perm_sub a b ≡ a)
unfolding perm_max perm_min perm_sub
combine_permits a b = (
  (λ h. ground arith, λ h. ground arith),
  (λ h. ground arith, λ h. ground arith),
  ground arith,
  ground arith,
)

-- A combination of fully resolved rules is fully resolved.
pub is_fully_resolved-add :
    (a b : AclRule)
    → is_fully_resolved a ≡ true
    → is_fully_resolved b ≡ true
    → is_fully_resolved (add a b) ≡ true
unfolding is_fully_resolved add
is_fully_resolved-add a b h k = ground arith

pub is_fully_resolved-force_resolve :
    (u : Bool) (a : AclRule) → is_fully_resolved (force_resolve u a) ≡ true
unfolding is_fully_resolved force_resolve
is_fully_resolved-force_resolve u a = ground arith

pub force_resolve-resolved :
    (u : Bool) (a : AclRule) → is_fully_resolved a ≡ true → force_resolve u a ≡ a
unfolding is_fully_resolved force_resolve
force_resolve-resolved u a h = ground arith
