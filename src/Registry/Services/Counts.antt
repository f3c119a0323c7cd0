-- ===== src/Registry/Services/Counts.antt =====
-- How long the lists of a domain are after a name is added, removed or moved.
use acquire.Base.{
  suc, ◌+◌, ◌<◌, ◌≤◌, ◌≡◌, refl, true, false, ◌||◌, List, [], ◌∷◌, length, arith, inl, inr,
  Bool-cases,
}
use acquire.Base.Texts.{Text, same}
use acquire.Registry.Services.{listed, add_name, remove_name, at_domain}

pub length-add_name :
    (name : Text) (names : List Text) → length (add_name name names) ≤ suc (length names)
unfolding add_name
length-add_name name names = ground arith

pub add_name_known :
    (name : Text) (names : List Text)
    → listed name names ≡ true
    → length (add_name name names) ≡ length names
unfolding add_name
add_name_known name names h = rw (h) refl

pub length-remove_name :
    (name : Text) (names : List Text) → length (remove_name name names) ≤ length names
unfolding remove_name
length-remove_name name [] = omega arith
length-remove_name name (n ∷ names) = ground (arith, length-remove_name name names)

pub remove_name_known :
    (name : Text) (names : List Text)
    → listed name names ≡ true
    → length (remove_name name names) < length names
unfolding remove_name listed
remove_name_known name [] h = cc
remove_name_known name (n ∷ names) h =
    ground (arith, length-remove_name name names, remove_name_known name names)

pub at_here :
    (d domain : Text) (change : List Text → List Text) (names : Text → List Text)
    → same d domain ≡ true
    → at_domain domain change names d ≡ change (names d)
unfolding at_domain
at_here d domain change names h = rw (h) refl

pub at_other :
    (d domain : Text) (change : List Text → List Text) (names : Text → List Text)
    → same d domain ≡ false
    → at_domain domain change names d ≡ names d
unfolding at_domain
at_other d domain change names h = rw (h) refl

-- The two lists of a domain, when a name moves from the first to the second.
pub moved_count :
    (name : Text) (from to : List Text)
    → (listed name from || listed name to) ≡ true
    → length (add_name name to) + length (remove_name name from) ≤ length to + length from
moved_count name from to h = elim (Bool-cases (listed name to)) [
  | inl there ↦ omega (arith, add_name_known name to there, length-remove_name name from)
  | inr absent ↦ omega (arith, length-add_name name to, remove_name_known name from (ground arith))
]
