-- ===== src/Registry/Uids/Order.antt =====
-- `_inc_uid` keeps the values in range, and goes up: to a longer list or in the order of a dictionary.
use Prim.{absurd}
use acquire.Base.{
  ℕ, zero, suc, ◌+◌, ◌<◌, ◌%◌, ◌≡◌, refl, ◌⊎◌, inl, inr, ◌∙◌, sym, ltb, Bool, true, false, List, [],
  ◌∷◌, length, Option, none, some, arith, Bool-cases,
}
use acquire.Registry.Uids.{limit, inc_at, inc_from, zeros, finish_inc, inc_uid, next_vals}

abbrev pub IsDigits : ℕ → List ℕ → Type 0
IsDigits i [] = Unit
IsDigits i (x ∷ xs) = (x < limit i) × IsDigits (suc i) xs

-- Pairs of a letter and a digit, at least one.
pub record IsVals (vals : List ℕ) : Type 0 where
  pub some_pair : 0 < length vals
  pub in_pairs : length vals % 2 ≡ 0
  pub in_range : IsDigits 0 vals

abbrev Lower : List ℕ → List ℕ → Type 0
Lower [] ys = ⊥
Lower (x ∷ xs) [] = ⊥
Lower (x ∷ xs) (y ∷ ys) = (x < y) ⊎ ((x ≡ y) × Lower xs ys)

abbrev pub Before : List ℕ → List ℕ → Type 0
Before xs ys = (length xs < length ys) ⊎ ((length xs ≡ length ys) × Lower xs ys)

Lower-trans : (xs ys zs : List ℕ) → Lower xs ys → Lower ys zs → Lower xs zs
Lower-trans [] ys zs h k = absurd h
Lower-trans (x ∷ xs) [] zs h k = absurd h
Lower-trans (x ∷ xs) (y ∷ ys) [] h k = absurd k
Lower-trans (x ∷ xs) (y ∷ ys) (z ∷ zs) (inl h) (inl k) = inl (omega arith)
Lower-trans (x ∷ xs) (y ∷ ys) (z ∷ zs) (inl h) (inr (k, _)) = inl (omega arith)
Lower-trans (x ∷ xs) (y ∷ ys) (z ∷ zs) (inr (h, _)) (inl k) = inl (omega arith)
Lower-trans (x ∷ xs) (y ∷ ys) (z ∷ zs) (inr (h, hs)) (inr (k, ks)) =
    inr (h ∙ k, Lower-trans xs ys zs hs ks)

Lower-irrefl : (xs : List ℕ) → Lower xs xs → ⊥
Lower-irrefl [] h = h
Lower-irrefl (x ∷ xs) (inl h) = absurd (omega arith)
Lower-irrefl (x ∷ xs) (inr (_, h)) = Lower-irrefl xs h

pub Before-trans : (xs ys zs : List ℕ) → Before xs ys → Before ys zs → Before xs zs
Before-trans xs ys zs (inl h) (inl k) = inl (omega arith)
Before-trans xs ys zs (inl h) (inr (k, _)) = inl (omega arith)
Before-trans xs ys zs (inr (h, _)) (inl k) = inl (omega arith)
Before-trans xs ys zs (inr (h, hs)) (inr (k, ks)) = inr (h ∙ k, Lower-trans xs ys zs hs ks)

pub Before-irrefl : (xs : List ℕ) → Before xs xs → ⊥
Before-irrefl xs (inl h) = absurd (omega arith)
Before-irrefl xs (inr (_, h)) = Lower-irrefl xs h

-- What the loop has made of the values from the i-th on.
record Went (i : ℕ) (xs : List ℕ) (r : List ℕ × Bool) : Type 0 where
  same_length : length r.0 ≡ length xs
  digits : IsDigits i r.0
  higher : r.1 ≡ true → Lower xs r.0

limit_pos : (i : ℕ) → 0 < limit i
unfolding limit
limit_pos i = ground arith

inc_at-Went :
    (i x : ℕ) (xs : List ℕ) (r : List ℕ × Bool)
    → x < limit i
    → Went (suc i) xs r
    → Went i (x ∷ xs) (inc_at i x r)
unfolding inc_at
inc_at-Went i x xs (ys, true) h w = record {
  same_length = omega (arith, w.same_length);
  digits = (h, w.digits);
  higher = λ _. inr (refl, w.higher refl);
}
inc_at-Went i x xs (ys, false) h w = elim (Bool-cases (ltb (x + 1) (limit i))) [
  | inl e ↦ rw (e) (record {
    same_length = omega (arith, w.same_length);
    digits = (ground arith, w.digits);
    higher = λ _. inl (omega arith);
  })
  | inr e ↦ rw (e) (record {
    same_length = omega (arith, w.same_length);
    digits = (limit_pos i, w.digits);
    higher = λ r. cc;
  })
]

inc_from-Went : (i : ℕ) (xs : List ℕ) → IsDigits i xs → Went i xs (inc_from i xs)
unfolding inc_from
inc_from-Went i [] h = record { same_length = refl; digits = tt; higher = λ r. cc }
inc_from-Went i (x ∷ xs) (h, hs) =
    inc_at-Went i x xs (inc_from (suc i) xs) h (inc_from-Went (suc i) xs hs)

length-zeros : (n : ℕ) → length (zeros n) ≡ n
unfolding zeros
length-zeros zero = refl
length-zeros (suc n) = omega (arith, length-zeros n)

zeros-IsDigits : (n i : ℕ) → IsDigits i (zeros n)
unfolding zeros
zeros-IsDigits zero i = tt
zeros-IsDigits (suc n) i = (limit_pos i, zeros-IsDigits n (suc i))

finish_inc_lem :
    (vals : List ℕ) (r : List ℕ × Bool)
    → IsVals vals
    → Went 0 vals r
    → IsVals (finish_inc (length vals) r) × Before vals (finish_inc (length vals) r)
unfolding finish_inc
finish_inc_lem vals (ys, true) v w = (
  record {
    some_pair = omega (arith, w.same_length, v.some_pair);
    in_pairs = omega (arith, w.same_length, v.in_pairs);
    in_range = w.digits;
  },
  inr (sym w.same_length, w.higher refl),
)
finish_inc_lem vals (ys, false) v w =
    let l : length (zeros (length vals + 2)) ≡ length vals + 2 = length-zeros _ in
    (
      record {
        some_pair = omega (arith, l);
        in_pairs = omega (arith, l, v.in_pairs);
        in_range = zeros-IsDigits _ 0;
      },
      inl (omega (arith, l)),
    )

pub inc_uid_lem : (vals : List ℕ) → IsVals vals → IsVals (inc_uid vals) × Before vals (inc_uid vals)
unfolding inc_uid
inc_uid_lem vals v = finish_inc_lem vals (inc_from 0 vals) v (inc_from-Went 0 vals v.in_range)

-- What may be stored, and what is printed next.
abbrev pub IsStored : Option (List ℕ) → Type 0
IsStored none = Unit
IsStored (some vals) = IsVals vals

abbrev pub After : Option (List ℕ) → List ℕ → Type 0
After none ys = Unit
After (some xs) ys = Before xs ys

pub next_vals_lem :
    (stored : Option (List ℕ))
    → IsStored stored
    → IsVals (next_vals stored) × After stored (next_vals stored)
unfolding next_vals limit
next_vals_lem none s = (
  record { some_pair = omega arith; in_pairs = refl; in_range = (omega arith, (omega arith, tt)) },
  tt,
)
next_vals_lem (some vals) s = inc_uid_lem vals s
