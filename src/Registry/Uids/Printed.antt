-- ===== src/Registry/Uids/Printed.antt =====
-- A printed UID is pairs of a letter and a digit, with dots between, and determines its values.
use Prim.{absurd}
use acquire.Base.{
  ℕ, suc, ◌+◌, ◌-◌, ◌<◌, ◌%◌, ◌≡◌, refl, ap, ◌==◌, ltb, leb, ◌&&◌, ◌||◌, if◌then◌else◌, Bool, true,
  false, List, [], ◌∷◌, length, arith, inl, inr, Bool-cases,
}
use acquire.Base.Result.{ok, bind_returned, ok_injective}
use acquire.Base.Texts.{Text}
use acquire.Registry.Uids.{limit, to_char, to_chars, pairs, join, to_uid}
use acquire.Registry.Uids.Order.{IsDigits, IsVals}

pub is_letter : ℕ → Bool
is_letter c = (leb b'a' c && leb c b'z') || (leb b'A' c && leb c b'Z')

pub is_digit : ℕ → Bool
is_digit c = leb b'0' c && leb c b'9'

-- `[a-zA-Z][0-9]`, with further such pairs after dots, as the comment of `_generate_service_uid` has it.
pub is_printed : Text → Bool
unfolding is_letter is_digit
is_printed (c ∷ d ∷ []) = is_letter c && is_digit d
is_printed (c ∷ d ∷ e ∷ cs) = is_letter c && is_digit d && e == b'.' && is_printed cs
is_printed _ = false

read_char : ℕ → ℕ → ℕ
read_char i c = if i % 2 == 1 then c - b'0' else if ltb c b'a' then c - b'A' + 26 else c - b'a'

read_chars : ℕ → Text → List ℕ
read_chars i [] = []
read_chars i (c ∷ cs) = read_char i c ∷ read_chars (suc i) cs

undotted : Text → Text
undotted (c ∷ d ∷ _ ∷ cs) = c ∷ d ∷ undotted cs
undotted cs = cs

-- The values that a UID was printed from.
pub read_uid : Text → List ℕ
read_uid uid = read_chars 0 (undotted uid)

read_char-to_char : (i x : ℕ) {c : ℕ} → to_char i x ≡ ok c → read_char i c ≡ x
unfolding to_char read_char
read_char-to_char i x h = ground arith

read_chars-to_chars : (i : ℕ) (xs : List ℕ) {s : Text} → to_chars i xs ≡ ok s → read_chars i s ≡ xs
unfolding to_chars read_chars
read_chars-to_chars i [] {s} h = rw (← ok_injective h) refl
read_chars-to_chars i (x ∷ xs) {s} h =
    let (c, hc, k) = bind_returned (to_char i x) _ h in
    let (cs, hcs, e) = bind_returned (to_chars (suc i) xs) _ k in
    rw (← ok_injective e) (cc (read_char-to_char i x hc, read_chars-to_chars (suc i) xs hcs))

undotted-join : (s : Text) → undotted (join (pairs s)) ≡ s
unfolding undotted join pairs
undotted-join [] = refl
undotted-join (c ∷ []) = refl
undotted-join (c ∷ d ∷ []) = refl
undotted-join (c ∷ d ∷ e ∷ []) = refl
undotted-join (c ∷ d ∷ e ∷ f ∷ s) = ap (λ (t : Text). c ∷ d ∷ t) (undotted-join (e ∷ f ∷ s))

-- Reading a printed UID gives its values back.
pub read_uid-to_uid : (vals : List ℕ) {uid : Text} → to_uid vals ≡ ok uid → read_uid uid ≡ vals
unfolding read_uid to_uid
read_uid-to_uid vals h =
    let (s, hs, e) = bind_returned (to_chars 0 vals) _ h in
    rw (← ok_injective e, undotted-join s) (read_chars-to_chars 0 vals hs)

IsChars : ℕ → Text → Type 0
IsChars i [] = Unit
IsChars i (c ∷ cs) = ((if i % 2 == 1 then is_digit c else is_letter c) ≡ true) × IsChars (suc i) cs

to_char_lem :
    (i x : ℕ)
    → x < limit i
    → (c : ℕ) × (to_char i x ≡ ok c) × ((if i % 2 == 1 then is_digit c else is_letter c) ≡ true)
unfolding to_char limit is_digit is_letter
to_char_lem i x h = elim (Bool-cases (i % 2 == 1)) [
  | inl odd ↦ (b'0' + x, ground arith, ground arith)
  | inr even ↦ elim (Bool-cases (ltb x 26)) [
    | inl low ↦ (b'a' + x, ground arith, ground arith)
    | inr high ↦ (b'A' + (x - 26), ground arith, ground arith)
  ]
]

-- In range, printing raises nothing.
to_chars_lem :
    (i : ℕ) (xs : List ℕ)
    → IsDigits i xs
    → (s : Text) × (to_chars i xs ≡ ok s) × IsChars i s × (length s ≡ length xs)
unfolding to_chars IsChars
to_chars_lem i [] h = ([], refl, tt, refl)
to_chars_lem i (x ∷ xs) (h, hs) =
    let (c, e, k) = to_char_lem i x h in
    let (cs, es, ks, l) = to_chars_lem (suc i) xs hs in
    (c ∷ cs, rw (e, es) refl, (k, ks), omega (arith, l))

letter_at : (i c : ℕ) (s : Text) → i % 2 ≡ 0 → IsChars i (c ∷ s) → is_letter c ≡ true
unfolding IsChars
letter_at i c s even (h, _) = ground arith

digit_at : (i c d : ℕ) (s : Text) → i % 2 ≡ 0 → IsChars i (c ∷ d ∷ s) → is_digit d ≡ true
unfolding IsChars
digit_at i c d s even (_, (h, _)) = ground arith

after_pair : (i c d : ℕ) (s : Text) → IsChars i (c ∷ d ∷ s) → IsChars (suc (suc i)) s
unfolding IsChars
after_pair i c d s (_, (_, h)) = h

printed_lem :
    (i : ℕ) (s : Text)
    → i % 2 ≡ 0
    → IsChars i s
    → length s % 2 ≡ 0
    → 0 < length s
    → is_printed (join (pairs s)) ≡ true
unfolding is_printed join pairs
printed_lem i [] even h l p = absurd (omega arith)
printed_lem i (c ∷ []) even h l p = absurd (omega arith)
printed_lem i (c ∷ d ∷ []) even h l p = rw (letter_at i c _ even h, digit_at i c d _ even h) refl
printed_lem i (c ∷ d ∷ e ∷ []) even h l p = absurd (omega arith)
printed_lem i (c ∷ d ∷ e ∷ f ∷ s) even h l p =
    let rest : is_printed (join (pairs (e ∷ f ∷ s))) ≡ true =
      printed_lem (suc (suc i)) (e ∷ f ∷ s) (omega arith) (after_pair i c d _ h) (omega arith)
        (omega arith) in
    rw (letter_at i c _ even h, digit_at i c d _ even h) rest

pub to_uid_lem :
    (vals : List ℕ) → IsVals vals → (uid : Text) × (to_uid vals ≡ ok uid) × (is_printed uid ≡ true)
unfolding to_uid
to_uid_lem vals v =
    let (s, e, h, l) = to_chars_lem 0 vals v.in_range in
    (
      join (pairs s),
      rw (e) refl,
      printed_lem 0 s refl h (omega (arith, l, v.in_pairs)) (omega (arith, l, v.some_pair)),
    )
