-- ===== src/Accounting/TransactionInfo/Parse.antt =====
-- Acquire/Accounting/_transactioninfo.py: what one round of `from_key` reads, and its loop.
use Prim.{absurd}
use mathlib.Core.Option.{some-injective}
use acquire.Base.{
  ℕ, zero, suc, ◌+◌, ◌<◌, ◌≡◌, ◌≢◌, refl, sym, ap, ◌∙◌, Bool, true, false, Option, none, some, List,
  [], ◌∷◌, ◌++◌, arith, All, length, get_elem?,
}
use acquire.Base.Int.{ℤ, neg}
use acquire.Base.Result.{ok, err, value_error}
use acquire.Accounting.Formats.{Formats, IsFormats, IsSmall, create_decimal, create_from_text}
use acquire.Accounting.TransactionInfo.{
  TransactionCode, TransactionInfo, code_letters, get_code, encode, split_T, is_receipt_code,
  two_values, one_value, parse_values, parse_part, parse_at, parse_parts, wrap, scan,
}

abbrev pub has_two_values : Option TransactionCode → Bool
has_two_values none = false
has_two_values (some code) = is_receipt_code code

-- The values are small, and only a receipt has a second one.
abbrev pub IsEncodable : TransactionInfo → Type 0
IsEncodable t = IsSmall t.value × (elim t.receipted_value [
  | none ↦ Unit {0}
  | some r ↦ (has_two_values t.code ≡ true) × IsSmall r
])

-- The letters of a code are read as that code.
pub get_code-code_letters :
    (code : TransactionCode) → get_code (code_letters code).0 (code_letters code).1 ≡ some code
unfolding get_code code_letters
get_code-code_letters code = ground arith

abbrev prefix_first : ℕ → List ℕ × Option (List ℕ) → List ℕ × Option (List ℕ)
prefix_first c (first, second) = (c ∷ first, second)

split_T-cons : (c : ℕ) (s : List ℕ) → c ≢ 84 → split_T (c ∷ s) ≡ prefix_first c (split_T s)
unfolding split_T
split_T-cons c s h = ground arith

split_T_whole : (s : List ℕ) → All (λ c. c ≢ 84) s → split_T s ≡ (s, none)
unfolding split_T
split_T_whole [] h = refl
split_T_whole (c ∷ s) h = split_T-cons c s h.0 ∙ ap (prefix_first c) (split_T_whole s h.1)

split_T-append :
    (s u : List ℕ) → All (λ c. c ≢ 84) s → All (λ c. c ≢ 84) u → split_T (s ++ 84 ∷ u) ≡ (s, some u)
split_T-append [] u h k =
    unfold split_T in
    ap (λ (p : List ℕ × Option (List ℕ)). let q : List ℕ × Option (List ℕ) = ([], some p.0) in q)
      (split_T_whole u k)
split_T-append (c ∷ s) u h k =
    split_T-cons c (s ++ 84 ∷ u) h.0 ∙ ap (prefix_first c) (split_T-append s u h.1 k)

module _ (f : Formats) (laws : IsFormats f) where
  create-show : (v : ℤ) → IsSmall v → create_from_text f (f.show v) ≡ ok v
  unfolding create_from_text create_decimal neg
  create-show v h = ground (arith, laws.read_show v h, laws.round_small v h)

  pub create_T : (v w : ℤ) → create_from_text f (f.show v ++ 84 ∷ f.show w) ≡ err value_error
  unfolding create_from_text
  create_T v w = rw (laws.read_T v w, create_from_text) refl

  two_values-show :
      (v w : ℤ)
      → IsSmall v
      → IsSmall w
      → two_values f (split_T (f.show v ++ 84 ∷ f.show w)) ≡ some (v, w)
  unfolding two_values
  two_values-show v w hv hw =
      rw
        (
          split_T-append (f.show v) (f.show w) (laws.show_without_T v) (laws.show_without_T w),
          create-show v hv,
          create-show w hw,
        )
        refl

  parse_values-one :
      (code : TransactionCode) (v : ℤ) (t : ℕ) (uid : List ℕ)
      → IsSmall v
      → parse_values f t uid (f.show v) code
        ≡ some (record {
          code = some code;
          value = v;
          receipted_value = none;
          datetime = t;
          uid = uid;
        })
  unfolding parse_values one_value two_values
  parse_values-one code v t uid h =
      ground (arith, split_T_whole (f.show v) (laws.show_without_T v), create-show v h)

  parse_values-two :
      (code : TransactionCode) (v r : ℤ) (t : ℕ) (uid : List ℕ)
      → is_receipt_code code ≡ true
      → IsSmall v
      → IsSmall r
      → parse_values f t uid (f.show v ++ 84 ∷ f.show r) code
        ≡ some (record {
          code = some code;
          value = v;
          receipted_value = some r;
          datetime = t;
          uid = uid;
        })
  unfolding parse_values
  parse_values-two code v r t uid receipt hv hr = ground (arith, two_values-show v r hv hr)

  -- What was encoded is parsed.
  pub parse_part-encode :
      (code : TransactionCode) (v : ℤ) (r : Option ℤ) (t : ℕ) (uid : List ℕ)
      → IsEncodable
          (record { code = some code; value = v; receipted_value = r; datetime = t; uid = uid })
      → parse_part f t uid (encode f code v r)
        ≡ some
            (record { code = some code; value = v; receipted_value = r; datetime = t; uid = uid })
  unfolding parse_part encode
  parse_part-encode code v none t uid h =
      rw (get_code-code_letters code, encode, parse_part) (parse_values-one code v t uid h.0)
  parse_part-encode code v (some r) t uid h =
      rw (get_code-code_letters code, encode, parse_part)
        (parse_values-two code v r t uid h.1.0 h.0 h.1.1)

first_index :
    (n : ℕ) → (wrap (suc (suc (suc n))) (0 + 2) ≡ 2) × (wrap (suc (suc (suc n))) (0 + 1) ≡ 1)
unfolding wrap
first_index n = (ground arith, ground arith)

later_index : (i n : ℕ) → 0 < i → i < n → wrap n (i + 2) ≢ 2
unfolding wrap
later_index i n h k = ground arith

parse_parts_untimed :
    (f : Formats) (date uid part : Option (List ℕ))
    → ((p : List ℕ) → date ≡ some p → f.read_time p ≡ none)
    → parse_parts f date uid part ≡ none
unfolding parse_parts
parse_parts_untimed f none uid part h = refl
parse_parts_untimed f (some d) none part h = refl
parse_parts_untimed f (some d) (some u) none h = refl
parse_parts_untimed f (some d) (some u) (some p) h = rw (h d refl, parse_parts) refl

parse_parts_timed :
    (f : Formats) (d u p : List ℕ) (t : ℕ)
    → f.read_time d ≡ some t
    → parse_parts f (some d) (some u) (some p) ≡ parse_part f t u p
unfolding parse_parts
parse_parts_timed f d u p t h = rw (h, parse_parts) refl

get_elem?-Untimed :
    (f : Formats) (xs : List (List ℕ)) (k : ℕ) {p : List ℕ}
    → All (λ q. f.read_time q ≡ none) xs
    → get_elem? xs k ≡ some p
    → f.read_time p ≡ none
get_elem?-Untimed f [] k h found = cc
get_elem?-Untimed f (x ∷ xs) zero h found = ap f.read_time (sym (some-injective x _ found)) ∙ h.0
get_elem?-Untimed f (x ∷ xs) (suc k) h found = get_elem?-Untimed f xs k h.1 found

module _ (f : Formats) (e u d : List ℕ) (rest : List (List ℕ)) where
  abbrev pub reversed_key : List (List ℕ)
  reversed_key = e ∷ u ∷ d ∷ rest

  pub parse_at-first :
      (t : ℕ) → f.read_time d ≡ some t → parse_at f reversed_key 0 ≡ parse_part f t u e
  unfolding parse_at
  parse_at-first t h =
      rw ((first_index (length rest)).0, (first_index (length rest)).1)
        (parse_parts_timed f d u e t h)

  -- The parts other than the third hold no time.
  get_elem?_untimed :
      All (λ p. f.read_time p ≡ none) (e ∷ u ∷ rest)
      → (k : ℕ) {p : List ℕ} → k ≢ 2
      → get_elem? reversed_key k ≡ some p
      → f.read_time p ≡ none
  get_elem?_untimed h zero ne found = get_elem?-Untimed f (e ∷ u ∷ rest) 0 h found
  get_elem?_untimed h (suc zero) ne found = get_elem?-Untimed f (e ∷ u ∷ rest) 1 h found
  get_elem?_untimed h (suc (suc zero)) ne found = absurd (ne refl)
  get_elem?_untimed h (suc (suc (suc k))) ne found = get_elem?-Untimed f rest k h.1.1 found

  parse_at_later :
      All (λ p. f.read_time p ≡ none) (e ∷ u ∷ rest)
      → (i : ℕ) → 0 < i
      → i < length reversed_key
      → parse_at f reversed_key i ≡ none
  unfolding parse_at
  parse_at_later h i low high =
      parse_parts_untimed f _ _ _
        (λ p found. get_elem?_untimed h _ (later_index i _ low high) found)

pub scan_found :
    (f : Formats) (rev : List (List ℕ)) (n i : ℕ) {t : TransactionInfo}
    → parse_at f rev i ≡ some t
    → scan f rev (suc n) i ≡ ok t
unfolding scan
scan_found f rev n i h = rw (h, scan) refl

pub scan_skip :
    (f : Formats) (rev : List (List ℕ)) (n i : ℕ)
    → parse_at f rev i ≡ none
    → scan f rev (suc n) i ≡ scan f rev n (i + 1)
unfolding scan
scan_skip f rev n i h = rw (h, scan) refl

pub scan_exhausted :
    (f : Formats) (e u d : List ℕ) (rest : List (List ℕ)) (n i : ℕ)
    → All (λ p. f.read_time p ≡ none) (e ∷ u ∷ rest)
    → 0 < i
    → n + i ≡ length (e ∷ u ∷ d ∷ rest)
    → scan f (e ∷ u ∷ d ∷ rest) n i ≡ err value_error
scan_exhausted f e u d rest zero i h low k = unfold scan in refl
scan_exhausted f e u d rest (suc n) i h low k =
    scan_skip f (e ∷ u ∷ d ∷ rest) n i (parse_at_later f e u d rest h i low (omega (arith, k)))
    ∙ scan_exhausted f e u d rest n (i + 1) h (omega arith) (omega (arith, k))
