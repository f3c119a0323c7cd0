-- ===== src/Accounting/Formats.antt =====
-- Acquire/Accounting/_decimal.py, and what the accounting code takes from Python: the texts of
-- numbers and their rounding. An amount is an integer, in units of 10^-6.
use acquire.Base.{
  ℕ, String, ◌≡◌, ◌≢◌, Option, none, some, List, ◌∷◌, ◌++◌, All, if◌then◌else◌, arith,
}
use acquire.Base.Int.{ℤ, pos, ◌≤ℤ◌, leb_ℤ, neg}
use acquire.Base.Result.{Result, ok, err, account_error, value_error}

pub record Formats : Type 0 where
  -- `Decimal("%.6f" % v)`: the formatting goes through a binary float.
  pub round6 : ℤ → ℤ
  -- `"%013.6f" % v`, as character codes.
  pub show : ℤ → List ℕ
  -- `Decimal(text)`; `none` is its exception.
  pub read : List ℕ → Option ℤ
  -- `isoformat` of a time, and `fromisoformat`; `none` is its exception. A time is in microseconds
  -- from the beginning of year 1, in UTC.
  pub show_time : ℕ → List ℕ
  pub read_time : List ℕ → Option ℕ
  -- `"%s: %d of %d" % (description, i, n)`
  pub part_of : Option String → ℕ → ℕ → String

-- 2^32 units: below that a float has room for six decimals.
abbrev pub IsSmall : ℤ → Type 0
IsSmall v = (v ≤ℤ pos 4294967296000000) × (neg v ≤ℤ pos 4294967296000000)

-- What Python documents of them: six decimals of a float that has room for them are exact, the
-- rounding is stable, a number that was written is read back, the letter T (84) stands in no
-- number, no text with a T between two numbers is one, and a time that was written is read back.
pub record IsFormats (f : Formats) : Type 0 where
  pub round_small : (v : ℤ) → IsSmall v → f.round6 v ≡ v
  pub round_stable : (v : ℤ) → f.round6 (f.round6 v) ≡ f.round6 v
  pub read_show : (v : ℤ) → IsSmall v → f.read (f.show v) ≡ some v
  pub show_without_T : (v : ℤ) → All (λ c. c ≢ 84) (f.show v)
  pub read_T : (v w : ℤ) → f.read (f.show v ++ 84 ∷ f.show w) ≡ none
  pub read_show_time : (t : ℕ) → f.read_time (f.show_time t) ≡ some t

-- `create_decimal`: the lower limit is -10^12 units, the upper limit 10^15.
unfoldable pub create_decimal : Formats → ℤ → Result ℤ
create_decimal f value =
    let d = f.round6 value in
    if leb_ℤ d (neg (pos 1000000000000000000))
    then err account_error
    else if leb_ℤ (pos 1000000000000000000000) d
    then err account_error
    else ok d

-- A small amount is taken as it is.
pub create_small :
    (f : Formats) (laws : IsFormats f) (v : ℤ) → IsSmall v → create_decimal f v ≡ ok v
unfolding create_decimal neg
create_small f laws v h = ground (arith, laws.round_small v h)

-- `create_decimal` of a text, where the exception of `Decimal(text)` is left to the caller.
unfoldable pub create_from_text : Formats → List ℕ → Result ℤ
unfolding create_decimal
create_from_text f s = elim (f.read s) [ none ↦ err value_error | some v ↦ create_decimal f v ]
