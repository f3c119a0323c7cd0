-- ===== src/Registry/Uids/Generate/Tests.antt =====
-- UIDs that a registry gives, and uses of the theorems on them.
use acquire.Base.{◌≢◌, ◌≡◌, refl, none, some, [], ◌∷◌, arith}
use acquire.Base.Result.{ok, err, mutex_timeout_error}
use acquire.Base.Lists.{All}
use acquire.Base.Texts.{Text}
use acquire.Registry.Uids.{limit, settle, next_vals}
use acquire.Registry.Uids.Order.{IsVals}
use acquire.Registry.Uids.Generate.{Locks, Stored, generate, generate_all}
use acquire.Registry.Uids.Generate.Distinct.{Distinct, generate_all-Distinct}
use acquire.Registry.Uids.Generate.Form.{Given, generate-Given}

abbrev held : Locks
held = record { lock = ok tt; unlock = ok tt }

abbrev timed_out : Locks
timed_out = record { lock = err mutex_timeout_error; unlock = ok tt }

-- "b4-b4", and "a0-a0", the first registry.
abbrev b4 : Text
b4 = b'b' ∷ b'4' ∷ b'-' ∷ b'b' ∷ b'4' ∷ []

abbrev a0 : Text
a0 = b'a' ∷ b'0' ∷ b'-' ∷ b'a' ∷ b'0' ∷ []

abbrev last_pair : Stored
last_pair = some (51 ∷ 9 ∷ [])

-- "b4-a0.a0" comes after "b4-Z9".
after_Z9 : generate held 2 b4 last_pair ≡ (
  ok (some (b'b' ∷ b'4' ∷ b'-' ∷ b'a' ∷ b'0' ∷ b'.' ∷ b'a' ∷ b'0' ∷ [])),
  some (0 ∷ 0 ∷ 0 ∷ 0 ∷ []),
)
unfolding generate settle next_vals
after_Z9 = refl

-- The first registry does not give away its own UID.
first_of_a0 :
    generate_all 2 a0 (held ∷ timed_out ∷ held ∷ []) none
    ≡ (b'a' ∷ b'0' ∷ b'-' ∷ b'a' ∷ b'1' ∷ []) ∷ (b'a' ∷ b'0' ∷ b'-' ∷ b'a' ∷ b'2' ∷ []) ∷ []
unfolding generate_all settle next_vals
first_of_a0 = refl

last_pair-IsVals : IsVals (51 ∷ 9 ∷ [])
unfolding limit
last_pair-IsVals = record {
  some_pair = omega arith;
  in_pairs = refl;
  in_range = (omega arith, (omega arith, tt));
}

generate_all-Distinct_example :
    Distinct (generate_all 2 a0 (held ∷ timed_out ∷ held ∷ []) last_pair)
    × All (λ uid. uid ≢ a0) (generate_all 2 a0 (held ∷ timed_out ∷ held ∷ []) last_pair)
generate_all-Distinct_example =
    generate_all-Distinct 0 a0 (held ∷ timed_out ∷ held ∷ []) last_pair last_pair-IsVals

generate-Given_example : Given b4 (generate held 2 b4 last_pair)
generate-Given_example = generate-Given held 0 b4 last_pair last_pair-IsVals refl refl
