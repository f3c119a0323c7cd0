-- ===== src/Registry/Uids.antt =====
-- `_inc_uid`, `_to_uid` and the methods of `Registry` that take UIDs apart. The
-- values that a UID is printed from are a list of numbers.
pub mod Printed
pub mod Order
pub mod Generate
pub mod Settled
use acquire.Base.{
  ℕ, zero, suc, ◌+◌, ◌-◌, ◌%◌, Bool, true, false, ◌&&◌, List, [], ◌∷◌, ◌++◌, ◌==◌, ltb,
  if◌then◌else◌, Option, none, some, length,
}
use acquire.Base.Texts.{Text, same, before}
use acquire.Base.Result.{Result, ok, err, value_error, ◌>>=◌}

-- The number of values that the i-th part of a UID takes: digits stand at the odd places.
pub limit : ℕ → ℕ
limit i = if i % 2 == 1 then 10 else 52

-- The loop of `_inc_uid` from the last value back to the i-th, and whether it has returned by then.
pub inc_at : ℕ → ℕ → List ℕ × Bool → List ℕ × Bool
unfolding limit
inc_at i x (xs, true) = (x ∷ xs, true)
inc_at i x (xs, false) = if ltb (x + 1) (limit i) then ((x + 1) ∷ xs, true) else (0 ∷ xs, false)

pub inc_from : ℕ → List ℕ → List ℕ × Bool
unfolding inc_at
inc_from i [] = ([], false)
inc_from i (x ∷ xs) = inc_at i x (inc_from (suc i) xs)

pub zeros : ℕ → List ℕ
zeros zero = []
zeros (suc n) = 0 ∷ zeros n

-- The last lines of `_inc_uid`: it overflowed if the loop has not returned.
pub finish_inc : ℕ → List ℕ × Bool → List ℕ
finish_inc n (vals, true) = vals
finish_inc n (vals, false) = zeros (n + 2)

pub inc_uid : List ℕ → List ℕ
unfolding inc_from finish_inc zeros
inc_uid vals = finish_inc (length vals) (inc_from 0 vals)

-- One part of a UID: `str(x)`, `ascii_lowercase[x]` or `ascii_uppercase[x-26]`.
pub to_char : ℕ → ℕ → Result ℕ
to_char i x =
    if i % 2 == 1
    then if ltb 9 x then err value_error else ok (b'0' + x)
    else if ltb 51 x
    then err value_error
    else if ltb x 26
    then ok (b'a' + x)
    else ok (b'A' + (x - 26))

pub to_chars : ℕ → List ℕ → Result Text
unfolding to_char
to_chars i [] = ok []
to_chars i (x ∷ xs) = to_char i x >>= λ c. to_chars (suc i) xs >>= λ cs. ok (c ∷ cs)

-- `[s[i:i+2] for i in range(0, len(s), 2)]`
pub pairs : Text → List Text
pairs [] = []
pairs (c ∷ []) = (c ∷ []) ∷ []
pairs (c ∷ d ∷ cs) = (c ∷ d ∷ []) ∷ pairs cs

-- `".".join(parts)`
pub join : List Text → Text
join [] = []
join (p ∷ []) = p
join (p ∷ q ∷ ps) = p ++ (b'.' ∷ join (q ∷ ps))

pub to_uid : List ℕ → Result Text
unfolding to_chars pairs join
to_uid vals = to_chars 0 vals >>= λ s. ok (join (pairs s))

-- `uid.split("-")[0]`
pub root_of : Text → Text
unfolding before
root_of uid = before b'-' uid

-- `"%s-%s" % (root, uid)`
pub with_root : Text → Text → Text
with_root root uid = root ++ (b'-' ∷ uid)

-- `Registry.get_registry_uid`
pub get_registry_uid : Text → Text
unfolding root_of with_root
get_registry_uid service_uid = with_root (root_of service_uid) (root_of service_uid)

-- The loop of `_generate_service_uid`, on fuel: the first UID that is not the registry's own, with the
-- values that it is printed from. `none` means that the fuel ran out.
unfoldable pub settle : ℕ → Text → List ℕ → Result (Option (Text × List ℕ))
unfolding to_uid with_root root_of same inc_uid
settle zero registry_uid vals = ok none
settle (suc fuel) registry_uid vals = to_uid vals >>= λ uid.
    let rest = settle fuel registry_uid (inc_uid vals) in
    if same (with_root (root_of registry_uid) uid) registry_uid
    then rest
    else ok (some (with_root (root_of registry_uid) uid, vals))

-- `_inc_uid` of the values of the last UID that was given away, `[0, 0]` if there are none.
unfoldable pub next_vals : Option (List ℕ) → List ℕ
unfolding inc_uid
next_vals none = 0 ∷ 0 ∷ []
next_vals (some vals) = inc_uid vals
