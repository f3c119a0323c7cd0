-- ===== src/Registry/Uids/Generate.antt =====
-- `_generate_service_uid`: the values of the last UID stand in the object store, behind a mutex.
pub mod Distinct
pub mod Form
mod Tests
use acquire.Base.{ℕ, Option, none, some, List, [], ◌∷◌}
use acquire.Base.Result.{Result, ok}
use acquire.Base.Exec.{Exec, return_, lift, get_state, ◌>>=◌, ◌>>◌}
use acquire.Base.Texts.{Text}
use acquire.Registry.Uids.{settle, next_vals}

-- How the calls on the mutex end: either may raise.
pub record Locks : Type 0 where
  pub lock : Result (Unit {0})
  pub unlock : Result (Unit {0})

-- The key `registry/last_service_uid`; a missing or unreadable value is `none`.
abbrev pub Stored : Type 0
Stored = Option (List ℕ)

set_stored : List ℕ → Exec Stored (Unit {0})
set_stored vals s = (ok tt, some vals)

store_last : Locks → Option (Text × List ℕ) → Exec Stored (Option Text)
unfolding set_stored
store_last locks none = return_ none
store_last locks (some (uid, vals)) = set_stored vals >> lift locks.unlock >> return_ (some uid)

unfoldable pub generate : Locks → ℕ → Text → Exec Stored (Option Text)
unfolding store_last
generate locks fuel registry_uid = lift locks.lock >> get_state >>= λ stored.
    lift (settle fuel registry_uid (next_vals stored)) >>= store_last locks

-- The UIDs that a sequence of calls returns.
collected : Result (Option Text) → List Text → List Text
collected (ok (some uid)) uids = uid ∷ uids
collected _ uids = uids

pub generate_all : ℕ → Text → List Locks → Stored → List Text
unfolding generate collected
generate_all fuel registry_uid [] s = []
generate_all fuel registry_uid (locks ∷ rest) s =
    collected (generate locks fuel registry_uid s).0
      (generate_all fuel registry_uid rest (generate locks fuel registry_uid s).1)
