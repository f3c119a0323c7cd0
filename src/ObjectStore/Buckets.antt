-- ===== src/ObjectStore/Buckets.antt =====
-- Acquire/ObjectStore/_objstore.py over the operations of Acquire/ObjectStore/_testing_objstore.py: a bucket
-- is the list of its keys with their objects, of which each is a text. A backend's errors other than a
-- missing object, and the text encoding of an object, are left out.
pub mod Inserted
mod Tests
use acquire.Base.{
  ℕ, zero, suc, Bool, true, false, ◌||◌, Option, none, some, List, [], ◌∷◌, ◌++◌, if◌then◌else◌,
  ◌==◌, length,
}
use acquire.Base.Texts.{Text, codes, same, starts_with}
use acquire.Base.Result.{Error, Result, ok, err, object_store_error, unbound_local_error}
use acquire.Base.Exec.{Exec, return_, raise, lift, get_state, ◌>>=◌, ◌>>◌}

abbrev pub Bucket : Type 0
Bucket = List (Text × Text)

pub object_at : Text → Bucket → Option Text
object_at key [] = none
object_at key ((k, d) ∷ rest) = if same k key then some d else object_at key rest

pub removed : Text → Bucket → Bucket
removed key [] = []
removed key ((k, d) ∷ rest) = if same k key then removed key rest else (k, d) ∷ removed key rest

read_object : Option Text → Result Text
read_object none = err object_store_error
read_object (some d) = ok d

-- `get_object`, and `get_string_object`
pub get_object : Text → Exec Bucket Text
unfolding read_object object_at
get_object key w = (read_object (object_at key w), w)

pub set_object : Text → Text → Exec Bucket (Unit {0})
unfolding removed
set_object key object w = (ok tt, (key, object) ∷ removed key w)

-- A missing object is passed over.
pub delete_object : Text → Exec Bucket (Unit {0})
unfolding removed
delete_object key w = (ok tt, removed key w)

pub take_object : Text → Exec Bucket Text
unfolding get_object delete_object
take_object key = do object ← get_object key; delete_object key; return_ object

-- The names of all objects, or of those with a prefix.
has_prefix : Option Text → Text → Bool
has_prefix none key = true
has_prefix (some prefix) key = starts_with prefix key

pub get_all_object_names : Option Text → Bucket → List Text
unfolding has_prefix
get_all_object_names prefix [] = []
get_all_object_names prefix ((k, d) ∷ rest) =
    if has_prefix prefix k
    then k ∷ get_all_object_names prefix rest
    else get_all_object_names prefix rest

-- `get_all_objects`: the objects one by one.
get_objects : List Text → Exec Bucket (List (Text × Text))
unfolding get_object
get_objects [] = return_ []
get_objects (name ∷ names) = do
  object ← get_object name
  rest ← get_objects names
  return_ ((name, object) ∷ rest)

pub get_all_objects : Option Text → Exec Bucket (List (Text × Text))
unfolding get_all_object_names get_objects
get_all_objects prefix = get_state >>= λ w. get_objects (get_all_object_names prefix w)

-- The inner loop of `clear_all_except`: whether the name has none of the prefixes, and the last key that the
-- loop looked at.
search_key : Text → Option Text → List Text → Bool × Option Text
search_key name last [] = (true, last)
search_key name last (key ∷ keys) =
    let rest = search_key name (some key) keys in
    if starts_with key name then (false, some key) else rest

delete_last : Bool → Option Text → Exec Bucket (Unit {0})
unfolding delete_object
delete_last false key = return_ tt
delete_last true none = raise unbound_local_error
delete_last true (some key) = delete_object key

-- The object that is deleted is that of the variable `key`, which keeps its value from name to name.
clear_names : List Text → Option Text → List Text → Exec Bucket (Unit {0})
unfolding search_key delete_last
clear_names keys last [] = return_ tt
clear_names keys last (name ∷ names) = do
  delete_last (search_key name last keys).0 (search_key name last keys).1
  clear_names keys (search_key name last keys).1 names

pub clear_all_except : List Text → Exec Bucket (Unit {0})
unfolding clear_names get_all_object_names
clear_all_except keys = get_state >>= λ w. clear_names keys none (get_all_object_names none w)

-- `str(key).replace(" ", "_")`
underscored : Text → Text
underscored [] = []
underscored (c ∷ cs) = (if c == 32 then 95 else c) ∷ underscored cs

-- The key of the mutex for a key, in the same bucket.
pub mutex_key : Text → Text
unfolding underscored
mutex_key key = codes "mutexes/" ++ underscored key

-- What other clients, and a `lock` that fails, do to the bucket before the mutex is had; the lock string that
-- `lock` writes; and how `unlock` ends. Nobody else is at the bucket while the mutex is had.
pub record Surroundings : Type 0 where
  pub others : Bucket → Bucket
  pub lock : Result Text
  pub unlock : Result (Unit {0})

await : Surroundings → Exec Bucket (Unit {0})
await s w = (ok tt, s.others w)

delete_when : Bool → Text → Exec Bucket (Unit {0})
unfolding delete_object
delete_when true key = delete_object key
delete_when false key = return_ tt

is_mine : Text → Option Text → Bool
is_mine lockstring none = false
is_mine lockstring (some holder) = same holder lockstring

-- What `fully_unlock` does to the bucket: the key of the mutex goes if it has the lock string.
give_mutex_back : Text → Text → Exec Bucket (Unit {0})
unfolding delete_when is_mine object_at
give_mutex_back key lockstring w =
    delete_when (is_mine lockstring (object_at (mutex_key key) w)) (mutex_key key) w

-- After a new object is set, the mutex is unlocked as its object is collected, which passes over errors.
set_if_none : Surroundings → Text → Text → Text → Option Text → Exec Bucket Text
unfolding set_object give_mutex_back
set_if_none s key lockstring new (some old) = do
  give_mutex_back key lockstring
  lift s.unlock
  return_ old
set_if_none s key lockstring new none = do
  set_object key new
  give_mutex_back key lockstring
  return_ new

-- `set_ins_string_object`
pub set_ins_string_object : Surroundings → Text → Text → Exec Bucket Text
unfolding await set_if_none object_at set_object
set_ins_string_object s key new = do
  await s
  lockstring ← lift s.lock
  set_object (mutex_key key) lockstring
  w ← get_state
  set_if_none s key lockstring new (object_at key w)
