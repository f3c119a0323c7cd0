-- ===== src/ObjectStore/Buckets/Inserted.antt =====
-- What `set_ins_string_object` returns and leaves.
use acquire.Base.{
  suc, false, arith, length, ap, Option, none, some, [], ◌∷◌, ◌≡◌, ◌≢◌, refl, sym, ◌∙◌, inl, inr,
  Bool-cases,
}
use Prim.{absurd}
use acquire.Base.Texts.{Text, same, same-true, same_refl}
use acquire.Base.Result.{ok}
use acquire.Base.Exec.{lift-Yields, Yields, Yields-returned}
use acquire.ObjectStore.Buckets.{
  Bucket, object_at, removed, read_object, get_object, set_object, delete_object, delete_when,
  is_mine, give_mutex_back, mutex_key, underscored, Surroundings, await, set_if_none,
  set_ins_string_object,
}

differs : (k j : Text) → k ≢ j → same k j ≡ false
differs k j h = elim (Bool-cases (same k j)) [ inl e ↦ absurd (h (same-true k j e)) | inr e ↦ e ]

object_at-removed :
    (key k : Text) (w : Bucket) → k ≢ key → object_at k (removed key w) ≡ object_at k w
unfolding object_at removed
object_at-removed key k [] h = refl
object_at-removed key k ((j, d) ∷ w) h = elim (Bool-cases (same j key)) [
  | inl e ↦
      let other : same j k ≡ false = differs j k (λ q. h (sym q ∙ same-true j key e)) in
      rw (e) (rw (other) (object_at-removed key k w h))
  | inr e ↦ rw (e) (elim (Bool-cases (same j k)) [
    | inl here ↦ rw (here) refl
    | inr there ↦ rw (there) (object_at-removed key k w h)
  ])
]

object_at-removed_here : (key : Text) (w : Bucket) → object_at key (removed key w) ≡ none
unfolding object_at removed
object_at-removed_here key [] = refl
object_at-removed_here key ((j, d) ∷ w) = elim (Bool-cases (same j key)) [
  | inl e ↦ rw (e) (object_at-removed_here key w)
  | inr e ↦ rw (e, e) (object_at-removed_here key w)
]

object_at-here : (key d : Text) (w : Bucket) → object_at key ((key, d) ∷ w) ≡ some d
unfolding object_at
object_at-here key d w = rw (same_refl key) refl

-- A written object leaves what stands under another key.
object_at-set :
    (key k d : Text) (w : Bucket) → k ≢ key → object_at k ((key, d) ∷ removed key w) ≡ object_at k w
unfolding object_at
object_at-set key k d w other =
    rw (differs key k (λ e. other (sym e))) (object_at-removed key k w other)

length-underscored : (cs : Text) → length (underscored cs) ≡ length cs
unfolding underscored
length-underscored [] = refl
length-underscored (c ∷ cs) = ap suc (length-underscored cs)

mutex_key_other : (key : Text) → key ≢ mutex_key key
unfolding mutex_key
mutex_key_other key e = absurd (omega (arith, ap length e, length-underscored key))

-- The key holds what is returned, an object that was there is kept, the key of the mutex is free, and no
-- further key has changed.
pub record IsInserted (key new : Text) (before : Bucket) (object : Text) (after : Bucket)
    : Type 0 where
  pub holds : get_object key after ≡ (ok object, after)
  pub first : object ≡ (elim (object_at key before) [ none ↦ new | some old ↦ old ])
  pub free : object_at (mutex_key key) after ≡ none
  pub others : (k : Text) → k ≢ key → k ≢ mutex_key key → object_at k after ≡ object_at k before

-- With its own lock string under the key of the mutex, `give_mutex_back` deletes that key.
give_mutex_back-mine :
    (key lockstring : Text) (w : Bucket)
    → object_at (mutex_key key) w ≡ some lockstring
    → give_mutex_back key lockstring w ≡ (ok tt, removed (mutex_key key) w)
unfolding give_mutex_back delete_when is_mine delete_object
give_mutex_back-mine key lockstring w h = rw (h, same_refl lockstring) refl

module _ (s : Surroundings) (key lockstring new : Text) (w : Bucket) where
  -- The bucket while the mutex is had.
  abbrev locked : Bucket
  locked = (mutex_key key, lockstring) ∷ removed (mutex_key key) w

  kept-IsInserted :
      (old : Text)
      → object_at key w ≡ some old
      → IsInserted key new w old (removed (mutex_key key) locked)
  unfolding get_object read_object
  kept-IsInserted old h =
      let own : key ≢ mutex_key key = mutex_key_other key in
      let held : object_at key (removed (mutex_key key) locked) ≡ some old =
        object_at-removed (mutex_key key) key locked own
        ∙ object_at-set (mutex_key key) key lockstring w own
        ∙ h in
      record {
        holds = rw (held) refl;
        first = rw (h) refl;
        free = object_at-removed_here (mutex_key key) locked;
        others = λ k _ other.
            object_at-removed (mutex_key key) k locked other
            ∙ object_at-set (mutex_key key) k lockstring w other;
      }

  abbrev with_new : Bucket
  with_new = (key, new) ∷ removed key locked

  new-IsInserted :
      object_at key w ≡ none → IsInserted key new w new (removed (mutex_key key) with_new)
  unfolding get_object read_object
  new-IsInserted h =
      let own : key ≢ mutex_key key = mutex_key_other key in
      let held : object_at key (removed (mutex_key key) with_new) ≡ some new =
        object_at-removed (mutex_key key) key with_new own
        ∙ object_at-here key new (removed key locked) in
      record {
        holds = rw (held) refl;
        first = rw (h) refl;
        free = object_at-removed_here (mutex_key key) with_new;
        others = λ k one other.
            object_at-removed (mutex_key key) k with_new other
            ∙ object_at-set key k new locked one
            ∙ object_at-set (mutex_key key) k lockstring w other;
      }

  set_if_none-IsInserted :
      (known : Option Text)
      → object_at key w ≡ known
      → Yields (set_if_none s key lockstring new known locked) (IsInserted key new w)
  unfolding set_if_none set_object
  set_if_none-IsInserted (some old) h =
      rw
        (give_mutex_back-mine key lockstring locked
          (object_at-here (mutex_key key) lockstring (removed (mutex_key key) w)))
        (lift-Yields s.unlock _ (removed (mutex_key key) locked) (IsInserted key new w)
          λ _ _. kept-IsInserted old h)
  set_if_none-IsInserted none h =
      rw
        (give_mutex_back-mine key lockstring with_new (
          object_at-set key (mutex_key key) new locked (λ e. mutex_key_other key (sym e))
          ∙ object_at-here (mutex_key key) lockstring (removed (mutex_key key) w)))
        (new-IsInserted h)

-- What `set_ins_string_object` returns is then the object of the key: the one that was there when the mutex
-- was had, or else the new one. The key of its mutex is free, and all further keys are as they were then.
pub set_ins_string_object-IsInserted :
    (s : Surroundings) (key new : Text) (w : Bucket) {object : Text} {t : Bucket}
    → set_ins_string_object s key new w ≡ (ok object, t)
    → IsInserted key new (s.others w) object t
unfolding set_ins_string_object await set_object
set_ins_string_object-IsInserted s key new w returned =
    Yields-returned (set_ins_string_object s key new w) (IsInserted key new (s.others w)) returned (
      lift-Yields s.lock _ (s.others w) (IsInserted key new (s.others w)) λ lockstring _.
        set_if_none-IsInserted s key lockstring new (s.others w)
          (object_at key (locked s key lockstring new (s.others w)))
          (sym (object_at-set (mutex_key key) key lockstring (s.others w) (mutex_key_other key))))
