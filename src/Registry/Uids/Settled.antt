-- ===== src/Registry/Uids/Settled.antt =====
-- The loop of `_generate_service_uid` ends in its second round at the latest.
use Prim.{absurd}
use acquire.Base.{
  ℕ, suc, ◌≡◌, ◌≢◌, ◌⊎◌, inl, inr, refl, ap, sym, ◌∙◌, subst, true, false, Option, some, List, [],
  ◌∷◌, Bool-cases,
}
use acquire.Base.Result.{Result, ok}
use acquire.Base.Texts.{Text, same, same-true, same-false}
use acquire.Registry.Uids.{with_root, root_of, to_uid, inc_uid, settle}
use acquire.Registry.Uids.Order.{IsVals, Before, Before-irrefl, inc_uid_lem}
use acquire.Registry.Uids.Printed.{is_printed, read_uid, read_uid-to_uid, to_uid_lem}

rest_of : Text → Text
rest_of [] = []
rest_of (_ ∷ cs) = cs

with_root_injective : (root : Text) {a b : Text} → with_root root a ≡ with_root root b → a ≡ b
unfolding with_root rest_of
with_root_injective [] h = ap rest_of h
with_root_injective (c ∷ cs) h = with_root_injective cs (ap rest_of h)

-- Of different values the UIDs differ.
pub with_root_differs :
    (root : Text) (xs ys : List ℕ) {a b : Text}
    → to_uid xs ≡ ok a
    → to_uid ys ≡ ok b
    → Before xs ys
    → with_root root a ≢ with_root root b
with_root_differs root xs ys ha hb before h =
    let e : xs ≡ ys =
      sym (read_uid-to_uid xs ha)
      ∙ ap read_uid (with_root_injective root h)
      ∙ read_uid-to_uid ys hb in
    Before-irrefl ys (subst (λ zs. Before zs ys) e before)

-- A UID, and what it was printed from.
pub record Settled (registry_uid : Text) (vals : List ℕ) (r : Result (Option (Text × List ℕ)))
    : Type 0 where
  pub uid : Text
  pub last : List ℕ
  pub found : r ≡ ok (some (with_root (root_of registry_uid) uid, last))
  pub printed : to_uid last ≡ ok uid
  pub form : is_printed uid ≡ true
  pub valid : IsVals last
  pub other : with_root (root_of registry_uid) uid ≢ registry_uid
  pub onward : (last ≡ vals) ⊎ Before vals last

module _ (fuel : ℕ) (registry_uid : Text) (vals : List ℕ) (uid : Text)
    (printed : to_uid vals ≡ ok uid) where
  abbrev root : Text
  root = root_of registry_uid

  settle_here :
      same (with_root root uid) registry_uid ≡ false
      → settle (suc fuel) registry_uid vals ≡ ok (some (with_root root uid, vals))
  unfolding settle
  settle_here h = rw (printed, h) refl

  settle_there :
      same (with_root root uid) registry_uid ≡ true
      → settle (suc fuel) registry_uid vals ≡ settle fuel registry_uid (inc_uid vals)
  unfolding settle
  settle_there h = rw (printed, h) refl

pub settle-Settled :
    (fuel : ℕ) (registry_uid : Text) (vals : List ℕ)
    → IsVals vals
    → Settled registry_uid vals (settle (suc (suc fuel)) registry_uid vals)
settle-Settled fuel registry_uid vals v =
    let (uid, printed, form) = to_uid_lem vals v in
    let (v', before) = inc_uid_lem vals v in
    let (uid', printed', form') = to_uid_lem (inc_uid vals) v' in
    let root : Text = root_of registry_uid in
    elim (Bool-cases (same (with_root root uid) registry_uid)) [
      | inr free ↦ record {
        uid = uid;
        last = vals;
        found = settle_here (suc fuel) registry_uid vals uid printed free;
        printed = printed;
        form = form;
        valid = v;
        other = same-false _ _ free;
        onward = inl refl;
      }
      | inl taken ↦
          let apart : with_root root uid' ≢ registry_uid = λ e.
            with_root_differs root vals (inc_uid vals) printed printed' before
              (same-true _ _ taken ∙ sym e) in
          elim (Bool-cases (same (with_root root uid') registry_uid)) [
            | inl again ↦ absurd (apart (same-true _ _ again))
            | inr free ↦ record {
              uid = uid';
              last = inc_uid vals;
              found =
                  settle_there (suc fuel) registry_uid vals uid printed taken
                  ∙ settle_here fuel registry_uid (inc_uid vals) uid' printed' free;
              printed = printed';
              form = form';
              valid = v';
              other = apart;
              onward = inr before;
            }
          ]
    ]
