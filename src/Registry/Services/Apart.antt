-- ===== src/Registry/Services/Apart.antt =====
-- No two URLs of the registry have the same UID.
use acquire.Base.{
  ℕ, true, false, none, some, List, [], ◌∷◌, ◌≡◌, ◌≢◌, refl, sym, ◌∙◌, subst, ◌⊎◌, inl, inr, All,
  Bool-cases,
}
use Prim.{absurd}
use mathlib.Core.Option.{some-injective}
use acquire.Base.Texts.{Text, same, same-true}
use acquire.Base.Result.{ok}
use acquire.Registry.Uids.{with_root, root_of, to_uid}
use acquire.Registry.Uids.Order.{IsStored, After, Before, Before-trans}
use acquire.Registry.Uids.Settled.{with_root_differs}
use acquire.Registry.Uids.Generate.{Stored}
use acquire.Registry.Uids.Generate.Distinct.{Fresh}
use acquire.Registry.Services.{Store, look_up}

abbrev UpTo : Stored → List ℕ → Type 0
UpTo none vals = ⊥
UpTo (some last) vals = (vals ≡ last) ⊎ Before vals last

-- A UID that was given away by the time that the values are stored.
pub record Issued (registry_uid : Text) (s : Stored) (uid : Text) : Type 0 where
  vals : List ℕ
  part : Text
  whole : uid ≡ with_root (root_of registry_uid) part
  printed : to_uid vals ≡ ok part
  up_to : UpTo s vals

-- An entry for a URL goes with the entries of the same UID.
abbrev pub Fits : Text → Text → List (Text × Text) → Type 0
Fits url uid urls = All (λ (e : Text × Text). uid ≡ e.1 → url ≡ e.0) urls

abbrev AreApart : List (Text × Text) → Type 0
AreApart [] = Unit
AreApart ((url, uid) ∷ urls) = Fits url uid urls × AreApart urls

-- Every UID was given away, and goes with one URL.
pub record IsApart (registry_uid : Text) (w : Store) : Type 0 where
  pub valid : IsStored w.last_uid
  pub issued : All (λ (e : Text × Text). Issued registry_uid w.last_uid e.1) w.urls
  pub apart : AreApart w.urls

UpTo-Before : (s : Stored) (vals last : List ℕ) → UpTo s vals → After s last → Before vals last
UpTo-Before none vals last h k = absurd h
UpTo-Before (some ys) vals last (inl e) k = subst (λ zs. Before zs last) (sym e) k
UpTo-Before (some ys) vals last (inr b) k = Before-trans vals ys last b k

Issued-later :
    (registry_uid : Text) (s : Stored) (last : List ℕ) (uid : Text)
    → After s last
    → Issued registry_uid s uid
    → Issued registry_uid (some last) uid
Issued-later registry_uid s last uid after h = record {
  vals = h.vals;
  part = h.part;
  whole = h.whole;
  printed = h.printed;
  up_to = inr (UpTo-Before s h.vals last h.up_to after);
}

pub All-Issued :
    (registry_uid : Text) (s : Stored) (last : List ℕ) (urls : List (Text × Text))
    → After s last
    → All (λ (e : Text × Text). Issued registry_uid s e.1) urls
    → All (λ (e : Text × Text). Issued registry_uid (some last) e.1) urls
All-Issued registry_uid s last [] after h = tt
All-Issued registry_uid s last ((url, uid) ∷ urls) after (h, hs) =
    (Issued-later registry_uid s last uid after h, All-Issued registry_uid s last urls after hs)

pub Fresh-Issued :
    (registry_uid : Text) (s : Stored) (uid : Text) (last : List ℕ)
    → Fresh registry_uid s uid last
    → Issued registry_uid (some last) uid
Fresh-Issued registry_uid s uid last f = record {
  vals = last;
  part = f.part;
  whole = f.whole;
  printed = f.printed;
  up_to = inl refl;
}

Fresh-differs :
    (registry_uid : Text) (s : Stored) (uid : Text) (last : List ℕ) (old : Text)
    → Fresh registry_uid s uid last
    → Issued registry_uid s old
    → uid ≢ old
Fresh-differs registry_uid s uid last old f h e =
    with_root_differs (root_of registry_uid) h.vals last h.printed f.printed
      (UpTo-Before s h.vals last h.up_to f.later) (sym h.whole ∙ sym e ∙ f.whole)

pub Fresh-Fits :
    (registry_uid : Text) (s : Stored) (url uid : Text) (last : List ℕ) (urls : List (Text × Text))
    → Fresh registry_uid s uid last
    → All (λ (e : Text × Text). Issued registry_uid s e.1) urls
    → Fits url uid urls
Fresh-Fits registry_uid s url uid last [] f h = tt
Fresh-Fits registry_uid s url uid last ((i, old) ∷ urls) f (h, hs) = (
  λ e. absurd (Fresh-differs registry_uid s uid last old f h e),
  Fresh-Fits registry_uid s url uid last urls f hs,
)

look_up-here :
    (k i : Text) (uid : Text) (urls : List (Text × Text))
    → same i k ≡ true
    → look_up k ((i, uid) ∷ urls) ≡ some uid
unfolding look_up
look_up-here k i uid urls h = rw (h) refl

look_up-there :
    (k i : Text) (uid : Text) (urls : List (Text × Text))
    → same i k ≡ false
    → look_up k ((i, uid) ∷ urls) ≡ look_up k urls
unfolding look_up
look_up-there k i uid urls h = rw (h) refl

-- What holds of all entries holds of the one that is found.
pub look_up-All :
    (P : Text × Text → Type 0) (k : Text) (urls : List (Text × Text)) {uid : Text}
    → look_up k urls ≡ some uid
    → All P urls
    → P (k, uid)
unfolding look_up
look_up-All P k [] h all = cc
look_up-All P k ((i, u) ∷ urls) {uid} h (p, ps) = elim (Bool-cases (same i k)) [
  | inl e ↦
      let q : u ≡ uid = some-injective u uid (sym (look_up-here k i u urls e) ∙ h) in
      subst (λ (x : Text). P (k, x)) q (subst (λ (x : Text). P (x, u)) (same-true i k e) p)
  | inr e ↦ look_up-All P k urls (sym (look_up-there k i u urls e) ∙ h) ps
]

pub look_up-Fits :
    (k : Text) (urls : List (Text × Text)) {uid : Text}
    → look_up k urls ≡ some uid
    → AreApart urls
    → Fits k uid urls
unfolding look_up
look_up-Fits k [] h a = cc
look_up-Fits k ((i, u) ∷ urls) {uid} h (fits, a) = elim (Bool-cases (same i k)) [
  | inl e ↦
      let q : u ≡ uid = some-injective u uid (sym (look_up-here k i u urls e) ∙ h) in
      (
        λ _. sym (same-true i k e),
        subst (λ (x : Text). Fits k x urls) q
            (subst (λ (x : Text). Fits x u urls) (same-true i k e) fits),
      )
  | inr e ↦
      let h' : look_up k urls ≡ some uid = sym (look_up-there k i u urls e) ∙ h in
      (
        λ q. sym (look_up-All (λ (x : Text × Text). u ≡ x.1 → i ≡ x.0) k urls h' fits (sym q)),
        look_up-Fits k urls h' a,
      )
]
