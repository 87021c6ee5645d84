-- ===== src/Views/Among.antt =====
-- Features among others, and their names.
use feathub.Prelude.{
  ◌≡◌, refl, Bool, true, false, ◌||◌, String, List, [], ◌∷◌, ◌++◌, Among, inl, inr, ◌⊎◌, string_eq,
  ◌==◌, arith, sym, keep, if◌then◌else◌,
}
use feathub.Dict.{contains, eq_self}
use feathub.Views.{Feature, feature_names}

pub contains-feature_names :
    (f : Feature) (fs : List Feature) → Among f fs → contains f.name (feature_names fs) ≡ true
unfolding contains
contains-feature_names f [] h = elim h [ ]
contains-feature_names f (g ∷ fs) (inl e) = rw (sym e, eq_self f.name) refl
contains-feature_names f (g ∷ fs) (inr m) = ground (arith, contains-feature_names f fs m)

-- The feature that has a name of the list.
pub named :
    (v : String) (fs : List Feature)
    → contains v (feature_names fs) ≡ true
    → (f : Feature) × Among f fs × (f.name ≡ v)
unfolding contains
named v [] h = cc
named v (g ∷ fs) h = elim (split (g.name == v) refl) [
  | inl e ↦ (g, inl refl, (string_eq.eqb_iff g.name v).0 e)
  | inr e ↦
      let (f, m, k) = named v fs (rest (g.name == v) (contains v (feature_names fs)) h e) in
      (f, inr m, k)
]
  where
    split : (b : Bool) {c : Bool} → c ≡ b → (c ≡ true) ⊎ (c ≡ false)
    split true e = inl e
    split false e = inr e

    rest : (b c : Bool) → (b || c) ≡ true → b ≡ false → c ≡ true
    rest b c h e = ground arith

module _ {A : Type 0} where
  pub Among-append_left : (x : A) (xs ys : List A) → Among x xs → Among x (xs ++ ys)
  Among-append_left x [] ys h = elim h [ ]
  Among-append_left x (z ∷ xs) ys (inl e) = inl e
  Among-append_left x (z ∷ xs) ys (inr m) = inr (Among-append_left x xs ys m)

  pub Among-append_right : (x : A) (xs ys : List A) → Among x ys → Among x (xs ++ ys)
  Among-append_right x [] ys m = m
  Among-append_right x (z ∷ xs) ys m = inr (Among-append_right x xs ys m)

  pub Among-keep : (p : A → Bool) (xs : List A) (x : A) → Among x (keep p xs) → Among x xs
  Among-keep p [] x m = elim m [ ]
  Among-keep p (y ∷ xs) x m = go (p y) m (Among-keep p xs x)
    where
      go :
          (b : Bool)
          → Among x (if b then y ∷ keep p xs else keep p xs)
          → (Among x (keep p xs) → Among x xs)
          → Among x (y ∷ xs)
      go true (inl e) ih = inl e
      go true (inr n) ih = inr (ih n)
      go false n ih = inr (ih n)

  pub Among-eq : (x y : A) (xs : List A) → x ≡ y → Among x xs → Among y xs
  Among-eq x y xs e m = rw (sym e) m
