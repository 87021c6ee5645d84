-- ===== src/Views/Sliding/Keys.antt =====
-- The group-by keys that the sliding features of a view share.
use feathub.Prelude.{
  ◌≡◌, refl, sym, ap, ◌∙◌, Bool, true, false, ◌&&◌, String, List, [], ◌∷◌, ◌++◌, Option, some, none,
  list_eq, string_eq, ◌==◌, Among, ◌⊎◌, inl, inr, arith, if◌then◌else◌,
}
use feathub.Errors.{ok, ok-injective, err, feathub_exception}
use feathub.Views.{Feature}
use feathub.Views.FeatureView.{set_feature_keys}
use feathub.Views.Sliding.{
  sliding_keys, group_keys, group_keys_cons, single_keys, all_keys_equal, get_group_by_keys,
}

Among-cons :
    (keys : Option (List String)) (kss : List (List String)) (ks : List String)
    → Among ks (group_keys_cons keys kss)
    → (keys ≡ some ks) ⊎ Among ks kss
Among-cons none kss ks m = inr m
Among-cons (some js) kss ks (inl e) = inl (ap some (sym e))
Among-cons (some js) kss ks (inr m) = inr m

cons-Among :
    (keys : Option (List String)) (kss : List (List String)) (ks : List String)
    → (keys ≡ some ks) ⊎ Among ks kss
    → Among ks (group_keys_cons keys kss)
cons-Among none kss ks (inl e) = cc
cons-Among none kss ks (inr m) = m
cons-Among (some js) kss ks (inl e) = inl cc
cons-Among (some js) kss ks (inr m) = inr m

pub group_keys-of :
    (fs : List Feature) (ks : List String)
    → Among ks (group_keys fs)
    → (f : Feature) × Among f fs × (sliding_keys f.transform ≡ some ks)
unfolding group_keys
group_keys-of [] ks m = elim m [ ]
group_keys-of (g ∷ fs) ks m = elim (Among-cons (sliding_keys g.transform) (group_keys fs) ks m) [
  | inl e ↦ (g, inl refl, e)
  | inr n ↦ let (f, a, e) = group_keys-of fs ks n in (f, inr a, e)
]

pub Among-group_keys :
    (fs : List Feature) (f : Feature) (ks : List String)
    → Among f fs
    → sliding_keys f.transform ≡ some ks
    → Among ks (group_keys fs)
unfolding group_keys
Among-group_keys [] f ks m e = elim m [ ]
Among-group_keys (g ∷ fs) f ks (inl p) e =
    cons-Among (sliding_keys g.transform) (group_keys fs) ks
      (inl (ap (λ h. sliding_keys h.transform) (sym p) ∙ e))
Among-group_keys (g ∷ fs) f ks (inr m) e =
    cons-Among (sliding_keys g.transform) (group_keys fs) ks (inr (Among-group_keys fs f ks m e))

all_keys_equal-Among :
    (keys ks : List String) (kss : List (List String))
    → all_keys_equal keys kss ≡ true
    → Among ks kss
    → ks ≡ keys
all_keys_equal-Among keys ks [] h m = elim m [ ]
all_keys_equal-Among keys ks (js ∷ kss) h (inl e) =
    e ∙ (list_eq.eqb_iff js keys).0 (left (js == keys) (all_keys_equal keys kss) h)
  where
    left : (a b : Bool) → (a && b) ≡ true → a ≡ true
    left a b h = ground arith
all_keys_equal-Among keys ks (js ∷ kss) h (inr m) =
    all_keys_equal-Among keys ks kss (right (js == keys) (all_keys_equal keys kss) h) m
  where
    right : (a b : Bool) → (a && b) ≡ true → b ≡ true
    right a b h = ground arith

returned :
    (test : Bool) {keys ks : List String}
    → (if test then ok keys else err feathub_exception) ≡ ok ks
    → (test ≡ true) × (keys ≡ ks)
returned true h = (refl, ok-injective h)
returned false h = cc

pub get_group_by_keys-Among :
    (fs : List Feature) {keys : List String} (ks : List String)
    → get_group_by_keys fs ≡ ok keys
    → Among ks (group_keys fs)
    → ks ≡ keys
unfolding get_group_by_keys
get_group_by_keys-Among fs ks h m = single_keys-Among (group_keys fs) ks h m
  where
    single_keys-Among :
        (kss : List (List String)) {keys : List String} (ks : List String)
        → single_keys kss ≡ ok keys
        → Among ks kss
        → ks ≡ keys
    single_keys-Among [] ks h m = elim m [ ]
    single_keys-Among (js ∷ kss) ks h m =
        let (same, e) = returned (all_keys_equal js kss) h in
        elim m [ inl n ↦ n ∙ e | inr n ↦ all_keys_equal-Among js ks kss same n ∙ e ]

pub group_keys-set_feature_keys :
    (keys : Option (List String)) (fs : List Feature)
    → group_keys (set_feature_keys keys fs) ≡ group_keys fs
unfolding group_keys set_feature_keys
group_keys-set_feature_keys keys [] = refl
group_keys-set_feature_keys keys (f ∷ fs) = rw (group_keys-set_feature_keys keys fs) refl

pub group_keys-append_per_row :
    (fs : List Feature) (f : Feature)
    → sliding_keys f.transform ≡ none
    → group_keys (fs ++ f ∷ []) ≡ group_keys fs
unfolding group_keys
group_keys-append_per_row [] f e = rw e refl
group_keys-append_per_row (g ∷ fs) f e = rw (group_keys-append_per_row fs f e) refl
