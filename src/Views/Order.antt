-- ===== src/Views/Order.antt =====
-- What a feature of a DerivedFeatureView may depend on.
use feathub.Prelude.{
  ◌≡◌, refl, Bool, true, false, ◌||◌, String, List, [], ◌∷◌, ◌++◌, string_eq, ◌==◌, arith,
}
use feathub.Dict.{contains, is_subset}
use feathub.Errors.{Result, ok, feathub_exception, guard, bind-eq-ok, ◌>>◌}
use feathub.Views.{Token, Feature, feature_names, dependencies, validate}

pub guard-ok :
    (test : Bool) (rest : Result (Unit {0}))
    → (guard test feathub_exception >> rest) ≡ ok tt
    → (test ≡ true) × (rest ≡ ok tt)
guard-ok true rest h = (refl, h)
guard-ok false rest h = cc

pub contains-is_subset :
    (v : String) (vs ws : List String)
    → is_subset vs ws ≡ true
    → contains v vs ≡ true
    → contains v ws ≡ true
unfolding contains is_subset
contains-is_subset v [] ws h k = cc
contains-is_subset v (x ∷ vs) ws h k =
    ground (arith, contains-is_subset v vs ws, string_eq.eqb_iff x v)

module _ (lexer : String → List Token) where
  -- If the validation of a DerivedFeatureView raises no exception, every feature depends only on
  -- fields of the source and on features that come before it.
  pub validate-contains :
      (source_fields : List String) (before after : List Feature) (f : Feature)
      → validate lexer source_fields (before ++ f ∷ after) ≡ ok tt
      → (variables : List String) × (dependencies lexer f f.transform ≡ ok variables)
        × ((v : String)
            → contains v variables ≡ true
            → (contains v source_fields || contains v (feature_names before)) ≡ true)
  unfolding validate contains
  validate-contains source_fields [] after f h =
      let (vs, h1, h2) = bind-eq-ok (dependencies lexer f f.transform) _ h in
      let (sub, h3) = guard-ok (is_subset vs source_fields) _ h2 in
      (vs, h1, λ v k. (rw (contains-is_subset v vs source_fields sub k) refl))
  validate-contains source_fields (g ∷ before) after f h =
      let (vs, h1, h2) = bind-eq-ok (dependencies lexer g g.transform) _ h in
      let (sub, h3) = guard-ok (is_subset vs source_fields) _ h2 in
      let (ws, e, k) = validate-contains (g.name ∷ source_fields) before after f h3 in
      (
        ws,
        e,
        λ v c.
            moved (g.name == v) (contains v source_fields) (contains v (feature_names before))
              (k v c),
      )
    where
      moved : (a b c : Bool) → ((a || b) || c) ≡ true → (b || (a || c)) ≡ true
      moved a b c h = ground arith
