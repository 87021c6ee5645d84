-- ===== src/Views/Sliding/Reads.antt =====
-- What the loops over the parts of a sliding feature view check.
use feathub.Prelude.{
  ◌≡◌, refl, sym, ap, ◌∙◌, Bool, true, ◌||◌, String, List, [], ◌∷◌, some, string_eq, list_eq, ◌==◌,
  Among, inl, inr, arith,
}
use feathub.Dict.{contains, is_subset}
use feathub.Errors.{Result, ok, bind-eq-ok, ok-injective, ◌>>=◌, guard-bind}
use feathub.Views.{
  Token, Feature, Transform, feature_names, expression_transform, python_udf_transform,
  sliding_window_transform, join_transform, java_udf_transform, over_window_transform,
}
use feathub.Views.Order.{contains-is_subset}
use feathub.Views.Sliding.{
  per_row_variables, check_per_row, check_sliding, sliding_variables, sliding_keys, group_keys,
}

-- The code reads variables, and each is allowed.
abbrev pub Reads : Result (List String) → (String → Bool) → Type 0
Reads variables allowed =
    (vs : List String) × (variables ≡ ok vs)
    × ((v : String) → contains v vs ≡ true → allowed v ≡ true)

module _ (lexer : String → List Token) where
  pub check_per_row-Reads :
      (valid : List String) (fs : List Feature) (f : Feature)
      → check_per_row lexer valid fs ≡ ok tt
      → Among f fs
      → Reads
          (per_row_variables lexer f f.transform)
          (λ v. contains v valid || contains v (feature_names fs))
  unfolding check_per_row contains
  check_per_row-Reads valid [] f h m = elim m [ ]
  check_per_row-Reads valid (g ∷ fs) f h m =
      let (vs, h1, h2) = bind-eq-ok (per_row_variables lexer g g.transform) _ h in
      let (sub, h3) = guard-bind (is_subset vs valid) _ _ h2 in
      elim m [
        | inl e ↦ (
          vs,
          ap (λ f. per_row_variables lexer f f.transform) e ∙ h1,
          λ v k. (rw (contains-is_subset v vs valid sub k) refl),
        )
        | inr m ↦
            let (ws, r, allowed) = check_per_row-Reads (g.name ∷ valid) fs f h3 m in
            (
              ws,
              r,
              λ v k.
                  moved (g.name == v) (contains v valid) (contains v (feature_names fs))
                    (allowed v k),
            )
      ]
    where
      moved : (a b c : Bool) → ((a || b) || c) ≡ true → (b || (a || c)) ≡ true
      moved a b c h = ground arith

  abbrev pub sliding_reads : Transform → Result (List String)
  sliding_reads t = sliding_variables lexer t >>= (λ p. ok p.0)

  pub check_sliding-Reads :
      (valid : List String) (fs : List Feature) (f : Feature) {kss : List (List String)}
      → check_sliding lexer valid fs ≡ ok kss
      → Among f fs
      → Reads (sliding_reads f.transform) (λ v. contains v valid)
  unfolding check_sliding contains
  check_sliding-Reads valid [] f h m = elim m [ ]
  check_sliding-Reads valid (g ∷ fs) f h m =
      let ((vs, ks), h1, h2) = bind-eq-ok (sliding_variables lexer g.transform) _ h in
      let (sub, h3) = guard-bind (is_subset vs valid) _ _ h2 in
      let (rest, h4, h5) = bind-eq-ok (check_sliding lexer valid fs) _ h3 in
      elim m [
        | inl e ↦ (
          vs,
          ap (λ f. sliding_reads f.transform) e ∙ ap (λ r. r >>= (λ p. ok p.0)) h1,
          λ v k. contains-is_subset v vs valid sub k,
        )
        | inr m ↦ check_sliding-Reads valid fs f h4 m
      ]

  sliding_keys-some :
      (t : Transform) {vs ks : List String}
      → sliding_variables lexer t ≡ ok (vs, ks)
      → sliding_keys t ≡ some ks
  sliding_keys-some (expression_transform e) h = cc
  sliding_keys-some (join_transform e k) h = cc
  sliding_keys-some python_udf_transform h = cc
  sliding_keys-some (java_udf_transform schema) h = cc
  sliding_keys-some (over_window_transform e g ks) h = cc
  sliding_keys-some (sliding_window_transform e g ks s) h = ap some (ap (λ p. p.1) (ok-injective h))

  pub sliding_reads-keys :
      (t : Transform) {vs : List String}
      → sliding_reads t ≡ ok vs
      → (ks : List String) × (sliding_keys t ≡ some ks)
  sliding_reads-keys (expression_transform e) h = cc
  sliding_reads-keys (join_transform e k) h = cc
  sliding_reads-keys python_udf_transform h = cc
  sliding_reads-keys (java_udf_transform schema) h = cc
  sliding_reads-keys (over_window_transform e g ks) h = cc
  sliding_reads-keys (sliding_window_transform e g ks s) h = (ks, refl)

  pub check_sliding-eq-group_keys :
      (valid : List String) (fs : List Feature) {kss : List (List String)}
      → check_sliding lexer valid fs ≡ ok kss
      → kss ≡ group_keys fs
  unfolding check_sliding group_keys
  check_sliding-eq-group_keys valid [] h = sym (ok-injective h)
  check_sliding-eq-group_keys valid (g ∷ fs) h =
      let ((vs, ks), h1, h2) = bind-eq-ok (sliding_variables lexer g.transform) _ h in
      let (sub, h3) = guard-bind (is_subset vs valid) _ _ h2 in
      let (rest, h4, h5) = bind-eq-ok (check_sliding lexer valid fs) _ h3 in
      rw (sliding_keys-some g.transform h1, sym (check_sliding-eq-group_keys valid fs h4))
        (sym (ok-injective h5))
