-- ===== src/Views/Sliding/Split.antt =====
-- How the validation of a sliding feature view splits the features at the first sliding window.
use feathub.Prelude.{
  ◌≡◌, refl, sym, ap, ◌∙◌, Bool, true, false, not, List, [], ◌∷◌, ◌++◌, keep, if◌then◌else◌,
  append_assoc, append-nil, ◌⊎◌, inl, inr,
}
use feathub.Errors.{ok, ok-injective, bind-eq-ok}
use feathub.Views.{
  Feature, Transform, expression_transform, python_udf_transform, sliding_window_transform,
  join_transform, java_udf_transform, over_window_transform,
}
use feathub.Views.Sliding.{Parts, split_features, add_feature, add_sliding, add_per_row}

abbrev pub is_window : Transform → Bool
is_window (sliding_window_transform e g ks s) = true
is_window _ = false

abbrev pub is_sliding : Feature → Bool
is_sliding f = is_window f.transform

abbrev pub slidings : List Feature → List Feature
slidings fs = keep is_sliding fs

abbrev pub per_rows : List Feature → List Feature
per_rows fs = keep (λ f. not (is_sliding f)) fs

-- The features before the first with a sliding window.
abbrev pub before : List Feature → List Feature
before [] = []
before (f ∷ fs) = if is_sliding f then [] else f ∷ before fs

-- The features after the first with a sliding window that have none themselves.
abbrev pub after : List Feature → List Feature
after [] = []
after (f ∷ fs) = if is_sliding f then per_rows fs else after fs

abbrev pub parts_of : List Feature → List Feature → List Feature → Parts
parts_of pre sliding post = record {
  pre_sliding_features = pre;
  sliding_features = sliding;
  post_sliding_features = post;
}

add_feature-cases :
    (f : Feature) (t : Transform) (parts : Parts) {next : Parts}
    → add_feature f t parts ≡ ok next
    → ((is_window t ≡ true) × (next ≡ add_sliding f parts))
      ⊎ ((is_window t ≡ false) × (next ≡ add_per_row f parts))
add_feature-cases f (expression_transform e) parts h = inr (refl, sym (ok-injective h))
add_feature-cases f (join_transform e k) parts h = cc
add_feature-cases f python_udf_transform parts h = inr (refl, sym (ok-injective h))
add_feature-cases f (java_udf_transform schema) parts h = cc
add_feature-cases f (over_window_transform e g ks) parts h = cc
add_feature-cases f (sliding_window_transform e g ks s) parts h = inl (refl, sym (ok-injective h))

later :
    (fs pre : List Feature) (s : Feature) (ss post : List Feature) {parts : Parts}
    → split_features fs (parts_of pre (s ∷ ss) post) ≡ ok parts
    → parts ≡ parts_of pre (s ∷ ss ++ slidings fs) (post ++ per_rows fs)
unfolding split_features
later [] pre s ss post h = rw (append-nil ss, append-nil post) (sym (ok-injective h))
later (f ∷ fs) pre s ss post h =
    let (next, h1, h2) = bind-eq-ok (add_feature f f.transform (parts_of pre (s ∷ ss) post)) _ h in
    elim (add_feature-cases f f.transform _ h1) [
      | inl (e, n) ↦
          rw (e, sym (append_assoc ss (f ∷ []) (slidings fs)))
            (later fs pre s (ss ++ f ∷ []) post (ap (split_features fs) (sym n) ∙ h2))
      | inr (e, n) ↦
          rw (e, sym (append_assoc post (f ∷ []) (per_rows fs)))
            (later fs pre s ss (post ++ f ∷ []) (ap (split_features fs) (sym n) ∙ h2))
    ]

first :
    (fs pre post : List Feature) {parts : Parts}
    → split_features fs (parts_of pre [] post) ≡ ok parts
    → parts ≡ parts_of (pre ++ before fs) (slidings fs) (post ++ after fs)
unfolding split_features
first [] pre post h = rw (append-nil pre, append-nil post) (sym (ok-injective h))
first (f ∷ fs) pre post h =
    let (next, h1, h2) = bind-eq-ok (add_feature f f.transform (parts_of pre [] post)) _ h in
    elim (add_feature-cases f f.transform _ h1) [
      | inl (e, n) ↦
          rw (e, append-nil pre) (later fs pre f [] post (ap (split_features fs) (sym n) ∙ h2))
      | inr (e, n) ↦
          rw (e, sym (append_assoc pre (f ∷ []) (before fs)))
            (first fs (pre ++ f ∷ []) post (ap (split_features fs) (sym n) ∙ h2))
    ]

pub split_features-eq-parts_of :
    (fs : List Feature) {parts : Parts}
    → split_features fs (parts_of [] [] []) ≡ ok parts
    → parts ≡ parts_of (before fs) (slidings fs) (after fs)
split_features-eq-parts_of fs h = first fs [] [] h
