-- ===== src/Views/Fields.antt =====
-- Which fields a feature view outputs.
use feathub.Prelude.{
  ◌≡◌, refl, Bool, true, false, ◌&&◌, ◌||◌, not, String, List, [], ◌∷◌, ◌++◌, Option, string_eq,
  arith,
}
use feathub.Dict.{contains}
use feathub.Views.{
  Feature, feature_names, difference, intersection, timestamp_fields, all_keys, get_output_fields,
}

pub contains-append :
    (f : String) (xs ys : List String) → contains f (xs ++ ys) ≡ (contains f xs || contains f ys)
unfolding contains
contains-append f [] ys = refl
contains-append f (x ∷ xs) ys = ground (arith, contains-append f xs ys)

contains-difference :
    (f : String) (xs ys : List String)
    → contains f (difference xs ys) ≡ (contains f xs && not (contains f ys))
unfolding contains
contains-difference f [] ys = refl
contains-difference f (x ∷ xs) ys =
    ground (arith, contains-difference f xs ys, string_eq.eqb_iff x f)

contains-intersection :
    (f : String) (xs ys : List String)
    → contains f (intersection xs ys) ≡ (contains f xs && contains f ys)
unfolding contains
contains-intersection f [] ys = refl
contains-intersection f (x ∷ xs) ys =
    ground (arith, contains-intersection f xs ys, string_eq.eqb_iff x f)

-- A feature view outputs a field exactly if it is the name of one of its features, or a field of the
-- source that is kept: any, where the source fields are kept, and otherwise the timestamp field and
-- the keys of the features.
pub contains-get_output_fields :
    (f : String) (keep : Bool) (timestamp_field : Option String) (features : List Feature)
    (source_fields : List String)
    → contains f (get_output_fields keep timestamp_field features source_fields) ≡ (
        contains f (feature_names features)
        || (contains f source_fields
            && (keep
                || contains f (timestamp_fields timestamp_field)
                || contains f (all_keys features))))
unfolding get_output_fields
contains-get_output_fields f true timestamp_field features source_fields =
    rw
      (
        contains-append f
            (intersection source_fields (difference source_fields (feature_names features)))
            (feature_names features),
        contains-intersection f source_fields (difference source_fields (feature_names features)),
        contains-difference f source_fields (feature_names features),
      )
      (ground arith)
contains-get_output_fields f false timestamp_field features source_fields =
    let kept = timestamp_fields timestamp_field ++ all_keys features in
    rw
      (
        contains-append f (intersection source_fields (difference kept (feature_names features)))
            (feature_names features),
        contains-intersection f source_fields (difference kept (feature_names features)),
        contains-difference f kept (feature_names features),
        contains-append f (timestamp_fields timestamp_field) (all_keys features),
      )
      (ground arith)
