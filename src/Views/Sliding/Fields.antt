-- ===== src/Views/Sliding/Fields.antt =====
-- Which fields a sliding feature view outputs.
use feathub.Prelude.{◌≡◌, ◌||◌, ◌&&◌, String, List, [], ◌∷◌, ◌++◌, string_eq, ◌==◌, refl, arith}
use feathub.Dict.{contains}
use feathub.Views.{Feature, feature_names, all_keys}
use feathub.Views.Fields.{contains-append}
use feathub.Views.Names.{IsDistinct, contains-from_keys, from_keys-IsDistinct}
use feathub.Views.Sliding.{keep_fields, sliding_output_fields}

contains-keep_fields :
    (v : String) (fs keys : List String)
    → contains v (keep_fields fs keys) ≡ (contains v fs && contains v keys)
unfolding contains
contains-keep_fields v [] keys = refl
contains-keep_fields v (f ∷ fs) keys =
    ground (arith, contains-keep_fields v fs keys, string_eq.eqb_iff f v)

-- A sliding feature view outputs no field twice, and it outputs a field exactly if it is a field of the
-- source that is a key of a feature, or the timestamp field, or the name of a feature.
pub sliding_output_fields-IsDistinct :
    (timestamp_field : String) (features : List Feature) (source_fields : List String)
    → IsDistinct (sliding_output_fields timestamp_field features source_fields)
      × ((v : String)
          → contains v (sliding_output_fields timestamp_field features source_fields) ≡ (
              (contains v source_fields && contains v (all_keys features))
              || (timestamp_field == v || contains v (feature_names features))))
unfolding sliding_output_fields contains
sliding_output_fields-IsDistinct timestamp_field features source_fields = (
  from_keys-IsDistinct _,
  λ v.
      rw
        (
          contains-from_keys v (
              keep_fields source_fields (all_keys features)
              ++ timestamp_field ∷ feature_names features),
          contains-append v (keep_fields source_fields (all_keys features))
              (timestamp_field ∷ feature_names features),
          contains-keep_fields v source_fields (all_keys features),
        )
        refl,
)
