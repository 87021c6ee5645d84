-- ===== src/Views/OnDemand.antt =====
-- feature_views/on_demand_feature_view.py: the constructor and the build of an on-demand feature view.
pub mod Supported
mod Tests
use feathub.Prelude.{
  Bool, true, false, ◌&&◌, ◌||◌, not, String, List, [], ◌∷◌, Option, none, some, ℕ, ◌==◌, nat_eq,
  if◌then◌else◌, length, ◌⊎◌, inl, inr,
}
use feathub.Errors.{Result, ok, err, runtime_error, index_error, guard, ◌>>=◌, ◌>>◌}
use feathub.Views.{Transform, Feature, Texts, join_transform, expression_transform, new_feature}
use feathub.Views.FeatureView.{Table, View, new_feature_view, get_feature}
use feathub.Views.Derived.{quoted, resolved}

-- A table of the registry, and whether it is a MemoryStoreSource, a RedisSource or a MySQLSource.
pub record Registered : Type 0 where
  pub table : Table
  pub is_online : Bool

abbrev pub is_supported : Transform → Bool
is_supported (join_transform table expr) = true
is_supported (expression_transform expr) = true
is_supported _ = false

module _ (parts : String → List String) where
  -- The loop of the constructor.
  unfoldable pub check_supported : List (String ⊎ Feature) → Result (Unit {0})
  check_supported [] = ok tt
  check_supported (inl feature_str ∷ fs) =
      guard (length (parts feature_str) == 2) runtime_error >> check_supported fs
  check_supported (inr f ∷ fs) =
      guard (is_supported f.transform) runtime_error >> check_supported fs

  -- OnDemandFeatureView.__init__, where no feature is a string; `source` has the fields of the request
  unfoldable pub new_on_demand_view : Table → List Feature → Bool → Result View
  new_on_demand_view source features keep_source_fields = do
    view ← new_feature_view source features keep_source_fields none
    check_supported (resolved view.features) >> ok view

  module _ (texts : Texts) (get_features : String → Result Registered) where
    abbrev pub online_feature : String → String → Registered → Result Feature
    online_feature table_name name registered = do
      done ← guard registered.is_online runtime_error
      found ← get_feature registered.table name
      new_feature texts name (join_transform table_name (quoted name)) registered.table.keys []

    abbrev pub on_demand_feature_of : List String → Result Feature
    on_demand_feature_of [] = err index_error
    on_demand_feature_of (table_name ∷ []) = err index_error
    on_demand_feature_of (table_name ∷ name ∷ more) = do
      registered ← get_features table_name
      online_feature table_name name registered

    -- The loop of build.
    unfoldable pub resolve_on_demand : List (String ⊎ Feature) → Result (List Feature)
    resolve_on_demand [] = ok []
    resolve_on_demand (inl feature_str ∷ refs) = do
      f ← on_demand_feature_of (parts feature_str)
      rest ← resolve_on_demand refs
      ok (f ∷ rest)
    resolve_on_demand (inr f ∷ refs) = do rest ← resolve_on_demand refs; ok (f ∷ rest)

    -- OnDemandFeatureView.build
    unfoldable pub build_on_demand_view : Table → List (String ⊎ Feature) → Bool → Result View
    build_on_demand_view source refs keep_source_fields = do
      features ← resolve_on_demand refs
      new_on_demand_view source features keep_source_fields
