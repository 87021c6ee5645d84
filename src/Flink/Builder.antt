-- ===== src/Flink/Builder.antt =====
-- processors/flink/table_builder/flink_table_builder.py: the tables that are built for a descriptor,
-- with the cache of the built ones. What a call of one view's own code returns is an argument.
pub mod Build
pub mod Depth
pub mod Again
pub mod Ranked
pub mod Sound
pub mod Names
pub mod Reference
pub mod Steps
mod Tests
use feathub.Prelude.{
  Bool, true, false, ◌||◌, not, String, List, [], ◌∷◌, ◌++◌, Option, none, some, ℕ, zero, suc,
  if◌then◌else◌, string_eq, HasEq, ◌==◌, keep,
}
use feathub.Dict.{contains, get, insert, keys}
use feathub.Common.Actions.{lift, fail, put, ◌>>=◌, read}
use feathub.Errors.{
  Error, Result, ok, err, feathub_exception, key_error, recursion_error, validation_error,
}
use feathub.LocalProcessor.OverWindow.{event_time_attribute}
use feathub.LocalProcessor.Dependent.{append_new}
use feathub.Flink.Descriptors.{
  Feature, Transform, join_transform, View, SlidingView, SqlView, FeatureTable, Descriptor,
  feature_table, derived_view, sliding_view, sql_view, other_descriptor, name_of,
}
use feathub.Flink.Builder.Steps.{BuilderState, Step}

-- What the builder calls: Flink, the registry, and the code for each kind of view.
pub record Calls : Type 1 where
  pub Table : Type 0
  pub get_table_from_source : FeatureTable → Result Table
  -- from the source, its table, and the joined tables by name
  pub derive : View → Descriptor → Table → List (String × (Descriptor × Table)) → Result Table
  pub slide : SlidingView → Table → Result Table
  -- in the temporary views
  pub sql_query : List (String × Table) → SqlView → Result Table
  pub get_features : String → Result Descriptor
  -- the names that the registry holds, empty unless it is local
  pub registered : List String
  -- a set is iterated over in an order of its own
  pub iterate : List String → List String

-- `set([feature.transform.table_name for ... if isinstance(feature.transform, JoinTransform)])`
abbrev pub joined_table : Transform → List String
joined_table (join_transform table expr) = table ∷ []
joined_table _ = []

unfoldable pub table_names : List Feature → List String
table_names [] = []
table_names (f ∷ fs) = joined_table f.transform ++ table_names fs

module _ (calls : Calls) ⦃same : HasEq Descriptor⦄ where
  open calls use {Table}

  abbrev pub State : Type 0
  State = BuilderState Table

  -- the loop over `table_names`
  unfoldable pub joined_tables :
      (Descriptor → Step Table Table)
      → List String
      → Step Table (List (String × (Descriptor × Table)))
  joined_tables build [] = put []
  joined_tables build (name ∷ names) = do
    d ← lift (calls.get_features name)
    t ← build d
    rest ← joined_tables build names
    put ((name, (d, t)) ∷ rest)

  -- `create_temporary_view` of a name that is taken raises.
  abbrev pub create_temporary_view : String → Table → Step Table (Unit {0})
  create_temporary_view name t s =
      if contains name (keys s.temporary_views) then (err validation_error, s) else (
        ok tt,
        record {
          built_tables = s.built_tables;
          tables_being_built = s.tables_being_built;
          temporary_views = (name, t) ∷ s.temporary_views;
        },
      )

  abbrev pub skips : State → String → Bool
  skips s name = contains name (keys s.temporary_views) || contains name s.tables_being_built

  -- one round: a name that is skipped, or not
  abbrev pub create_view : (Descriptor → Step Table Table) → String → Bool → Step Table (Unit {0})
  create_view build name true = put tt
  create_view build name false = do
    d ← lift (calls.get_features name)
    t ← build d
    create_temporary_view name t

  -- the loop of _get_table_from_sql_feature_view
  unfoldable pub create_views :
      (Descriptor → Step Table Table) → List String → Step Table (Unit {0})
  create_views build [] = put tt
  create_views build (name ∷ names) = do
    skip ← read (λ s. skips s name)
    done ← create_view build name skip
    create_views build names

  -- The branches of _get_table for the classes.
  unfoldable pub construct : (Descriptor → Step Table Table) → Descriptor → Step Table Table
  unfolding joined_tables create_views table_names
  construct build (feature_table t) = lift (calls.get_table_from_source t)
  construct build (derived_view v source) = do
    source_table ← build source
    joined ← joined_tables build (calls.iterate (table_names v.features))
    lift (calls.derive v source source_table joined)
  construct build (sliding_view v source) = do
    source_table ← build source
    lift (calls.slide v source_table)
  construct build (sql_view v) = do
    done ← create_views build calls.registered
    views ← read (λ s. s.temporary_views)
    lift (calls.sql_query views v)
  construct build (other_descriptor o) = fail feathub_exception

  -- `self._tables_being_built.add(...)`, `self._built_tables[...] = ...`, `.remove(...)`
  abbrev pub mark : String → Step Table (Unit {0})
  mark name s = (
    ok tt,
    record {
      built_tables = s.built_tables;
      tables_being_built = append_new name s.tables_being_built;
      temporary_views = s.temporary_views;
    },
  )

  abbrev pub store : Descriptor → Table → Step Table (Unit {0})
  store d t s = (
    ok tt,
    record {
      built_tables = insert (name_of d) (d, t) s.built_tables;
      tables_being_built = s.tables_being_built;
      temporary_views = s.temporary_views;
    },
  )

  abbrev pub unmark : String → Step Table (Unit {0})
  unmark name s =
      if contains name s.tables_being_built
      then (
        ok tt,
        record {
          built_tables = s.built_tables;
          tables_being_built = keep (λ other. not (other == name)) s.tables_being_built;
          temporary_views = s.temporary_views;
        },
      )
      else (err key_error, s)

  -- `self._built_tables[features.name][1]`
  abbrev pub built : String → Step Table Table
  built name s = elim (get name s.built_tables) [
    | none ↦ (err key_error, s)
    | some (d, t) ↦ (ok t, s)
  ]

  -- the end of _get_table
  abbrev pub keep_built : Descriptor → Table → Step Table Table
  keep_built d t = do stored ← store d t; removed ← unmark (name_of d); built (name_of d)

  abbrev pub build_new : (Descriptor → Step Table Table) → Descriptor → Step Table Table
  build_new build d = do added ← mark (name_of d); t ← construct build d; keep_built d t

  -- the test of the cache, and of the descriptor in it
  abbrev pub from_cache :
      (Descriptor → Step Table Table) → Descriptor → Option (Descriptor × Table) → Step Table Table
  from_cache build d none = build_new build d
  from_cache build d (some (old, t)) = if d == old then put t else fail feathub_exception

  -- _get_table, for a bound on the depth of the recursion as Python's own
  unfoldable pub get_table : ℕ → Descriptor → Step Table Table
  unfolding construct
  get_table zero d s = (err recursion_error, s)
  get_table (suc n) d s = from_cache (get_table n) d (get (name_of d) s.built_tables) s

  -- clear_built_tables
  abbrev pub clear_built_tables : State → State
  clear_built_tables s = record {
    built_tables = [];
    tables_being_built = s.tables_being_built;
    temporary_views = s.temporary_views;
  }
