-- ===== src/Flink/Builder/Build.antt =====
-- build and _build of processors/flink/table_builder/flink_table_builder.py: the table of a
-- descriptor, for some keys and a range of times.
pub mod Cleared
use feathub.Prelude.{
  ◌≡◌, refl, Bool, true, false, ◌||◌, String, List, [], ◌∷◌, Option, none, some, ℕ, string_eq,
  HasEq, if◌then◌else◌,
}
use feathub.Prelude.Int.{ℤ}
use feathub.Dict.{contains, is_subset}
use feathub.Common.Actions.{lift, put, fail, ◌>>=◌, continue_with}
use feathub.Errors.{Error, Result, ok, err, feathub_exception}
use feathub.LocalProcessor.OverWindow.{event_time_attribute}
use feathub.Flink.Descriptors.{
  Descriptor, feature_table, derived_view, sliding_view, sql_view, other_descriptor,
}
use feathub.Flink.Builder.Steps.{BuilderState, Step}
use feathub.Flink.Builder.{Calls, State, get_table, clear_built_tables}

-- The Table API and join_table_on_key. Times are in milliseconds.
pub record Operations (Table : Type 0) : Type 1 where
  pub DataFrame : Type 0
  pub from_pandas : DataFrame → Table
  pub field_names : Table → List String
  pub join_table_on_key : Table → Table → List String → Result Table
  pub filter_from : ℤ → Table → Result Table
  pub filter_before : ℤ → Table → Result Table
  pub drop_columns : String → Table → Result Table

abbrev pub timestamp_field_of : Descriptor → Option String
timestamp_field_of (feature_table t) = t.timestamp_field
timestamp_field_of (derived_view v source) = v.timestamp_field
timestamp_field_of (sliding_view v source) = v.view.timestamp_field
timestamp_field_of (sql_view v) = v.timestamp_field
timestamp_field_of (other_descriptor o) = o.timestamp_field

module _ (calls : Calls) (operations : Operations (calls.Table)) ⦃same : HasEq Descriptor⦄ where
  open calls use {Table}
  open operations use {DataFrame, field_names}

  -- Union[pd.DataFrame, TableDescriptor]
  pub data Keys : Type 0 where
    data_frame : DataFrame → Keys
    descriptor : Descriptor → Keys

  abbrev pub key_table : ℕ → Keys → Step Table Table
  key_table n (data_frame df) = put (operations.from_pandas df)
  key_table n (descriptor d) = get_table calls n d

  unfoldable pub filter_table_by_keys : ℕ → Option Keys → Table → Step Table Table
  filter_table_by_keys n none table = put table
  filter_table_by_keys n (some ks) table = do
    key_rows ← key_table n ks
    let names = field_names key_rows in
        if is_subset names (field_names table)
        then lift (operations.join_table_on_key key_rows table names)
        else fail feathub_exception

  abbrev pub bounded_by : (ℤ → Table → Result Table) → Option ℤ → Table → Step Table Table
  bounded_by filter none table = put table
  bounded_by filter (some t) table = lift (filter t table)

  unfoldable pub range_table_by_time : Option ℤ → Option ℤ → Table → Step Table Table
  range_table_by_time start end table = do
    later ← bounded_by operations.filter_from start table
    bounded_by operations.filter_before end later

  abbrev pub is_given : Option ℤ → Bool
  is_given none = false
  is_given (some t) = true

  -- `if start_datetime is not None or end_datetime is not None`
  abbrev pub ranged : Option String → Option ℤ → Option ℤ → Table → Step Table Table
  ranged timestamp_field none none table = put table
  ranged none start end table = fail feathub_exception
  ranged (some field) start end table = range_table_by_time start end table

  abbrev pub without_event_time : Table → Step Table Table
  without_event_time table =
      if contains event_time_attribute (field_names table)
      then lift (operations.drop_columns event_time_attribute table)
      else put table

  -- _build, for a view that is resolved or not
  unfoldable pub build_table :
      ℕ → Bool → Descriptor → Option Keys → Option ℤ → Option ℤ → Step Table Table
  unfolding filter_table_by_keys range_table_by_time
  build_table n true d ks start end = fail feathub_exception
  build_table n false d ks start end = do
    table ← get_table calls n d
    filtered ← filter_table_by_keys n ks table
    in_range ← ranged (timestamp_field_of d) start end filtered
    without_event_time in_range

  -- `finally: if clear_built_tables: self.clear_built_tables()`
  abbrev pub finish : {A : Type 0} → Bool → Result A × State calls → Result A × State calls
  finish true (r, s) = (r, clear_built_tables calls s)
  finish false (r, s) = (r, s)

  unfoldable pub build :
      ℕ → Bool → Bool → Descriptor → Option Keys → Option ℤ → Option ℤ → Step Table Table
  unfolding build_table
  build n clear unresolved d ks start end s =
      finish clear (build_table n unresolved d ks start end s)
