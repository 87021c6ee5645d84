-- ===== src/Materialization.antt =====
-- materialization_group.py, and materialize_features of processors/local/local_processor.py: the
-- operations of a group, carried out one after the other as one job.
pub mod Executed
mod Tests
use feathub.Prelude.{
  Bool, true, false, ◌&&◌, not, String, List, [], ◌∷◌, ◌++◌, Option, none, some, if◌then◌else◌,
}
use feathub.Errors.{Error, Result, ok, err, feathub_exception, runtime_error, ◌>>=◌}

-- MaterializationDescriptor; a time to live is in milliseconds.
pub record MaterializationDescriptor (Source Sink Date Span : Type 0) : Type 0 where
  pub feature_descriptor : Source
  pub sink : Sink
  pub ttl : Option Span
  pub start_datetime : Option Date
  pub end_datetime : Option Date
  pub allow_overwrite : Bool

-- A state after a call, with what the call returned or raised.
abbrev pub Outcome : Type 0 → Type 0
Outcome S = S × Result (Unit {0})

-- MaterializationGroup.materialize_features
unfoldable pub add_operation : {D : Type 0} → D → List D → List D
add_operation descriptor operations = operations ++ descriptor ∷ []

module _ {D S : Type 0} where
  -- The operations that are left once the processor's job returned or raised.
  abbrev pub cleared : List D → Outcome S → List D × Outcome S
  cleared operations (state, ok done) = ([], (state, ok done))
  cleared operations (state, err raised) = (operations, (state, err raised))

  -- MaterializationGroup.execute, for a processor's materialize_features
  unfoldable pub execute : (List D → S → Outcome S) → List D → S → List D × Outcome S
  execute materialize [] state = ([], (state, err feathub_exception))
  execute materialize (d ∷ more) state = cleared (d ∷ more) (materialize (d ∷ more) state)

abbrev pub is_unsupported :
    {Source Sink Date Span : Type 0} → MaterializationDescriptor Source Sink Date Span → Bool
is_unsupported d = elim d.ttl [ none ↦ not d.allow_overwrite | some span ↦ true ]

abbrev pub write_read :
    {Source Sink S F : Type 0}
    → (Source → F → Sink → S → Outcome S)
    → Source
    → Sink
    → Result F
    → S
    → Outcome S
write_read write source sink (ok df) state = write source df sink state
write_read write source sink (err raised) state = (state, err raised)

abbrev pub go_on : {S : Type 0} → (S → Outcome S) → Outcome S → Outcome S
go_on rest (state, ok done) = rest state
go_on rest (state, err raised) = (state, err raised)

-- For _resolve_table_descriptor, which may build features in the registry, get_table of the resolved
-- features, and materialize_dataframe to the sink.
module _ {Source Table Sink Date Span S F : Type 0} (resolve : Source → S → S × Result Table)
    (read : Table → Option Date → Option Date → S → Result F)
    (write : Table → F → Sink → S → Outcome S) where
  abbrev pub write_resolved :
      MaterializationDescriptor Source Sink Date Span → S × Result Table → Outcome S
  write_resolved d (state, ok features) =
      write_read write features d.sink (read features d.start_datetime d.end_datetime state) state
  write_resolved d (state, err raised) = (state, err raised)

  -- A round of the loop.
  unfoldable pub materialize_one : MaterializationDescriptor Source Sink Date Span → S → Outcome S
  materialize_one d state =
      if is_unsupported d
      then (state, err runtime_error)
      else write_resolved d (resolve d.feature_descriptor state)

  -- LocalProcessor.materialize_features
  unfoldable pub materialize_features :
      List (MaterializationDescriptor Source Sink Date Span) → S → Outcome S
  materialize_features [] state = (state, ok tt)
  materialize_features (d ∷ ds) state = go_on (materialize_features ds) (materialize_one d state)

-- Where the dataframe goes, by the type of the sink: a file with whether it is local, and a sink with
-- whether Spark writes to it.
pub data Sink : Type 0 where
  memory_store_sink : String → Sink
  file_system_sink : String → Bool → Sink
  other_sink : Bool → Sink

-- LocalProcessor.materialize_dataframe, for the store's put and the writers of files and of Spark.
module _ {F S : Type 0} (put : String → List String → F → S → Outcome S)
    (insert_into_file_sink : String → F → S → Outcome S)
    (materialize_using_spark : Sink → F → S → Outcome S) where
  abbrev pub put_with_keys : String → Option (List String) → F → S → Outcome S
  put_with_keys table_name none df state = (state, err feathub_exception)
  put_with_keys table_name (some keys) df state = put table_name keys df state

  unfoldable pub materialize_dataframe : Option (List String) → F → Sink → S → Outcome S
  materialize_dataframe keys df (memory_store_sink table_name) state =
      put_with_keys table_name keys df state
  materialize_dataframe keys df (file_system_sink path is_local) state =
      if is_local
      then insert_into_file_sink path df state
      else materialize_using_spark (file_system_sink path is_local) df state
  materialize_dataframe keys df (other_sink is_supported) state =
      if is_supported
      then materialize_using_spark (other_sink is_supported) df state
      else (state, err runtime_error)
