-- ===== src/Lib.antt =====
-- FeatHub, a feature store: the parts of its Python SDK that decide what feature values are computed,
-- kept and served (python/feathub).
--
-- A user describes tables of features; a registry resolves the descriptions; a processor computes the
-- tables; an online store keeps the latest row of each key.
--
-- * Types (common/types.py) and Schema (table/schema.py): data types, their JSON form, schemas and
--   their builder (Schema.Builder).
--   `Types.RoundTrip.to_json` and `from_json` are the methods of the three classes, with the metadata
--   of common/utils.py in Common/Json.
-- * OnlineStore (online_stores/memory_online_store.py): `put` on the dictionary of tables. An exception
--   is returned beside the store, since rows that were written before it stay written. `write_row` is
--   one round of the loop over the rows, `keep_later` the comparison with the existing row.
--   OnlineStore.Get is `get`: the rows that are found, and the joins and columns of the result.
-- * Aggregation (feature_views/transforms/agg_func.py, processors/local/aggregation_utils.py).
-- * SlidingWindow (processors/local/sliding_window_utils.py): the loop `while True` of
--   _sliding_window_func. `run` is the loop, `step_slot` the body of its `for` loop, `advance` its two
--   inner loops, `emit` the comparison with the last row of the result.
-- * Config (common/config.py, common/validators.py): the loop that reads the definitions of a
--   configuration, and the validators.
-- * Registry (registries/local_registry.py) and Registry.MySql (registries/mysql_registry.py): the
--   cache of descriptors, and the cache over a database, a state that also gives the time.
--   Registry.MySql.Register has build_features and register_features.
-- * Views (feature_views): features, what a derived view validates, and the fields that a view outputs.
--   Views.FeatureView is the constructor that all views share; Views.Sliding, Views.Derived and
--   Views.OnDemand are the constructors, checks and builds of the three kinds of view, from the source
--   that the registry has built.
-- * Dsl (dsl/ast.py, dsl/built_in_func.py, processors/local/ast_evaluator): expressions as trees with
--   the source's classes, `eval_dtype`, and `eval` of the local evaluator. Each method eval_<node> is the
--   function of that name on the values of the children. Dsl.Sql is the pair of evaluators that write
--   SQL for Flink and Spark (processors/flink/ast_evaluator, processors/spark/ast_evaluator).
-- * LocalProcessor (processors/local/local_processor.py): `evaluate_join` is the nest of loops of
--   _evaluate_join_transform, `join_row` the body of the loop over the joined table;
--   `evaluate_over_window` is _evaluate_over_window_transform, with what it should give in
--   LocalProcessor/OverReference. LocalProcessor.Tables and LocalProcessor.SlidingTable are the tables
--   of derived and sliding views, LocalProcessor.Dependent the order of their features, and
--   LocalProcessor.GetTable the filters of get_table by keys and by time.
-- * Flink (processors/flink). Flink.FlinkTypes (flink_types_utils.py) converts types. Flink.Builder is
--   the class FlinkTableBuilder (table_builder/flink_table_builder.py): `get_table` is _get_table over
--   the state of the builder, which an exception leaves as it was when it was raised, and
--   Flink.Builder.Build has build and _build. Flink.Planner and Flink.Sliding are the methods for
--   derived and sliding views, which fill the fields `derive` and `slide` of the builder's `Calls`: a
--   loop over the features makes a plan, which is then carried out; Flink.Composed fills them.
--   Flink.Aggregations has the descriptors of aggregation_utils.py and join_utils.py.
-- * Spark.SparkTypes (processors/spark/spark_types_utils.py): types and schemas of Spark.
-- * FeatureService (feature_service/local_feature_service.py): online features over OnlineStore.Get,
--   with the clients of other stores as the state, which an exception keeps.
-- * Materialization (materialization_group.py, and the methods materialize_features and
--   materialize_dataframe of the local processor): a group of operations on a state.
--
-- Shared: Prelude, Errors (common/exceptions.py; a result type, messages dropped), Dict (Python's
-- dict as an association list in the order of insertion), Common/Time (to_unix_timestamp), and
-- Common/Actions (methods that change a state and may raise, with what holds in either case).
--
-- Parameters. `datetime`, numpy, pandas, Python's operations on values and texts, the lexer, the
-- database, the Table API of Flink and, in SlidingWindow, the evaluation of expressions are arguments of
-- the definitions that use them; so are the order in which a set of features is iterated over and, in
-- Views, the tables that the registry returns. The data types of features are left out of Views and
-- LocalProcessor: there the cast of a column to its type is an argument. Values of cells are of any
-- type; where they are compared as keys the type has a decidable equality, which leaves NaN out. Rows of
-- a DataFrame have positions; its index stands beside them where the code reads it, in the over window.
-- Timestamps are whole microseconds, event times of windows whole local milliseconds from 1970 on.
--
-- Fuel. The inner loops of a window take as fuel the number of rows, which their lemmas show to be
-- enough; the outer loop takes the latest time plus the largest window plus two, and each round moves
-- the window's end on by the step, so that it ends when the step is positive. The search for a default
-- name takes one turn more than there are names. The builder of tables for Flink takes a bound on the
-- depth of its recursion, as Python has one; a depth above the rank of a descriptor is enough.
--
-- Not modelled: the builder of Spark, the SQL that Flink runs for joins and windows, the submission of
-- jobs, the connectors and the metric stores, which build jobs for other systems; the parser's grammar,
-- which a generator reads; the command line and the examples.
pub mod Prelude
pub mod Errors
pub mod Dict
pub mod Common
pub mod Types
pub mod Schema
pub mod Aggregation
pub mod Config
pub mod Dsl
pub mod FeatureService
pub mod Flink
pub mod LocalProcessor
pub mod Materialization
pub mod OnlineStore
pub mod Registry
pub mod SlidingWindow
pub mod Spark
pub mod Views
