-- ===== src/FeatureService.antt =====
-- feature_service/local_feature_service.py: online features, from an on-demand view and a request.
pub mod Served
mod Tests
use feathub.Prelude.{
  Bool, true, false, String, List, [], ◌∷◌, Option, none, some, string_eq, HasEq, if◌then◌else◌,
}
use feathub.Dict.{get as dict_get, insert}
use feathub.Common.Actions.{lift, put, fail, ◌>>=◌}
use feathub.Errors.{
  Result, ok, err, feathub_exception, runtime_error, guard, ◌>>=◌ as and_then, traverse,
}
use feathub.Common.Rows.{Row}
use feathub.LocalProcessor.Frame.{Frame, set_column, select_fields}
use feathub.OnlineStore.{DataFrame, MemoryOnlineStore}
use feathub.OnlineStore.Get.{Pandas, get as memory_get}
use feathub.Views.{Feature, Transform, join_transform, expression_transform}

-- What the registry has under the name of a joined table.
pub data Source : Type 0 where
  -- with the name of its table in the store
  memory_store_source : String → Source
  -- a RedisSource or a MySQLSource, with its own name
  remote_source : String → Source
  other_source : Source

-- An OnDemandFeatureView, resolved, with its own get_output_fields.
pub record OnDemandView : Type 0 where
  pub features : List Feature
  pub output_fields : List String → List String

-- An entry of the registry: an on-demand view or not.
pub data Entry : Type 0 where
  on_demand : OnDemandView → Entry
  not_on_demand : Entry

-- `feature_view`: a name, or a view that is resolved or not.
pub data ViewArgument : Type 0 where
  by_name : String → ViewArgument
  unresolved : String → ViewArgument
  resolved : OnDemandView → ViewArgument

-- The parser with the evaluator, what `df.apply(...).tolist()` gives without rows, the expressions that are names, the registry, and the clients of
-- other stores.
pub record Service (V : Type 0) : Type 1 where
  pub Client : Type 0
  pub eval : String → Row V → Result V
  pub apply_empty : Result (List V)
  pub is_id : String → Bool
  pub get_var_name : String → String
  pub get_source : String → Result Source
  pub get_entry : String → Result Entry
  pub instantiate : String → Result Client
  pub client_get : Client → Frame V → List String → Result (Frame V)

module _ {V : Type 0} ⦃e : HasEq V⦄ (pd : Pandas V) (store : MemoryOnlineStore V)
    (service : Service V) where
  open service use {Client}

  -- `self.online_store_clients`, the state of the service
  abbrev pub Clients : Type 0
  Clients = List (String × Client)

  abbrev pub Served : Type 0 → Type 0
  Served A = Clients → Result A × Clients

  -- `MemoryOnlineStore.get_instance().get(table_name=..., input_data=...)`
  abbrev pub from_memory : String → Frame V → Result (Frame V)
  from_memory table df =
      and_then
        (memory_get pd store table (record { columns = df.columns; rows = df.rows }) none false)
        (λ result. ok (record { columns = result.0.columns; rows = result.0.rows }))

  abbrev pub keep_client : String → Client → Served Client
  keep_client name c clients = (ok c, insert name c clients)

  abbrev pub client_or_new : String → Option Client → Served Client
  client_or_new name (some c) = put c
  client_or_new name none = do c ← lift (service.instantiate name); keep_client name c

  -- _get_online_store_client
  unfoldable pub get_online_store_client : String → Served Client
  unfolding dict_get insert
  get_online_store_client name clients = client_or_new name (dict_get name clients) clients

  abbrev pub from_source : Source → String → Frame V → Served (Frame V)
  from_source (memory_store_source table) expr df = lift (from_memory table df)
  from_source (remote_source name) expr df = do
    c ← get_online_store_client name
    lift (service.client_get c df (service.get_var_name expr ∷ []))
  from_source other_source expr df = fail runtime_error

  -- _evaluate_join_transform
  unfoldable pub evaluate_join : String → String → Frame V → Served (Frame V)
  unfolding get_online_store_client memory_get
  evaluate_join table expr df = do
    done ← lift (guard (service.is_id expr) feathub_exception)
    source ← lift (service.get_source table)
    from_source source expr df

  -- `df.apply(f, axis=1).tolist()`
  abbrev pub apply_each : (Row V → Result V) → List (Row V) → Result (List V)
  apply_each f [] = service.apply_empty
  apply_each f (row ∷ rows) = traverse f (row ∷ rows)

  -- _evaluate_expression_transform
  unfoldable pub evaluate_expression : String → String → Frame V → Result (Frame V)
  unfolding set_column
  evaluate_expression expr name df =
      and_then (apply_each (service.eval expr) df.rows) (λ values. set_column name values df)

  abbrev pub serve_by : Transform → Feature → Frame V → Served (Frame V)
  serve_by (join_transform table expr) f df = evaluate_join table expr df
  serve_by (expression_transform expr) f df = lift (evaluate_expression expr f.name df)
  serve_by _ f df = fail runtime_error

  -- the loop over the features
  unfoldable pub serve : List Feature → Frame V → Served (Frame V)
  unfolding evaluate_join evaluate_expression
  serve [] df = put df
  serve (f ∷ fs) df = do next ← serve_by f.transform f df; serve fs next

  -- _get_on_demand_feature_view_from_registry
  abbrev pub of_entry : Entry → Result OnDemandView
  of_entry (on_demand view) = ok view
  of_entry not_on_demand = err feathub_exception

  abbrev pub get_view : ViewArgument → Result OnDemandView
  get_view (resolved view) = ok view
  get_view (by_name name) = and_then (service.get_entry name) of_entry
  get_view (unresolved name) = and_then (service.get_entry name) of_entry

  abbrev pub output_of : Option (List String) → OnDemandView → List String → List String
  output_of none view input_fields = view.output_fields input_fields
  output_of (some names) view input_fields = names

  unfoldable pub get_online_features :
      Frame V → ViewArgument → Option (List String) → Served (Frame V)
  unfolding serve select_fields
  get_online_features request_df argument feature_names = do
    view ← lift (get_view argument)
    served ← serve view.features request_df
    lift (select_fields (output_of feature_names view request_df.columns) served)
