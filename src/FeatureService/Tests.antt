-- ===== src/FeatureService/Tests.antt =====
-- Tests of the local feature service.
use feathub.Prelude.{◌≡◌, refl, true, String, List, [], ◌∷◌, ◌++◌, none, ℕ, nat_eq, ◌+◌}
use feathub.Dict.{get as dict_get, insert}
use feathub.Common.Actions.{Post}
use feathub.Errors.{Result, ok, err, key_error}
use feathub.Common.Rows.{Row}
use feathub.LocalProcessor.Frame.{Frame, set_cells, set_column, select_fields, select_cells}
use feathub.Common.Rows.{cell}
use feathub.OnlineStore.{MemoryOnlineStore}
use feathub.OnlineStore.Get.{Pandas}
use feathub.Views.{Feature, Transform, join_transform, expression_transform}
use feathub.FeatureService.{
  remote_source, on_demand, OnDemandView, by_name, Service, get_view, output_of, serve,
  evaluate_join, evaluate_expression, get_online_store_client, get_online_features,
}
use feathub.FeatureService.Served.{Keeps, get_online_features-columns}

abbrev pandas : Pandas ℕ
pandas = record { concat = λ rows. err key_error; astype = λ types df. ok df }

abbrev no_tables : MemoryOnlineStore ℕ
no_tables = record { table_infos = [] }

abbrev feature : String → Transform → Feature
feature name transform = record {
  name = name;
  transform = transform;
  keys = none;
  input_features = [];
}

abbrev view : OnDemandView
view = record {
  features =
      feature "age" (join_transform "users" "age")
      ∷ feature "next" (expression_transform "age + 1")
      ∷ [];
  output_fields = λ fields. fields ++ "next" ∷ [];
}

abbrev add_age : List (Row ℕ) → List (Row ℕ)
add_age [] = []
add_age (row ∷ rows) = (row ++ ("age", 30) ∷ []) ∷ add_age rows

abbrev next_age : Result ℕ → Result ℕ
next_age (ok n) = ok (n + 1)
next_age (err e) = err e

abbrev service : Service ℕ
service = record {
  Client = String;
  eval = λ expr row. next_age (cell "age" row);
  apply_empty = ok [];
  is_id = λ expr. true;
  get_var_name = λ expr. expr;
  get_source = λ name. ok (remote_source name);
  get_entry = λ name. ok (on_demand view);
  instantiate = λ name. ok name;
  client_get = λ c df names. ok (record { columns = df.columns ++ names; rows = add_age df.rows });
}

abbrev request : Frame ℕ
request = record { columns = "id" ∷ []; rows = (("id", 7) ∷ []) ∷ [] }

abbrev answer : Frame ℕ
answer = record { columns = "id" ∷ "next" ∷ []; rows = (("id", 7) ∷ ("next", 31) ∷ []) ∷ [] }

request_run :
    get_online_features pandas no_tables service request (by_name "view") none []
    ≡ (ok answer, ("users", "users") ∷ [])
unfolding get_online_features serve evaluate_join evaluate_expression get_online_store_client
    dict_get insert set_column set_cells select_fields select_cells cell
request_run = refl

get_online_features-columns_example :
    Post
      (λ result after.
        Keeps pandas no_tables service [] after
        × (v : OnDemandView) × (get_view pandas no_tables service (by_name "view") ≡ ok v)
        × (result.columns ≡ output_of pandas no_tables service none v request.columns))
      (λ raised after. Keeps pandas no_tables service [] after)
      (get_online_features pandas no_tables service request (by_name "view") none [])
get_online_features-columns_example =
    get_online_features-columns pandas no_tables service request (by_name "view") none []
