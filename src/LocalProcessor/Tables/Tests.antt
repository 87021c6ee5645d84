-- ===== src/LocalProcessor/Tables/Tests.antt =====
-- A derived view of two expressions, on a small table.
use feathub.Prelude.{◌≡◌, refl, ℕ, true, false, String, List, [], ◌∷◌, none, string_eq, nat_eq}
use feathub.Dict.{get, insert, contains}
use feathub.Errors.{Result, ok}
use feathub.Common.Rows.{Row, cell}
use feathub.Aggregation.{Numpy}
use feathub.Dsl.{variable_node}
use feathub.Dsl.Local.{eval}
use feathub.Dsl.PlainValues.{Value, number, nothing, python, value_eq}
use feathub.LocalProcessor.OverWindow.{Pandas}
use feathub.LocalProcessor.Frame.{Frame, set_cells, set_column, column, select_cells, select_fields}
use feathub.LocalProcessor.Tables.{
  LocalFeature, DerivedView, Expressions, expression, python_udf, evaluate_feature,
  evaluate_expression_transform, compute_feature, compute_features, load_tables, filter_dataframe,
  get_table_from_derived_feature_view,
}
use feathub.LocalProcessor.Tables.Columns.{compute_features-column, feature_values, local_names}

abbrev numpy : Numpy Value
numpy = record {
  null = nothing;
  of_length = number;
  of_list = λ vs. nothing;
  mean = λ vs. nothing;
  total = λ vs. nothing;
  largest = λ vs. nothing;
  smallest = λ vs. nothing;
  counts = λ vs. nothing;
}

abbrev pandas : Pandas Value
pandas = record {
  indices = λ ks rows. [];
  sort_values = λ rows. rows;
  mask = λ v. ok true;
  of_time = λ t. nothing;
}

abbrev expressions : Expressions Value
expressions = record {
  parse = λ text. ok (variable_node text);
  is_id = λ text. true;
  get_var_name = λ text. text;
  apply_empty = ok [];
}

abbrev price : LocalFeature Value
price = record { name = "price"; transform = expression "cost"; keys = none }

abbrev tag : LocalFeature Value
tag = record { name = "tag"; transform = python_udf (λ row. cell "price" row); keys = none }

abbrev view : DerivedView Value
view = record {
  features = price ∷ tag ∷ [];
  timestamp_field = none;
  timestamp_format = none;
  filter_expr = none;
  output_fields = λ fields. "price" ∷ "tag" ∷ [];
}

abbrev source : Frame Value
source = record {
  columns = "cost" ∷ [];
  rows = (("cost", number 3) ∷ []) ∷ (("cost", number 5) ∷ []) ∷ [];
}

abbrev computed_row : ℕ → Row Value
computed_row n = ("cost", number n) ∷ ("price", number n) ∷ ("tag", number n) ∷ []

abbrev computed : Frame Value
computed = record {
  columns = "cost" ∷ "price" ∷ "tag" ∷ [];
  rows = computed_row 3 ∷ computed_row 5 ∷ [];
}

abbrev cast : String → List Value → Result (List Value)
cast name values = ok values

compute_run :
    compute_features python numpy pandas expressions tt cast
      (0 ∷ 1 ∷ [])
      view
      []
      (price ∷ tag ∷ [])
      source
    ≡ ok computed
unfolding compute_features compute_feature evaluate_feature evaluate_expression_transform eval
    set_column set_cells cell get insert contains
compute_run = refl

table_run :
    get_table_from_derived_feature_view python numpy pandas expressions tt cast
      (0 ∷ 1 ∷ [])
      (λ name.
        ok (record {
          timestamp_field = none;
          timestamp_format = none;
          feature_keys = [];
          rows = [];
        }))
      view
      (price ∷ tag ∷ [])
      source
    ≡ ok (record {
      columns = "price" ∷ "tag" ∷ [];
      rows =
          (("price", number 3) ∷ ("tag", number 3) ∷ [])
          ∷ (("price", number 5) ∷ ("tag", number 5) ∷ [])
          ∷ [];
    })
unfolding get_table_from_derived_feature_view load_tables filter_dataframe select_fields
    select_cells compute_features compute_feature evaluate_feature evaluate_expression_transform
    eval set_column set_cells cell get insert contains
table_run = refl

compute_features-column_example :
    (df1 : Frame Value) × (compute_features python numpy pandas expressions tt cast
        (0 ∷ 1 ∷ [])
        view
        []
        (price ∷ [])
        source
      ≡ ok df1)
    × (column "tag" computed
        ≡ feature_values python numpy pandas expressions tt cast (0 ∷ 1 ∷ []) view [] tag df1)
    × ((other : String)
        → contains other (local_names (price ∷ tag ∷ [])) ≡ false
        → column other computed ≡ column other source)
unfolding contains
compute_features-column_example =
    compute_features-column python numpy pandas expressions tt cast (0 ∷ 1 ∷ []) view []
      (price ∷ []) [] tag source compute_run refl
