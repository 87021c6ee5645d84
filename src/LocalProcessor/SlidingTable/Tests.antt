-- ===== src/LocalProcessor/SlidingTable/Tests.antt =====
-- The loop over the features of a small sliding view: a column, a window, the window's time, and a
-- feature of the window.
use feathub.Prelude.{◌≡◌, refl, true, List, [], ◌∷◌, none, some, string_eq, nat_eq, list_eq}
use feathub.Dict.{get, insert, contains}
use feathub.Errors.{ok}
use feathub.Common.Rows.{cell}
use feathub.Aggregation.{AggFunc, Numpy}
use feathub.Dsl.{variable_node}
use feathub.Dsl.Local.{eval}
use feathub.Dsl.PlainValues.{Value, number, nothing, python, value_eq}
use feathub.LocalProcessor.OverWindow.{Pandas}
use feathub.LocalProcessor.Frame.{Frame, set_cells, set_column}
use feathub.LocalProcessor.Tables.{Expressions, evaluate_expression_transform}
use feathub.SlidingWindow.{AggregationFieldDescriptor}
use feathub.LocalProcessor.SlidingTable.{
  SlidingFeature, SlidingWindowDescriptor, Prepared, expression, sliding_window, add_column,
  add_columns, prepare_features,
}
use feathub.LocalProcessor.SlidingTable.Loop.{prepare_features-parts}
use feathub.LocalProcessor.SlidingTable.Places.{
  prepared, before, after, others, aggs_of, first_window, SameAs,
}

abbrev numpy : Numpy Value
numpy = record {
  null = nothing;
  of_length = number;
  of_list = λ vs. nothing;
  mean = λ vs. nothing;
  total = λ vs. nothing;
  largest = λ vs. nothing;
  smallest = λ vs. nothing;
  counts = λ vs. nothing;
}

abbrev pandas : Pandas Value
pandas = record {
  indices = λ ks rows. [];
  sort_values = λ rows. rows;
  mask = λ v. ok true;
  of_time = λ t. nothing;
}

abbrev expressions : Expressions Value
expressions = record {
  parse = λ text. ok (variable_node text);
  is_id = λ text. true;
  get_var_name = λ text. text;
  apply_empty = ok [];
}

abbrev trips : AggregationFieldDescriptor
trips = record {
  field_name = "trips";
  expr = "zone";
  agg_func = AggFunc.count;
  window_size = 3600000;
  filter_expr = none;
  limit = none;
}

abbrev double : SlidingFeature Value
double = record { name = "double"; transform = expression "trips" }

abbrev features : List (SlidingFeature Value)
features =
    record { name = "zone"; transform = expression "area" }
    ∷ record { name = "trips"; transform = sliding_window 60000 ("zone" ∷ []) trips }
    ∷ record { name = "window_time"; transform = expression "GET_WINDOW_TIME()" }
    ∷ double
    ∷ []

abbrev source : Frame Value
source = record { columns = "area" ∷ []; rows = (("area", number 3) ∷ []) ∷ [] }

abbrev zoned : Frame Value
zoned = record {
  columns = "area" ∷ "zone" ∷ [];
  rows = (("area", number 3) ∷ ("zone", number 3) ∷ []) ∷ [];
}

abbrev each_minute : SlidingWindowDescriptor
each_minute = record { step_size = 60000; group_by_keys = "zone" ∷ [] }

abbrev parts : Prepared Value
parts = prepared zoned (some each_minute) (trips ∷ []) (double ∷ [])

parts_run :
    prepare_features python numpy pandas expressions tt "window_time" features
      (prepared source none [] [])
    ≡ ok parts
unfolding prepare_features add_column evaluate_expression_transform eval set_column set_cells cell
    get insert contains
parts_run = refl

prepare_features-parts_example :
    (df : Frame Value) × (add_columns python numpy pandas expressions tt
        (before (others "window_time" features))
        source
      ≡ ok df)
    × (parts
        ≡ prepared df
            (first_window (others "window_time" features))
            (aggs_of (others "window_time" features))
            (after (others "window_time" features)))
    × SameAs (first_window (others "window_time" features)) (others "window_time" features)
prepare_features-parts_example =
    prepare_features-parts python numpy pandas expressions tt "window_time" features source
      parts_run
