-- ===== src/Dsl/Tests.antt =====
-- Expressions on small rows, and the theorems at them.
use mathlib.Core.List.{Permᴰ}
use feathub.Prelude.{◌≡◌, refl, false, String, List, [], ◌∷◌, none, string_eq, nat_eq}
use feathub.Dict.{get}
use feathub.Errors.{ok}
use feathub.Types.{BasicDType, DType, primitive_type}
use feathub.Types.Conversions.{PythonType}
use feathub.Dsl.{
  func_call_op, ExprAst, binary_op, compare_op, group_node, value_node, variable_node, null_node,
  case_op, no_args, arg, new_case_op, new_builder, case, build,
}
use feathub.Dsl.PlainValues.{Value, nothing, truth_value, number, python}
use feathub.Dsl.Precision.{rank, higher, fold_higher, get_higher_precision_type}
use feathub.Dsl.Dtypes.{eval_dtype}
use feathub.Dsl.Dtypes.Sets.{eval_dtype-Perm}
use feathub.Dsl.Local.{eval, eval_case, eval_binary, eval_compare}
use feathub.Dsl.Sql.{Texts, flink_sql, flink_value, spark_sql, join, flink_function}
use feathub.Dsl.Dialects.{IsCommon, sql-IsCommon}

abbrev a_plus_one : ExprAst Value
a_plus_one = group_node (binary_op "+" (variable_node "a") (value_node (number 1)))

-- CASE WHEN a < 5 THEN (a + 1) WHEN a / 0 THEN NULL END
abbrev guarded : ExprAst Value
guarded =
    case_op
      (arg (compare_op "<" (variable_node "a") (value_node (number 5)))
        (arg (binary_op "/" (variable_node "a") (value_node (number 0))) no_args))
      (arg a_plus_one (arg null_node no_args)) null_node

abbrev row_a : List (String × Value)
row_a = ("a", number 3) ∷ ("b", number 1) ∷ []

abbrev row_b : List (String × Value)
row_b = ("b", nothing) ∷ ("a", number 3) ∷ []

guarded_run : eval python tt row_a guarded ≡ ok (number 4)
unfolding eval eval_case eval_compare eval_binary get
guarded_run = refl

build_run :
    build (case (variable_node "a") (value_node (number 1)) new_builder)
    ≡ ok (case_op (arg (variable_node "a") no_args) (arg (value_node (number 1)) no_args) null_node)
unfolding build case new_builder new_case_op
build_run = refl

abbrev float64 : DType
float64 = primitive_type BasicDType.float64

abbrev int32 : DType
int32 = primitive_type BasicDType.int32

higher_run : get_higher_precision_type (int32 ∷ float64 ∷ []) ≡ ok float64
unfolding get_higher_precision_type fold_higher higher rank
higher_run = refl

abbrev swapped : List DType → List DType
swapped (a ∷ b ∷ ts) = b ∷ a ∷ ts
swapped ts = ts

swapped-Perm : (ts : List DType) → Permᴰ ts (swapped ts)
swapped-Perm [] = Permᴰ.nil
swapped-Perm (a ∷ []) = Permᴰ.cons refl Permᴰ.nil
swapped-Perm (a ∷ b ∷ ts) = Permᴰ.swap refl refl

abbrev python_type : Value → PythonType
python_type nothing = PythonType.other
python_type (truth_value b) = PythonType.bool
python_type (number n) = PythonType.int

eval_dtype-Perm_example :
    eval_dtype python_type (λ ts. ts) (("a", float64) ∷ []) guarded
    ≡ eval_dtype python_type swapped (("a", float64) ∷ []) guarded
eval_dtype-Perm_example =
    eval_dtype-Perm python_type (("a", float64) ∷ []) (λ ts. ts) swapped swapped-Perm guarded

abbrev digits : Value → String
digits (number n) = "1"
digits _ = "None"

abbrev python_texts : Texts Value
python_texts = record {
  str = digits;
  as_str = λ v. none;
  is_bool = λ v. false;
  upper = λ s. s;
  lower = λ s. s;
  replace = λ s a b. s;
  substitute = λ s m. ok s;
}

plus_run : flink_sql python_texts a_plus_one ≡ ok "(`a` + 1)"
unfolding flink_sql flink_value
plus_run = refl

concat_run :
    flink_sql python_texts
      (func_call_op "CONCAT_WS" (arg (variable_node "s") (arg (variable_node "a") no_args)))
    ≡ ok "CONCAT_WS(`s`, CAST(`a` AS STRING))"
unfolding flink_sql flink_function join
concat_run = refl

sql-IsCommon_example : flink_sql python_texts guarded ≡ spark_sql python_texts guarded
unfolding IsCommon
sql-IsCommon_example =
    sql-IsCommon python_texts guarded (((tt, refl), ((tt, refl), tt)), ((tt, refl), (tt, tt)), tt)
