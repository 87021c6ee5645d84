-- ===== src/Dsl/Dtypes.antt =====
-- eval_dtype of dsl/ast.py, and the result types of dsl/built_in_func.py.
pub mod Sets
use feathub.Prelude.{
  ◌≡◌, refl, ℕ, Bool, true, false, String, List, [], ◌∷◌, Option, none, some, HasEq, ◌==◌,
  string_eq, if◌then◌else◌,
}
use feathub.Dict.{get}
use feathub.Errors.{
  Error, Result, ok, err, feathub_exception, feathub_expression_exception, not_implemented_error,
  runtime_error, index_error, ◌>>=◌,
}
use feathub.Types.{BasicDType, DType, primitive_type, vector_type, map_type, dtype_eq}
use feathub.Types.Conversions.{PythonType, from_python_type, get_type_by_name}
use feathub.Dsl.{
  ExprAst, Args, binary_op, compare_op, logical_op, uminus_op, group_node, cast_op, value_node,
  variable_node, func_call_op, null_node, is_op, bracket_op, case_op, no_args, arg,
}
use feathub.Dsl.Precision.{higher, get_higher_precision_type}

-- The loop of map_type_strategy after its first round.
unfoldable pub check_map_types : DType → DType → List DType → Result DType
check_map_types key value [] = ok (map_type key value)
check_map_types key value (k ∷ []) =
    if key == k then err index_error else err feathub_expression_exception
check_map_types key value (k ∷ v ∷ ts) =
    let rest = check_map_types key value ts in
    if key == k
    then (if value == v then rest else err feathub_expression_exception)
    else err feathub_expression_exception

unfoldable pub map_type_strategy : List DType → Result DType
unfolding check_map_types
map_type_strategy (k ∷ v ∷ ts) = check_map_types k v ts
map_type_strategy _ = err feathub_expression_exception

abbrev pub array_type_strategy : List DType → Result DType
array_type_strategy [] = err index_error
array_type_strategy (t ∷ ts) = ok (vector_type t)

abbrev string_type : DType
string_type = primitive_type BasicDType.string

abbrev bool_type : DType
bool_type = primitive_type BasicDType.boolean

-- BUILTIN_FUNC_DEF_MAP
abbrev pub builtin_funcs : List (String × (List DType → Result DType))
builtin_funcs =
    ("LOWER", λ ts. ok string_type)
    ∷ ("CONCAT", λ ts. ok string_type)
    ∷ ("CONCAT_WS", λ ts. ok string_type)
    ∷ ("UNIX_TIMESTAMP", λ ts. ok (primitive_type BasicDType.int64))
    ∷ ("JSON_STRING", λ ts. ok string_type)
    ∷ ("MAP", map_type_strategy)
    ∷ ("ARRAY", array_type_strategy)
    ∷ ("SIZE", λ ts. ok (primitive_type BasicDType.int32))
    ∷ []

-- get_builtin_func_def and get_result_type
unfoldable pub get_result_type_of : String → List DType → Result DType
unfolding get
get_result_type_of name types = elim (get name builtin_funcs) [
  | none ↦ err feathub_expression_exception
  | some strategy ↦ strategy types
]

unfoldable pub bracket_dtype : DType → DType → Result DType
bracket_dtype (map_type k v) t = if t == k then ok v else err feathub_expression_exception
bracket_dtype (vector_type d) t = err feathub_exception
bracket_dtype (primitive_type b) t = err feathub_expression_exception

-- The type of a case from the set of the types of its results, which `as_set` lists in some order.
unfoldable pub case_dtype : (List DType → List DType) → List DType → Result DType
case_dtype as_set types = elim (as_set types) [
  | [] ↦ get_higher_precision_type []
  | t ∷ ts ↦ elim ts [ [] ↦ ok t | u ∷ us ↦ get_higher_precision_type (t ∷ u ∷ us) ]
]

-- What the default adds to the types of the results.
abbrev pub default_dtype :
    {V : Type 0} → ExprAst V → Result DType → Result (List DType → List DType)
default_dtype null_node r = ok (λ ts. ts)
default_dtype _ r = do t ← r; ok (λ ts. t ∷ ts)

module _ {V : Type 0} (type_of : V → PythonType) (as_set : List DType → List DType)
    (variable_types : List (String × DType)) where
  unfoldable mutual
    pub eval_dtype : ExprAst V → Result DType
    eval_dtype (binary_op op left right) = do
      l ← eval_dtype left
      r ← eval_dtype right
      get_higher_precision_type (l ∷ r ∷ [])
    eval_dtype (compare_op op left right) = ok bool_type
    eval_dtype (logical_op op left right) = ok bool_type
    eval_dtype (uminus_op child) = eval_dtype child
    eval_dtype (group_node child) = eval_dtype child
    eval_dtype (cast_op child type_name fails) = get_type_by_name type_name
    eval_dtype (value_node v) = from_python_type (type_of v)
    eval_dtype (variable_node name) = elim (get name variable_types) [
      | none ↦ err runtime_error
      | some t ↦ ok t
    ]
    eval_dtype (func_call_op name args) = do ts ← eval_dtypes args; get_result_type_of name ts
    eval_dtype null_node = err not_implemented_error
    eval_dtype (is_op left is_not) = ok bool_type
    eval_dtype (bracket_op left right) = do
      l ← eval_dtype left
      r ← eval_dtype right
      bracket_dtype l r
    eval_dtype (case_op conditions results default) = do
      ts ← eval_dtypes results
      ds ← default_dtype default (eval_dtype default)
      case_dtype as_set (ds ts)

    pub eval_dtypes : Args V → Result (List DType)
    eval_dtypes no_args = ok []
    eval_dtypes (arg a more) = do t ← eval_dtype a; ts ← eval_dtypes more; ok (t ∷ ts)
