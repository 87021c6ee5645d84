-- ===== src/Dsl/Dialects.antt =====
-- Where the texts for Flink and for Spark are the same.
use feathub.Prelude.{◌≡◌, refl, false, String, List, Option, none, some}
use feathub.Errors.{Result, ok, err, ◌>>=◌}
use feathub.Dsl.{
  ExprAst, Args, binary_op, compare_op, logical_op, uminus_op, group_node, cast_op, value_node,
  variable_node, func_call_op, null_node, is_op, bracket_op, case_op, no_args, arg,
}
use feathub.Dsl.Sql.{
  Texts, flink_value, spark_value, flink_function, spark_function, sequence, flink_sql,
  flink_sql_each, spark_sql, spark_sql_each,
}

module _ {V : Type 0} (py : Texts V) where
  -- No boolean literal, no call of a function but LOWER, and casts only to types that Spark calls the same.
  unfoldable mutual
    pub IsCommon : ExprAst V → Type 0
    IsCommon (binary_op op left right) = IsCommon left × IsCommon right
    IsCommon (compare_op op left right) = IsCommon left × IsCommon right
    IsCommon (logical_op op left right) = IsCommon left × IsCommon right
    IsCommon (uminus_op child) = IsCommon child
    IsCommon (group_node child) = IsCommon child
    IsCommon (cast_op child type_name fails) =
        IsCommon child × (py.replace (py.upper type_name) "BYTES" "BINARY" ≡ type_name)
    IsCommon (value_node v) = py.is_bool v ≡ false
    IsCommon (variable_node name) = Unit {0}
    IsCommon (func_call_op name args) = (name ≡ "LOWER") × IsCommonEach args
    IsCommon null_node = Unit {0}
    IsCommon (is_op left is_not) = IsCommon left
    IsCommon (bracket_op left right) = IsCommon left × IsCommon right
    IsCommon (case_op conditions results default) =
        IsCommonEach conditions × IsCommonEach results × IsCommon default

    pub IsCommonEach : Args V → Type 0
    IsCommonEach no_args = Unit {0}
    IsCommonEach (arg a more) = IsCommon a × IsCommonEach more

  value_agrees :
      (v : V) (s : Option String) → py.is_bool v ≡ false → flink_value py v s ≡ spark_value py v s
  unfolding flink_value spark_value
  value_agrees v none h = rw h refl
  value_agrees v (some s) h = refl

  same_call :
      (name : String)
      → name ≡ "LOWER"
      → (ss : Result (List String))
      → (ss >>= flink_function py name) ≡ (ss >>= spark_function py name)
  unfolding flink_function spark_function
  same_call name h (ok ss) = rw h refl
  same_call name h (err raised) = refl

  mutual
    unfolding flink_sql spark_sql IsCommon

    agrees : (e : ExprAst V) → IsCommon e → flink_sql py e ≡ spark_sql py e
    agrees (binary_op op left right) (h, k) = rw (agrees left h, agrees right k) refl
    agrees (compare_op op left right) (h, k) = rw (agrees left h, agrees right k) refl
    agrees (logical_op op left right) (h, k) = rw (agrees left h, agrees right k) refl
    agrees (uminus_op child) h = rw (agrees child h) refl
    agrees (group_node child) h = rw (agrees child h) refl
    agrees (cast_op child type_name fails) (h, k) = rw (agrees child h, k) refl
    agrees (value_node v) h = rw (value_agrees v (py.as_str v) h) refl
    agrees (variable_node name) h = refl
    agrees (func_call_op name args) (h, k) =
        rw (agrees_each args k) (same_call name h (sequence py (spark_sql_each py args)))
    agrees null_node h = refl
    agrees (is_op left is_not) h = rw (agrees left h) refl
    agrees (bracket_op left right) (h, k) = rw (agrees left h, agrees right k) refl
    agrees (case_op conditions results default) (h, k, l) =
        rw (agrees_each conditions h, agrees_each results k, agrees default l) refl

    agrees_each :
        (args : Args V) → IsCommonEach args → flink_sql_each py args ≡ spark_sql_each py args
    agrees_each no_args h = refl
    agrees_each (arg a more) (h, k) = rw (agrees a h, agrees_each more k) refl

  -- An expression without boolean literals, whose only function is LOWER and whose casts are to types
  -- that Spark calls the same, has the same text from the evaluator of Flink and that of Spark, or the
  -- same exception from both.
  pub sql-IsCommon : (e : ExprAst V) → IsCommon e → flink_sql py e ≡ spark_sql py e
  sql-IsCommon e h = agrees e h
