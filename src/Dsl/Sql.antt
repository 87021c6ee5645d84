-- ===== src/Dsl/Sql.antt =====
-- processors/flink/ast_evaluator and processors/spark/ast_evaluator: expressions as texts of SQL, by two
-- evaluators that share no code.
use Prim.Native.String.{◌++◌}
use feathub.Prelude.{
  Bool, String, List, [], ◌∷◌, Option, none, some, string_eq, ◌==◌, if◌then◌else◌,
}
use feathub.Errors.{Result, ok, err, runtime_error, index_error, ◌>>=◌}
use feathub.Dsl.{
  ExprAst, Args, binary_op, compare_op, logical_op, uminus_op, group_node, cast_op, value_node,
  variable_node, func_call_op, null_node, is_op, bracket_op, case_op, no_args, arg,
}

-- Python's `str`, its methods on texts, and `Template(...).substitute`.
pub record Texts (V : Type 0) : Type 0 where
  pub str : V → String
  pub as_str : V → Option String
  pub is_bool : V → Bool
  pub upper : String → String
  pub lower : String → String
  pub replace : String → String → String → String
  pub substitute : String → List (String × String) → Result String

-- `", ".join(args)`
unfoldable pub join : List String → String
join [] = ""
join (s ∷ []) = s
join (s ∷ t ∷ ss) = s ++ (", " ++ join (t ∷ ss))

module _ {V : Type 0} (py : Texts V) where
  unfoldable pub to_java_date_format : String → Result String
  to_java_date_format python_format = py.substitute (py.replace python_format "%" "$") (
      ("Y", "yyyy")
      ∷ ("m", "MM")
      ∷ ("d", "dd")
      ∷ ("H", "HH")
      ∷ ("M", "mm")
      ∷ ("S", "ss")
      ∷ ("f", "SSS")
      ∷ ("z", "X")
      ∷ [])

  abbrev pub call : String → List String → String
  call name args = name ++ ("(" ++ (join args ++ ")"))

  -- The arguments of UNIX_TIMESTAMP with the format as Java's.
  unfoldable pub timestamp_args : List String → Result (List String)
  timestamp_args (t ∷ format ∷ args) = do f ← to_java_date_format format; ok (t ∷ f ∷ args)
  timestamp_args args = ok args

  abbrev pub as_string : String → String
  as_string a = "CAST(" ++ (a ++ " AS STRING)")

  abbrev pub cast_all : List String → List String
  cast_all [] = []
  cast_all (a ∷ args) = as_string a ∷ cast_all args

  abbrev pub cast_rest : List String → List String
  cast_rest [] = []
  cast_rest (a ∷ args) = a ∷ cast_all args

  unfoldable pub flink_function : String → List String → Result String
  flink_function name args =
      if name == "LOWER"
      then ok (call name args)
      else if name == "JSON_STRING"
      then ok (call name args)
      else if name == "CONCAT"
      then ok (call name (cast_all args))
      else if name == "CONCAT_WS"
      then ok (call name (cast_rest args))
      else if name == "UNIX_TIMESTAMP"
      then (do ts ← timestamp_args args; ok (call name ts))
      else if name == "MAP"
      then ok ("MAP[" ++ (join args ++ "]"))
      else if name == "ARRAY"
      then ok ("ARRAY[" ++ (join args ++ "]"))
      else if name == "SIZE"
      then ok (call "CARDINALITY" args)
      else err runtime_error

  abbrev pub json_string : List String → Result String
  json_string [] = err index_error
  json_string (a ∷ args) =
      let json = "TO_JSON(ARRAY(" ++ (a ++ "))") in
      ok (
        "NVL2("
        ++ (a ++ (", substring(" ++ (json ++ (", 2, length(" ++ (json ++ ") - 2), NULL)"))))))

  unfoldable pub spark_function : String → List String → Result String
  spark_function name args =
      if name == "LOWER"
      then ok (call name args)
      else if name == "MAP"
      then ok (call name args)
      else if name == "CONCAT"
      then ok (call name args)
      else if name == "CONCAT_WS"
      then ok (call name args)
      else if name == "SIZE"
      then ok (call name args)
      else if name == "UNIX_TIMESTAMP"
      then (do ts ← timestamp_args args; ok (call "TO_UNIX_TIMESTAMP" ts))
      else if name == "JSON_STRING"
      then json_string args
      else err runtime_error

  -- eval_value_node of FlinkAstEvaluator, and of SparkAstEvaluator
  unfoldable pub flink_value : V → Option String → String
  flink_value v (some text) = "'" ++ (text ++ "'")
  flink_value v none = if py.is_bool v then py.upper (py.str v) else py.str v

  unfoldable pub spark_value : V → Option String → String
  spark_value v (some text) = "'" ++ (text ++ "'")
  spark_value v none = if py.is_bool v then py.lower (py.str v) else py.str v

  abbrev pub cast_word : Bool → String
  cast_word exception_on_failure = if exception_on_failure then "CAST(" else "TRY_CAST("

  abbrev pub else_text : ExprAst V → Result String → Result String
  else_text null_node r = ok ""
  else_text _ r = do s ← r; ok ("ELSE " ++ (s ++ " "))

  -- The loop over the zip of the conditions and the results.
  unfoldable pub when_text : List (Result String) → List (Result String) → Result String
  when_text (c ∷ cs) (r ∷ rs) = do
    condition ← c
    result ← r
    rest ← when_text cs rs
    ok ("WHEN " ++ (condition ++ (" THEN " ++ (result ++ (" " ++ rest)))))
  when_text _ _ = ok ""

  abbrev pub sequence : List (Result String) → Result (List String)
  sequence [] = ok []
  sequence (r ∷ rs) = do s ← r; ss ← sequence rs; ok (s ∷ ss)

  abbrev pub infixed : String → Result String → Result String → Result String
  infixed op left right = do l ← left; r ← right; ok (l ++ (" " ++ (op ++ (" " ++ r))))

  -- FlinkAstEvaluator
  unfoldable mutual
    pub flink_sql : ExprAst V → Result String
    flink_sql (binary_op op left right) = infixed op (flink_sql left) (flink_sql right)
    flink_sql (compare_op op left right) = infixed op (flink_sql left) (flink_sql right)
    flink_sql (logical_op op left right) = infixed op (flink_sql left) (flink_sql right)
    flink_sql (uminus_op child) = do s ← flink_sql child; ok ("-" ++ s)
    flink_sql (group_node child) = do s ← flink_sql child; ok ("(" ++ (s ++ ")"))
    flink_sql (cast_op child type_name fails) = do
      s ← flink_sql child
      ok (cast_word fails ++ (s ++ (" AS " ++ (type_name ++ ")"))))
    flink_sql (value_node v) = ok (flink_value v (py.as_str v))
    flink_sql (variable_node name) = ok ("`" ++ (name ++ "`"))
    flink_sql (func_call_op name args) = do
      ss ← sequence (flink_sql_each args)
      flink_function name ss
    flink_sql null_node = ok "NULL"
    flink_sql (is_op left is_not) = do
      s ← flink_sql left
      ok (s ++ (if is_not then " IS NOT NULL" else " IS NULL"))
    flink_sql (bracket_op left right) = do
      l ← flink_sql left
      r ← flink_sql right
      ok (l ++ ("[" ++ (r ++ "]")))
    flink_sql (case_op conditions results default) = do
      cases ← when_text (flink_sql_each conditions) (flink_sql_each results)
      rest ← else_text default (flink_sql default)
      ok ("CASE " ++ (cases ++ (rest ++ "END")))

    pub flink_sql_each : Args V → List (Result String)
    flink_sql_each no_args = []
    flink_sql_each (arg a more) = flink_sql a ∷ flink_sql_each more

  -- SparkAstEvaluator
  unfoldable mutual
    pub spark_sql : ExprAst V → Result String
    spark_sql (binary_op op left right) = infixed op (spark_sql left) (spark_sql right)
    spark_sql (compare_op op left right) = infixed op (spark_sql left) (spark_sql right)
    spark_sql (logical_op op left right) = infixed op (spark_sql left) (spark_sql right)
    spark_sql (uminus_op child) = do s ← spark_sql child; ok ("-" ++ s)
    spark_sql (group_node child) = do s ← spark_sql child; ok ("(" ++ (s ++ ")"))
    spark_sql (cast_op child type_name fails) = do
      s ← spark_sql child
      ok (
          cast_word fails
          ++ (s ++ (" AS " ++ (py.replace (py.upper type_name) "BYTES" "BINARY" ++ ")"))))
    spark_sql (value_node v) = ok (spark_value v (py.as_str v))
    spark_sql (variable_node name) = ok ("`" ++ (name ++ "`"))
    spark_sql (func_call_op name args) = do
      ss ← sequence (spark_sql_each args)
      spark_function name ss
    spark_sql null_node = ok "NULL"
    spark_sql (is_op left is_not) = do
      s ← spark_sql left
      ok (s ++ (if is_not then " IS NOT NULL" else " IS NULL"))
    spark_sql (bracket_op left right) = do
      l ← spark_sql left
      r ← spark_sql right
      ok (l ++ ("[" ++ (r ++ "]")))
    spark_sql (case_op conditions results default) = do
      cases ← when_text (spark_sql_each conditions) (spark_sql_each results)
      rest ← else_text default (spark_sql default)
      ok ("CASE " ++ (cases ++ (rest ++ "END")))

    pub spark_sql_each : Args V → List (Result String)
    spark_sql_each no_args = []
    spark_sql_each (arg a more) = spark_sql a ∷ spark_sql_each more
