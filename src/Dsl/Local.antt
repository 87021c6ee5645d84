-- ===== src/Dsl/Local.antt =====
-- processors/local/ast_evaluator: the evaluation of expressions on a row.
use feathub.Prelude.{
  Bool, true, false, not, String, List, [], ◌∷◌, Option, none, some, ◌==◌, string_eq, if◌then◌else◌,
}
use feathub.Prelude.Int.{ℤ}
use feathub.Dict.{contains, get}
use feathub.Errors.{
  Result, ok, err, feathub_exception, feathub_expression_exception, runtime_error, index_error,
  ◌>>=◌, traverse,
}
use feathub.Common.Time.{Datetime, TimeValue, to_unix_timestamp}
use feathub.Common.Rows.{or_raise}
use feathub.Dsl.{
  ExprAst, Args, binary_op, compare_op, logical_op, uminus_op, group_node, cast_op, value_node,
  variable_node, func_call_op, null_node, is_op, bracket_op, case_op, no_args, arg,
}

-- Python's operations on values, and those of its libraries that the evaluators call.
pub record Python (V : Type 0) : Type 1 where
  pub none_value : V
  pub bool_value : Bool → V
  pub int_value : ℤ → V
  pub str_value : String → V
  pub dict_value : List (V × V) → Result V
  pub is_none : V → Bool
  pub as_bool : V → Option Bool
  pub as_str : V → Option String
  -- `np.isnan` where the value is a float or of a numpy type
  pub as_nan : V → Option (Result Bool)
  pub truth : V → Result Bool
  pub neg : V → Result V
  pub add : V → V → Result V
  pub sub : V → V → Result V
  pub mul : V → V → Result V
  pub truediv : V → V → Result V
  pub lt : V → V → Result V
  pub le : V → V → Result V
  pub gt : V → V → Result V
  pub ge : V → V → Result V
  pub eq : V → V → Result V
  pub ne : V → V → Result V
  pub is_in : V → V → Result Bool
  pub item : V → V → Result V
  pub len : V → Result V
  pub lower : V → Result V
  pub lower_text : String → String
  pub encode : String → V
  pub str : V → Result String
  pub int : V → Result V
  pub float : V → Result V
  pub join : V → List String → Result V
  pub json_dumps : V → Result V
  pub strptime : V → Result V
  pub dt : Datetime
  pub as_time : V → TimeValue (dt.Date)
  -- the format argument of `strptime`
  pub format_of : V → Result String
  pub int_of_timestamp : ℤ → V

module _ {V : Type 0} (py : Python V) where
  abbrev pub true_strings : List String
  true_strings = "t" ∷ "true" ∷ "y" ∷ "yes" ∷ "1" ∷ []

  abbrev pub false_strings : List String
  false_strings = "f" ∷ "false" ∷ "n" ∷ "no" ∷ "0" ∷ []

  unfoldable pub parse_bool : String → Result V
  unfolding contains
  parse_bool text =
      if contains (py.lower_text text) true_strings
      then ok (py.bool_value true)
      else if contains (py.lower_text text) false_strings
      then ok (py.bool_value false)
      else err feathub_exception

  abbrev pub cast_boolean : V → Option String → Result V
  cast_boolean v (some text) = parse_bool text
  cast_boolean v none = do b ← py.truth v; ok (py.bool_value b)

  abbrev pub cast_bytes : Option String → Result V
  cast_bytes (some text) = ok (py.encode text)
  cast_bytes none = err feathub_exception

  -- _eval_cast_node, on the value of the child.
  unfoldable pub cast_value : String → V → Result V
  unfolding contains
  cast_value type_name v =
      if py.is_none v
      then ok py.none_value
      else if type_name == "BYTES"
      then cast_bytes (py.as_str v)
      else if type_name == "STRING"
      then (do s ← py.str v; ok (py.str_value s))
      else if type_name == "INTEGER"
      then py.int v
      else if type_name == "BIGINT"
      then py.int v
      else if type_name == "FLOAT"
      then py.float v
      else if type_name == "DOUBLE"
      then py.float v
      else if type_name == "BOOLEAN"
      then cast_boolean v (py.as_str v)
      else if type_name == "TIMESTAMP"
      then py.strptime v
      else err feathub_expression_exception

  -- eval_cast_node, around the evaluation of the child and the cast.
  unfoldable pub eval_cast : Bool → Result V → Result V
  eval_cast exception_on_failure (ok v) = ok v
  eval_cast true (err e) = err e
  eval_cast false (err e) = ok py.none_value

  unfoldable pub eval_binary : String → V → V → Result V
  eval_binary op l r =
      if py.is_none l
      then ok py.none_value
      else if py.is_none r
      then ok py.none_value
      else if op == "+"
      then py.add l r
      else if op == "-"
      then py.sub l r
      else if op == "*"
      then py.mul l r
      else if op == "/"
      then py.truediv l r
      else err runtime_error

  unfoldable pub eval_compare : String → V → V → Result V
  eval_compare op l r =
      if op == "<"
      then py.lt l r
      else if op == "<="
      then py.le l r
      else if op == ">"
      then py.gt l r
      else if op == ">="
      then py.ge l r
      else if op == "="
      then py.eq l r
      else if op == "<>"
      then py.ne l r
      else err runtime_error

  -- `and` and `or` of Python, which give one of the two values.
  unfoldable pub eval_logical : String → V → V → Result V
  eval_logical op l r =
      if op == "AND"
      then (do b ← py.truth l; ok (if b then r else l))
      else if op == "OR"
      then (do b ← py.truth l; ok (if b then l else r))
      else ok py.none_value

  unfoldable pub eval_is_none : V → Option (Result Bool) → Result Bool
  eval_is_none v none = ok (py.is_none v)
  eval_is_none v (some nan) = nan

  abbrev pub negate : Bool → Bool → Bool
  negate is_not b = if is_not then not b else b

  unfoldable pub eval_bracket : V → V → Result V
  eval_bracket l r = do b ← py.is_in r l; if b then py.item l r else ok py.none_value

  -- The loop of MAP over the values, two at a time.
  abbrev pub pairs_of : List V → Result (List (V × V))
  pairs_of [] = ok []
  pairs_of (k ∷ []) = err feathub_exception
  pairs_of (k ∷ v ∷ vs) = do ps ← pairs_of vs; ok ((k, v) ∷ ps)

  -- `values[0]`, and None for None.
  abbrev pub on_first : (V → List V → Result V) → List V → Result V
  on_first f [] = err index_error
  on_first f (v ∷ vs) = f v vs

  abbrev pub unless_none : V → Result V → Result V
  unless_none v r = if py.is_none v then ok py.none_value else r

  -- The format of `to_unix_timestamp`, which has a default.
  abbrev pub timestamp_format : List V → Result String
  timestamp_format [] = ok "%Y-%m-%d %H:%M:%S"
  timestamp_format (f ∷ vs) = py.format_of f

  unfoldable pub unix_timestamp : py.dt.Tz → V → List V → Result V
  unix_timestamp tz v vs = unless_none v (do
    format ← timestamp_format vs
    t ← to_unix_timestamp py.dt (py.as_time v) format tz
    ok (py.int_of_timestamp t))

  -- LocalFuncEvaluator.eval
  unfoldable pub eval_func : py.dt.Tz → String → List V → Result V
  eval_func tz name values =
      if name == "LOWER"
      then on_first (λ v vs. py.lower v) values
      else if name == "CONCAT"
      then (do ss ← traverse py.str values; py.join (py.str_value "") ss)
      else if name == "CONCAT_WS"
      then on_first (λ v vs. do ss ← traverse py.str vs; py.join v ss) values
      else if name == "UNIX_TIMESTAMP"
      then on_first (unix_timestamp tz) values
      else if name == "JSON_STRING"
      then on_first (λ v vs. unless_none v (py.json_dumps v)) values
      else if name == "MAP"
      then (do ps ← pairs_of values; py.dict_value ps)
      else if name == "SIZE"
      then on_first (λ v vs. unless_none v (py.len v)) values
      else err runtime_error

  -- eval_arglist_node
  abbrev pub sequence : List (Result V) → Result (List V)
  sequence [] = ok []
  sequence (r ∷ rs) = do v ← r; vs ← sequence rs; ok (v ∷ vs)

  -- The loop over the zip of the conditions and the results; what a round does not reach does not
  -- count.
  unfoldable pub eval_case : List (Result V) → List (Result V) → Result V → Result V
  eval_case [] rs default = default
  eval_case (c ∷ cs) [] default = default
  eval_case (c ∷ cs) (r ∷ rs) default = do
    v ← c
    elim (py.as_bool v) [
      | none ↦ err feathub_expression_exception
      | some b ↦ if b then r else eval_case cs rs default
    ]

  module _ (tz : py.dt.Tz) (variables : List (String × V)) where
    unfoldable mutual
      pub eval : ExprAst V → Result V
      eval (binary_op op left right) = do l ← eval left; r ← eval right; eval_binary op l r
      eval (compare_op op left right) = do l ← eval left; r ← eval right; eval_compare op l r
      eval (logical_op op left right) = do l ← eval left; r ← eval right; eval_logical op l r
      eval (uminus_op child) = do v ← eval child; py.neg v
      eval (group_node child) = eval child
      eval (cast_op child type_name fails) =
          eval_cast fails (do v ← eval child; cast_value type_name v)
      eval (value_node v) = ok v
      eval (variable_node name) = or_raise runtime_error (get name variables)
      eval (func_call_op name args) = do vs ← sequence (eval_each args); eval_func tz name vs
      eval null_node = ok py.none_value
      eval (is_op left is_not) = do
        l ← eval left
        b ← eval_is_none l (py.as_nan l)
        ok (py.bool_value (negate is_not b))
      eval (bracket_op left right) = do l ← eval left; r ← eval right; eval_bracket l r
      eval (case_op conditions results default) =
          eval_case (eval_each conditions) (eval_each results) (eval default)

      pub eval_each : Args V → List (Result V)
      eval_each no_args = []
      eval_each (arg a more) = eval a ∷ eval_each more
