-- ===== src/Dsl.antt =====
-- dsl/ast.py: the syntax trees of expressions, over the literal values of the program.
pub mod Precision
pub mod Dtypes
pub mod Local
pub mod Cases
pub mod PlainValues
pub mod Sql
pub mod Dialects
mod Tests
use feathub.Prelude.{ℕ, suc, Bool, String, Option, if◌then◌else◌, nat_beq}
use feathub.Errors.{Result, ok, err, feathub_exception}

-- ExprAST and its classes. An ArgListNode and a list of children are `Args`.
mutual
  pub data ExprAst (V : Type 0) : Type 0 where
    binary_op compare_op logical_op : String → ExprAst V → ExprAst V → ExprAst V
    uminus_op group_node : ExprAst V → ExprAst V
    cast_op : ExprAst V → String → Bool → ExprAst V
    value_node : V → ExprAst V
    variable_node : String → ExprAst V
    func_call_op : String → Args V → ExprAst V
    null_node : ExprAst V
    is_op : ExprAst V → Bool → ExprAst V
    bracket_op : ExprAst V → ExprAst V → ExprAst V
    case_op : Args V → Args V → ExprAst V → ExprAst V

  pub data Args (V : Type 0) : Type 0 where
    no_args : Args V
    arg : ExprAst V → Args V → Args V

module _ {V : Type 0} where
  abbrev pub count : Args V → ℕ
  count no_args = 0
  count (arg a more) = suc (count more)

  -- `xs.append(x)`
  abbrev pub append : Args V → ExprAst V → Args V
  append no_args x = arg x no_args
  append (arg a more) x = arg a (append more x)

  -- IsOp.__init__; its right child is a NullNode.
  unfoldable pub new_is_op : ExprAst V → ExprAst V → Bool → Result (ExprAst V)
  new_is_op left null_node is_not = ok (is_op left is_not)
  new_is_op left _ is_not = err feathub_exception

  -- CaseOp.__init__
  unfoldable pub new_case_op : Args V → Args V → ExprAst V → Result (ExprAst V)
  new_case_op no_args no_args default = err feathub_exception
  new_case_op conditions results default =
      if nat_beq (count conditions) (count results)
      then ok (case_op conditions results default)
      else err feathub_exception

  -- LogicalOp.__init__ and FuncCallOp.__init__, with `str.upper`.
  unfoldable pub new_logical_op : (String → String) → String → ExprAst V → ExprAst V → ExprAst V
  new_logical_op upper op_type left right = logical_op (upper op_type) left right

  unfoldable pub new_func_call_op : (String → String) → String → Args V → ExprAst V
  new_func_call_op upper func_name args = func_call_op (upper func_name) args

-- CaseOp.Builder
pub record Builder (V : Type 0) : Type 0 where
  pub conditions : Args V
  pub results : Args V
  pub default_value : ExprAst V

module _ {V : Type 0} where
  unfoldable pub new_builder : Builder V
  new_builder = record { conditions = no_args; results = no_args; default_value = null_node }

  unfoldable pub case : ExprAst V → ExprAst V → Builder V → Builder V
  case condition result b = record b {
    conditions = append b.conditions condition;
    results = append b.results result;
  }

  unfoldable pub default : ExprAst V → Builder V → Builder V
  default result b = record b { default_value = result }

  unfoldable pub build : Builder V → Result (ExprAst V)
  unfolding new_case_op
  build b = new_case_op b.conditions b.results b.default_value
