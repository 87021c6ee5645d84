-- ===== src/Dsl/Dtypes/Sets.antt =====
-- The order in which CaseOp.eval_dtype meets the types of its set.
use mathlib.Core.List.{Permᴰ}
use feathub.Prelude.{◌≡◌, refl, sym, ◌∙◌, String, List, [], ◌∷◌, string_eq}
use feathub.Errors.{Result, ok, err, ◌>>=◌}
use feathub.Types.{DType}
use feathub.Types.Conversions.{PythonType}
use feathub.Dsl.{
  ExprAst, Args, binary_op, compare_op, logical_op, uminus_op, group_node, cast_op, value_node,
  variable_node, func_call_op, null_node, is_op, bracket_op, case_op, no_args, arg,
}
use feathub.Dsl.Precision.{get_higher_precision_type, fold_higher}
use feathub.Dsl.Precision.Order.{get_higher_precision_type-Perm}
use feathub.Dsl.Dtypes.{case_dtype, default_dtype, eval_dtype, eval_dtypes}

case_dtype-higher :
    (as_set : List DType → List DType) (ts : List DType)
    → case_dtype as_set ts ≡ get_higher_precision_type (as_set ts)
unfolding case_dtype get_higher_precision_type fold_higher
case_dtype-higher as_set ts = listed (as_set ts)
  where
    listed : (us : List DType) → case_dtype (λ vs. us) ts ≡ get_higher_precision_type us
    listed [] = refl
    listed (u ∷ []) = refl
    listed (u ∷ v ∷ vs) = refl

case_dtype-Perm :
    (as_set as_set' : List DType → List DType)
    → ((ts : List DType) → Permᴰ (as_set ts) (as_set' ts))
    → (ts : List DType) → case_dtype as_set ts ≡ case_dtype as_set' ts
case_dtype-Perm as_set as_set' h ts =
    case_dtype-higher as_set ts
    ∙ get_higher_precision_type-Perm (h ts)
    ∙ sym (case_dtype-higher as_set' ts)

bind_bind_cong :
    {A : Type 0} {B : Type 0} (call : Result A) (call' : Result B) {f g : A → B → Result DType}
    → ((a : A) (b : B) → f a b ≡ g a b)
    → (call >>= (λ a. call' >>= f a)) ≡ (call >>= (λ a. call' >>= g a))
bind_bind_cong (ok a) (ok b) h = h a b
bind_bind_cong (ok a) (err e) h = refl
bind_bind_cong (err e) call' h = refl

module _ {V : Type 0} (type_of : V → PythonType) (variable_types : List (String × DType))
    (as_set as_set' : List DType → List DType)
    (h : (ts : List DType) → Permᴰ (as_set ts) (as_set' ts)) where
  mutual
    unfolding eval_dtype

    dtype_same :
        (e : ExprAst V)
        → eval_dtype type_of as_set variable_types e ≡ eval_dtype type_of as_set' variable_types e
    dtype_same (binary_op op left right) = rw (dtype_same left, dtype_same right) refl
    dtype_same (compare_op op left right) = refl
    dtype_same (logical_op op left right) = refl
    dtype_same (uminus_op child) = dtype_same child
    dtype_same (group_node child) = dtype_same child
    dtype_same (cast_op child type_name fails) = refl
    dtype_same (value_node v) = refl
    dtype_same (variable_node name) = refl
    dtype_same (func_call_op name args) = rw (dtypes_same args) refl
    dtype_same null_node = refl
    dtype_same (is_op left is_not) = refl
    dtype_same (bracket_op left right) = rw (dtype_same left, dtype_same right) refl
    dtype_same (case_op conditions results default) =
        rw (dtypes_same results, dtype_same default)
          (bind_bind_cong (eval_dtypes type_of as_set' variable_types results)
            (default_dtype default (eval_dtype type_of as_set' variable_types default))
            (λ ts ds. case_dtype-Perm as_set as_set' h (ds ts)))

    dtypes_same :
        (args : Args V)
        → eval_dtypes type_of as_set variable_types args
          ≡ eval_dtypes type_of as_set' variable_types args
    dtypes_same no_args = refl
    dtypes_same (arg a more) = rw (dtype_same a, dtypes_same more) refl

  -- The data type of an expression, or the exception, does not depend on the order in which a set of
  -- types is enumerated, as long as it has the same types.
  pub eval_dtype-Perm :
      (e : ExprAst V)
      → eval_dtype type_of as_set variable_types e ≡ eval_dtype type_of as_set' variable_types e
  eval_dtype-Perm e = dtype_same e
