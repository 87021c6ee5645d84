-- ===== src/Dsl/Precision.antt =====
-- _get_higher_precision_type of dsl/ast.py: the type that a mixture of numbers has.
pub mod Order
use feathub.Prelude.{
  ◌≡◌, refl, ℕ, suc, ◌<◌, Bool, true, false, List, [], ◌∷◌, ltb, leb, if◌then◌else◌, arith, Option,
  none, some,
}
use feathub.Errors.{Result, ok, err, feathub_expression_exception, index_error, ◌>>=◌}
use feathub.Types.{BasicDType, DType, primitive_type}

-- The index of a type in TYPE_PRECISION_RANK.
unfoldable pub rank : DType → Option ℕ
rank (primitive_type BasicDType.float64) = some 0
rank (primitive_type BasicDType.float32) = some 1
rank (primitive_type BasicDType.int64) = some 2
rank (primitive_type BasicDType.int32) = some 3
rank _ = none

-- A round of the loop.
unfoldable pub higher : DType → DType → Result DType
unfolding rank
higher res_type t = elim (rank res_type) [
  | none ↦ err feathub_expression_exception
  | some r ↦ elim (rank t) [
    | none ↦ err feathub_expression_exception
    | some q ↦ ok (if ltb q r then t else res_type)
  ]
]

unfoldable pub fold_higher : DType → List DType → Result DType
fold_higher res_type [] = ok res_type
fold_higher res_type (t ∷ ts) = do res ← higher res_type t; fold_higher res ts

unfoldable pub get_higher_precision_type : List DType → Result DType
get_higher_precision_type [] = err index_error
get_higher_precision_type (t ∷ ts) = fold_higher t ts
