-- ===== src/Aggregation.antt =====
-- feature_views/transforms/agg_func.py and processors/local/aggregation_utils.py: the aggregation
-- functions, their result types and their values in the local processor.
use feathub.Prelude.{ℕ, List, [], ◌∷◌, length, leb, if◌then◌else◌}
use feathub.Types.{BasicDType, DType, primitive_type, vector_type, map_type}

pub data AggFunc : Type 0 where
  avg sum max min first_value last_value row_number count value_counts collect_list : AggFunc

unfoldable pub get_result_type : AggFunc → DType → DType
get_result_type avg t = primitive_type BasicDType.float64
get_result_type sum t = t
get_result_type max t = t
get_result_type min t = t
get_result_type first_value t = t
get_result_type last_value t = t
get_result_type row_number t = primitive_type BasicDType.int64
get_result_type count t = primitive_type BasicDType.int64
get_result_type value_counts t = map_type t (primitive_type BasicDType.int64)
get_result_type collect_list t = vector_type t

-- What the functions use of numpy and pandas, over the values of a column.
pub record Numpy (V : Type 0) : Type 0 where
  pub null : V
  pub of_length : ℕ → V
  pub of_list : List V → V
  pub mean : List V → V
  pub total : List V → V
  pub largest : List V → V
  pub smallest : List V → V
  pub counts : List V → V

module _ {V : Type 0} (np : Numpy V) where
  unfoldable pub last_or : V → List V → V
  last_or d [] = d
  last_or d (x ∷ xs) = last_or x xs

  -- `AGG_FUNCTIONS[agg_func](inputs)`
  unfoldable pub aggregate : AggFunc → List V → V
  unfolding last_or
  aggregate avg l = np.mean l
  aggregate sum l = np.total l
  aggregate max l = if leb (length l) 0 then np.null else np.largest l
  aggregate min l = if leb (length l) 0 then np.null else np.smallest l
  aggregate first_value [] = np.null
  aggregate first_value (x ∷ xs) = x
  aggregate last_value [] = np.null
  aggregate last_value (x ∷ xs) = last_or x xs
  aggregate row_number l = np.of_length (length l)
  aggregate count l = np.of_length (length l)
  aggregate value_counts l = if leb (length l) 0 then np.null else np.counts l
  aggregate collect_list l = if leb (length l) 0 then np.null else np.of_list l
