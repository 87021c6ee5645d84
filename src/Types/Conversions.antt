-- ===== src/Types/Conversions.antt =====
-- common/types.py: the type names of the expression language, and the conversions from Python's and
-- to and from numpy's types.
use feathub.Prelude.{◌≡◌, ◌≢◌, ◌↔◌, String, List, [], ◌∷◌, none, some, string_eq, arith}
use feathub.Dict.{get}
use feathub.Errors.{Error, Result, ok, err, feathub_type_exception, feathub_expression_exception}
use feathub.Types.{BasicDType, DType, primitive_type, vector_type, map_type, dtype_eq}

-- The Python types that `python_type_to_dtype` is asked for.
pub data PythonType : Type 0 where
  bool int float str other : PythonType

pub data NumpyType : Type 0 where
  str bytes bool int32 int64 float32 float64 object other : NumpyType

unfoldable pub from_numpy_dtype : NumpyType → Result DType
from_numpy_dtype NumpyType.str = ok (primitive_type BasicDType.string)
from_numpy_dtype NumpyType.bytes = ok (primitive_type BasicDType.bytes)
from_numpy_dtype NumpyType.bool = ok (primitive_type BasicDType.boolean)
from_numpy_dtype NumpyType.int32 = ok (primitive_type BasicDType.int32)
from_numpy_dtype NumpyType.int64 = ok (primitive_type BasicDType.int64)
from_numpy_dtype NumpyType.float32 = ok (primitive_type BasicDType.float32)
from_numpy_dtype NumpyType.float64 = ok (primitive_type BasicDType.float64)
from_numpy_dtype NumpyType.object = ok (primitive_type BasicDType.unknown)
from_numpy_dtype NumpyType.other = err feathub_type_exception

unfoldable pub to_numpy_dtype : DType → Result NumpyType
to_numpy_dtype (primitive_type BasicDType.string) = ok NumpyType.str
to_numpy_dtype (primitive_type BasicDType.bytes) = ok NumpyType.bytes
to_numpy_dtype (primitive_type BasicDType.boolean) = ok NumpyType.bool
to_numpy_dtype (primitive_type BasicDType.int32) = ok NumpyType.int32
to_numpy_dtype (primitive_type BasicDType.int64) = ok NumpyType.int64
to_numpy_dtype (primitive_type BasicDType.float32) = ok NumpyType.float32
to_numpy_dtype (primitive_type BasicDType.float64) = ok NumpyType.float64
to_numpy_dtype (vector_type d) = ok NumpyType.object
to_numpy_dtype (map_type k v) = ok NumpyType.object
to_numpy_dtype (primitive_type BasicDType.unknown) = ok NumpyType.object
to_numpy_dtype (primitive_type BasicDType.timestamp) = err feathub_type_exception

abbrev pub name_to_dtype : List (String × DType)
name_to_dtype =
    ("BYTES", primitive_type BasicDType.bytes)
    ∷ ("STRING", primitive_type BasicDType.string)
    ∷ ("INTEGER", primitive_type BasicDType.int32)
    ∷ ("BIGINT", primitive_type BasicDType.int64)
    ∷ ("FLOAT", primitive_type BasicDType.float32)
    ∷ ("DOUBLE", primitive_type BasicDType.float64)
    ∷ ("BOOLEAN", primitive_type BasicDType.boolean)
    ∷ ("TIMESTAMP", primitive_type BasicDType.timestamp)
    ∷ []

unfoldable pub get_type_by_name : String → Result DType
unfolding get
get_type_by_name name = elim (get name name_to_dtype) [
  | none ↦ err feathub_expression_exception
  | some d ↦ ok d
]

unfoldable pub from_python_type : PythonType → Result DType
from_python_type PythonType.bool = ok (primitive_type BasicDType.boolean)
from_python_type PythonType.int = ok (primitive_type BasicDType.int32)
from_python_type PythonType.float = ok (primitive_type BasicDType.float64)
from_python_type PythonType.str = ok (primitive_type BasicDType.string)
from_python_type PythonType.other = err feathub_expression_exception

-- A data type that numpy has a type of its own for survives the way to numpy and back.
pub from_numpy-to_numpy :
    (d : DType) (n : NumpyType)
    → to_numpy_dtype d ≡ ok n
    → n ≢ NumpyType.object
    → from_numpy_dtype n ≡ ok d
unfolding from_numpy_dtype to_numpy_dtype
from_numpy-to_numpy (primitive_type b) n h k = ground arith
from_numpy-to_numpy (vector_type d) n h k = absurd (k (cc))
from_numpy-to_numpy (map_type a b) n h k = absurd (k (cc))

-- The conversion to numpy raises exactly at the timestamp type, and then a type exception.
pub to_numpy-raises_iff :
    (d : DType) (e : Error)
    → (to_numpy_dtype d ≡ err e)
      ↔ ((d ≡ primitive_type BasicDType.timestamp) × (e ≡ feathub_type_exception))
unfolding to_numpy_dtype
to_numpy-raises_iff d e = (to d, from)
  where
    to :
        (d : DType)
        → to_numpy_dtype d ≡ err e
        → (d ≡ primitive_type BasicDType.timestamp) × (e ≡ feathub_type_exception)
    to (primitive_type b) h = ground arith
    to (vector_type a) h = cc
    to (map_type a b) h = cc

    from :
        (d ≡ primitive_type BasicDType.timestamp) × (e ≡ feathub_type_exception)
        → to_numpy_dtype d ≡ err e
    from (p, q) = cc
