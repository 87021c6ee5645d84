-- ===== src/Types/Tests.antt =====
-- The theorems about data types at concrete ones.
use feathub.Prelude.{◌≡◌, ◌≢◌}
use feathub.Errors.{ok}
use feathub.Common.Json.{Json}
use feathub.Types.{BasicDType, DType, primitive_type, vector_type, map_type}
use feathub.Types.Conversions.{NumpyType}
use feathub.Types.RoundTrip.{to_json, from_json, from_json-to_json}

abbrev scores : DType
scores =
    map_type (primitive_type BasicDType.string) (vector_type (primitive_type BasicDType.float64))

from_json-to_json_example : (j : Json) × (to_json scores ≡ ok j) × (from_json j ≡ ok scores)
from_json-to_json_example = from_json-to_json scores

str-ne-object : NumpyType.str ≢ NumpyType.object
str-ne-object h = cc
