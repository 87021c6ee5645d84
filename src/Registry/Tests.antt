-- ===== src/Registry/Tests.antt =====
-- Small registries, and the theorems at them.
use feathub.Prelude.{◌≡◌, refl, true, false, String, [], ◌∷◌, Option, none, some, string_eq}
use feathub.Dict.{get, insert, remove, keys, contains}
use feathub.Errors.{ok, err, runtime_error}
use feathub.Registry.{Descriptors, build_features}
use feathub.Registry.Built.{AllReturned, build_features-AllReturned}
use feathub.Registry.MySql.{
  TableRow, Cursor, Codec, MySqlRegistry, cache_row, descriptor_of, get_descriptor_from_mysql,
  pop_table, delete_features, get_features,
}
use feathub.Registry.Deleted.{get_features-delete_features}

-- Descriptors that are their names, and are built at once.
abbrev names : Descriptors String
names = record { name_of = λ d. d; build = λ d force_update tables. (ok "resolved", tables) }

build_run : (build_features names ("a" ∷ "b" ∷ []) false []).0 ≡ ok ("resolved" ∷ "resolved" ∷ [])
unfolding build_features
build_run = refl

build_features-AllReturned_example :
    AllReturned names
      (λ d force_update tables n entry h. h)
      ("a" ∷ "b" ∷ [])
      ("resolved" ∷ "resolved" ∷ [])
      (build_features names ("a" ∷ "b" ∷ []) false []).1
unfolding contains
build_features-AllReturned_example =
    build_features-AllReturned names (λ d force_update tables n entry h. h) ("a" ∷ "b" ∷ []) false
      [] ("resolved" ∷ "resolved" ∷ []) (refl, (refl, tt)) build_run

-- A database with one name.
abbrev cursor : Cursor (Option TableRow)
cursor = record { select = λ name s. s; delete = λ name s. none; select-delete = λ name s. refl }

abbrev codec : Codec String
codec = record { loads = λ s. ok s; sha256 = λ s t. s }

abbrev stored_row : TableRow
stored_row = record {
  timestamp = 7;
  digest = "a";
  original_descriptor = "a";
  resolved_descriptor = "a'";
}

abbrev registry : MySqlRegistry String (Option TableRow)
registry = record { tables = []; db = some stored_row }

abbrev emptied : MySqlRegistry String (Option TableRow)
emptied = record { tables = []; db = none }

delete_run : delete_features cursor codec "a" registry ≡ ok (true, emptied)
unfolding delete_features get_descriptor_from_mysql descriptor_of cache_row pop_table get insert
    contains keys remove
delete_run = refl

get_features-delete_features_example :
    get_features cursor codec "a" true true emptied ≡ err runtime_error
get_features-delete_features_example =
    get_features-delete_features cursor codec "a" registry emptied true true true tt delete_run
