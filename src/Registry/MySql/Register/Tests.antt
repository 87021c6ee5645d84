-- ===== src/Registry/MySql/Register/Tests.antt =====
-- A descriptor that is registered and got with an empty cache, over a database with one name.
use feathub.Prelude.{
  ◌≡◌, refl, sym, ap, true, false, String, [], ◌∷◌, Option, none, some, string_eq, ℕ, ◌*◌, ◌≤◌, ◌/◌,
  arith, some-injective,
}
use feathub.Dict.{get, insert}
use feathub.Errors.{ok, ok-injective}
use feathub.Registry.MySql.{
  TableRow, Cursor, Codec, Entry, MySqlRegistry, cache_row, descriptor_of,
  get_descriptor_from_mysql, get_features,
}
use feathub.Registry.MySql.Register.{
  Writer, to_seconds, build_one, build_features, register_one, register_each, register_features,
}
use feathub.Registry.MySql.Register.Seen.{get_features-register_features}

-- A row, with its time in seconds.
abbrev Database : Type 0
Database = Option (ℕ × (String × (String × String)))

abbrev selected_row : Database → Option TableRow
selected_row none = none
selected_row (some (seconds, (digest, (original, resolved)))) = some (record {
  timestamp = seconds * 1000000;
  digest = digest;
  original_descriptor = original;
  resolved_descriptor = resolved;
})

abbrev cursor : Cursor Database
cursor = record {
  select = λ name s. selected_row s;
  delete = λ name s. none;
  select-delete = λ name s. refl;
}

abbrev codec : Codec String
codec = record { loads = λ s. ok s; sha256 = λ s t. s }

-- Descriptors that are their names.
abbrev writer : Writer String Database
writer = record {
  name_of = λ d. d;
  len = λ name. 1;
  build = λ d force_update reg. (ok "resolved", reg);
  dumps = λ d. d;
  utcnow = λ s. 7000003;
  escape = λ s. s;
  insert_row =
      λ name t digest original resolved s. ok (some (t / 1000000, (digest, (original, resolved))));
}

abbrev entry : Entry String
entry = record { original = "a"; resolved = "resolved"; resolved_at = 7000003 }

abbrev empty : MySqlRegistry String Database
empty = record { tables = []; db = none }

abbrev registered : MySqlRegistry String Database
registered = record { tables = ("a", entry) ∷ []; db = some (7, ("a", ("a", "resolved"))) }

abbrev other : MySqlRegistry String Database
other = record { tables = []; db = some (7, ("a", ("a", "resolved"))) }

register_run :
    register_features cursor codec writer ("a" ∷ []) false empty ≡ (ok (true ∷ []), registered)
unfolding register_features build_features build_one register_each register_one get insert
    get_descriptor_from_mysql descriptor_of
register_run = refl

-- The second time the digest is that of the database.
register_again :
    (register_features cursor codec writer ("a" ∷ []) false registered).0 ≡ ok (false ∷ [])
unfolding register_features build_features build_one register_each register_one get insert
    get_descriptor_from_mysql descriptor_of cache_row
register_again = refl

whole_lem : (t : ℕ) → to_seconds t / 1000000 * 1000000 ≡ to_seconds t
whole_lem t = omega arith

inserted_lem :
    (t : ℕ) (digest original resolved : String) (s after : Database)
    → Unit {0}
    → Unit {0}
    → writer.insert_row "a" (to_seconds t) digest original resolved s ≡ ok after
    → ((row : TableRow) → cursor.select "a" s ≡ some row → row.timestamp ≤ to_seconds t)
    → cursor.select "a" after
      ≡ some (record {
        timestamp = to_seconds t;
        digest = digest;
        original_descriptor = original;
        resolved_descriptor = resolved;
      })
inserted_lem t digest original resolved s after plain plain' h latest =
    rw (sym (ok-injective h), whole_lem t) refl

seconds_lem :
    (s : Database) (row : TableRow) (t : ℕ)
    → cursor.select "a" s ≡ some row
    → row.timestamp ≤ t
    → row.timestamp ≤ to_seconds t
seconds_lem none row t h before = cc
seconds_lem (some (seconds, (digest, (original, resolved)))) row t h before =
    let same = ap (λ r. r.timestamp) (some-injective _ _ h) in omega (arith, same, before)

get_features-register_features_example :
    (next : MySqlRegistry String Database) × (get_features cursor codec "a" true true other
      ≡ ok ("resolved", next))
unfolding get
get_features-register_features_example =
    get_features-register_features cursor codec writer "a" (λ s. Unit {0}) inserted_lem seconds_lem
      "a" "resolved" false true empty empty registered other refl refl register_run tt tt refl refl
      refl refl
