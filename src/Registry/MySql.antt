-- ===== src/Registry/MySql.antt =====
-- registries/mysql_registry.py: the registry over a database, with its cache.
pub mod Register
use feathub.Prelude.{
  ◌≡◌, Bool, true, false, ◌&&◌, not, String, List, Option, none, some, ◌==◌, string_eq,
  if◌then◌else◌, ltb, ℕ,
}
use feathub.Dict.{get, insert, remove, keys, contains}
use feathub.Errors.{Result, ok, err, feathub_exception, runtime_error, key_error, ◌>>=◌}

-- The columns that _get_descriptor_from_mysql selects.
pub record TableRow : Type 0 where
  pub timestamp : ℕ
  pub digest : String
  pub original_descriptor : String
  pub resolved_descriptor : String

-- The statements of the cursor: the latest row of a name, and the deletion of a name's rows.
pub record Cursor (S : Type 0) : Type 0 where
  pub select : String → S → Option TableRow
  pub delete : String → S → S
  pub select-delete : (name : String) (s : S) → select name (delete name s) ≡ none

-- A descriptor from the text of its JSON, and the digest of two texts.
pub record Codec (D : Type 0) : Type 0 where
  pub loads : String → Result D
  pub sha256 : String → String → String

pub record Entry (D : Type 0) : Type 0 where
  pub original : D
  pub resolved : D
  pub resolved_at : ℕ

pub record MySqlRegistry (D S : Type 0) : Type 0 where
  pub tables : List (String × Entry D)
  pub db : S

module _ {D S : Type 0} (cur : Cursor S) (codec : Codec D) where
  -- `name not in self.tables or self.tables[name][2] < timestamp`
  abbrev pub is_newer : ℕ → Option (Entry D) → Bool
  is_newer t none = true
  is_newer t (some e) = ltb e.resolved_at t

  unfoldable pub cache_row : String → TableRow → MySqlRegistry D S → Result (MySqlRegistry D S)
  cache_row name row reg =
      if codec.sha256 row.original_descriptor row.resolved_descriptor == row.digest
      then (do
        original ← codec.loads row.original_descriptor
        resolved ← codec.loads row.resolved_descriptor
        ok (
            if is_newer row.timestamp (get name reg.tables)
            then record reg {
              tables =
                  insert name
                    (record {
                      original = original;
                      resolved = resolved;
                      resolved_at = row.timestamp;
                    })
                    reg.tables;
            }
            else reg))
      else err feathub_exception

  -- What it returns: the row's timestamp and digest, where there is a row.
  abbrev pub Found : Type 0
  Found = Option (ℕ × String)

  unfoldable pub descriptor_of :
      String → MySqlRegistry D S → Option TableRow → Result (Found × MySqlRegistry D S)
  descriptor_of name reg none = ok (none, reg)
  descriptor_of name reg (some row) = do
    reg' ← cache_row name row reg
    ok (some (row.timestamp, row.digest), reg')

  unfoldable pub get_descriptor_from_mysql :
      String → MySqlRegistry D S → Result (Found × MySqlRegistry D S)
  get_descriptor_from_mysql name reg = descriptor_of name reg (cur.select name reg.db)

  abbrev pub cached : Bool → Option (Entry D) → Result D
  cached is_resolved none = err runtime_error
  cached is_resolved (some e) = ok (if is_resolved then e.resolved else e.original)

  unfoldable pub get_features :
      String → Bool → Bool → MySqlRegistry D S → Result (D × MySqlRegistry D S)
  get_features name force_update is_resolved reg = do
    found ← (if force_update then get_descriptor_from_mysql name reg else ok (none, reg))
    d ← cached is_resolved (get name found.1.tables)
    ok (d, found.1)

  abbrev pub is_absent : Found → Bool
  is_absent none = true
  is_absent (some f) = false

  -- `self.tables.pop(name)`
  unfoldable pub pop_table : String → MySqlRegistry D S → Result (Bool × MySqlRegistry D S)
  pop_table name reg =
      if contains name (keys reg.tables)
      then ok (true, record reg { tables = remove name reg.tables })
      else err key_error

  unfoldable pub delete_features : String → MySqlRegistry D S → Result (Bool × MySqlRegistry D S)
  delete_features name reg = do
    found ← get_descriptor_from_mysql name reg
    if is_absent found.0 && not (contains name (keys found.1.tables))
        then ok (false, found.1)
        else pop_table name (record (found.1) { db = cur.delete name (found.1.db) })
