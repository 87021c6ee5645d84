-- ===== src/Registry/MySql/Register.antt =====
-- registries/mysql_registry.py: building and registering descriptors, which writes to the database.
pub mod Entries
pub mod Seen
mod Tests
use feathub.Prelude.{
  Bool, true, false, ◌||◌, not, String, List, [], ◌∷◌, Option, none, some, ◌==◌, string_eq,
  if◌then◌else◌, leb, ℕ, ◌*◌, ◌/◌,
}
use feathub.Dict.{get, insert}
use feathub.Errors.{Result, ok, err, feathub_exception, key_error, guard}
use feathub.Common.Actions.{lift, put, read, ◌>>=◌}
use feathub.Common.Rows.{or_raise}
use feathub.Registry.MySql.{Cursor, Codec, Entry, MySqlRegistry, Found, get_descriptor_from_mysql}

-- A TableDescriptor's name with its length, its `build`, which may build others in the registry, and
-- the text of its JSON; the clock; Python's `replace('"', '\\"')`; and the INSERT of a name, a time, a
-- digest and two texts as the statement spells them.
pub record Writer (D S : Type 0) : Type 0 where
  pub name_of : D → String
  pub len : String → ℕ
  pub build : D → Bool → MySqlRegistry D S → Result D × MySqlRegistry D S
  pub dumps : D → String
  pub utcnow : S → ℕ
  pub escape : String → String
  pub insert_row : String → ℕ → String → String → String → S → Result S

-- `strftime("%Y-%m-%d %H:%M:%S %z")` of a time in microseconds
abbrev pub to_seconds : ℕ → ℕ
to_seconds t = t / 1000000 * 1000000

module _ {D S : Type 0} (cur : Cursor S) (codec : Codec D) (writer : Writer D S) where
  abbrev pub Step : Type 0 → Type 0
  Step A = MySqlRegistry D S → Result A × MySqlRegistry D S

  -- `self.tables[table.name] = (...)`
  abbrev pub keep_entry : String → Entry D → Step (Unit {0})
  keep_entry name e reg = (ok tt, record reg { tables = insert name e reg.tables })

  unfoldable pub build_one : D → Bool → Step D
  unfolding insert
  build_one d force_update = do
    named ← lift (guard (not (writer.name_of d == "")) feathub_exception)
    short ← lift (guard (leb (writer.len (writer.name_of d)) 64) feathub_exception)
    resolved ← writer.build d force_update
    now ← read (λ reg. writer.utcnow reg.db)
    kept ←
        keep_entry (writer.name_of d)
          (record { original = d; resolved = resolved; resolved_at = now })
    put resolved

  unfoldable pub build_features : List D → Bool → Step (List D)
  unfolding build_one
  build_features [] force_update = put []
  build_features (d ∷ ds) force_update = do
    resolved ← build_one d force_update
    rest ← build_features ds force_update
    put (resolved ∷ rest)

  -- An exception in it comes before any write to the cache.
  abbrev pub after_select :
      MySqlRegistry D S
      → Result (Found cur codec × MySqlRegistry D S)
      → Result (Found cur codec) × MySqlRegistry D S
  after_select reg (ok (found, next)) = (ok found, next)
  after_select reg (err e) = (err e, reg)

  -- the test of the existing descriptor
  abbrev pub is_stored : Found cur codec → String → ℕ → Bool
  is_stored none digest resolved_at = false
  is_stored (some (timestamp, existing)) digest resolved_at =
      existing == digest || leb resolved_at timestamp

  abbrev pub after_insert : MySqlRegistry D S → Result S → Result Bool × MySqlRegistry D S
  after_insert reg (ok db) = (ok true, record reg { db = db })
  after_insert reg (err e) = (err e, reg)

  abbrev pub digest_of : Entry D → String
  digest_of e = codec.sha256 (writer.dumps e.original) (writer.dumps e.resolved)

  abbrev pub insert_entry : String → Entry D → S → Result S
  insert_entry name e db =
      writer.insert_row name (to_seconds e.resolved_at) (digest_of e)
        (writer.escape (writer.dumps e.original)) (writer.escape (writer.dumps e.resolved)) db

  -- the INSERT, unless the descriptor is stored
  abbrev pub write_entry : String → Entry D → Bool → Step Bool
  write_entry name e true reg = (ok false, reg)
  write_entry name e false reg = after_insert reg (insert_entry name e reg.db)

  -- one round of the loop of register_features
  unfoldable pub register_one : String → Step Bool
  unfolding get get_descriptor_from_mysql
  register_one name = do
    found ← (λ reg. after_select reg (get_descriptor_from_mysql cur codec name reg))
    e ← (λ reg. (or_raise key_error (get name reg.tables), reg))
    write_entry name e (is_stored found (digest_of e) e.resolved_at)

  unfoldable pub register_each : List D → Step (List Bool)
  unfolding register_one
  register_each [] = put []
  register_each (d ∷ ds) = do
    written ← register_one (writer.name_of d)
    rest ← register_each ds
    put (written ∷ rest)

  unfoldable pub register_features : List D → Bool → Step (List Bool)
  unfolding build_features register_each
  register_features ds force_update = do resolved ← build_features ds force_update; register_each ds
