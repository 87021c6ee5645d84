-- ===== src/Registry/MySql/Register/Seen.antt =====
-- What a registry that sees the same state of the database finds of a registered descriptor.
use feathub.Prelude.{
  ◌≡◌, refl, sym, ap, ◌∙◌, [], ◌∷◌, Bool, true, false, String, Option, none, some, ◌==◌, string_eq,
  if◌then◌else◌, ℕ, ◌≤◌, Bool-cases, inl, inr, arith, not_true, some-injective,
}
use feathub.Dict.{get, insert, get-insert, eq_self}
use feathub.Errors.{ok, key_error, raised_lem, bind-eq-ok, ok-injective}
use feathub.Common.Actions.{Post, Post-continue, Post-lift}
use feathub.Common.Rows.{or_raise}
use feathub.Registry.MySql.{
  Cursor, Codec, Entry, MySqlRegistry, TableRow, is_newer, cache_row, Found, descriptor_of,
  get_descriptor_from_mysql, get_features,
}
use feathub.Registry.MySql.Register.Entries.{
  Result-cases, raise-eq, with_entry, register_features-one, register_one-entry,
}
use feathub.Registry.MySql.Register.{
  Writer, to_seconds, after_select, is_stored, digest_of, insert_entry, write_entry, register_one,
  register_features,
}

module _ {D S : Type 0} (cur : Cursor S) (codec : Codec D) (writer : Writer D S)
    (name : String) where
  abbrev found_of : Option TableRow → Found cur codec
  found_of none = none
  found_of (some row) = some (row.timestamp, row.digest)

  cache_row-db :
      (row : TableRow) (reg next : MySqlRegistry D S)
      → cache_row cur codec name row reg ≡ ok next
      → next.db ≡ reg.db
  unfolding cache_row
  cache_row-db row reg next h =
      elim (Bool-cases
        (codec.sha256 row.original_descriptor row.resolved_descriptor == row.digest)) [
          | inl intact ↦
              let (o, ho, h1) =
                bind-eq-ok (codec.loads row.original_descriptor) _ (rw intact at h) in
              let (r, hr, h2) = bind-eq-ok (codec.loads row.resolved_descriptor) _ h1 in
              elim (Bool-cases (is_newer cur codec row.timestamp (get name reg.tables))) [
                | inl newer ↦ ap (λ x. x.db) (sym (ok-injective (rw newer at h2)))
                | inr older ↦ ap (λ x. x.db) (sym (ok-injective (rw older at h2)))
              ]
          | inr broken ↦ absurd (raised_lem (rw broken at h))
        ]

  -- What was found is what the database has.
  select-Found :
      (reg : MySqlRegistry D S) (row : Option TableRow)
      → cur.select name reg.db ≡ row
      → Post
          (λ found next. found ≡ found_of (cur.select name next.db))
          (λ e next. Unit {0})
          (after_select cur codec writer reg (descriptor_of cur codec name reg row))
  unfolding descriptor_of
  select-Found reg none e = rw e refl
  select-Found reg (some row) e = elim (Result-cases (cache_row cur codec name row reg)) [
    | inl (next, h) ↦ rw (h, cache_row-db row reg next h, e) refl
    | inr (raised, h) ↦ rw h tt
  ]

  -- The row that the registration of an entry leaves.
  abbrev pub row_of : Entry D → TableRow
  row_of e = record {
    timestamp = to_seconds e.resolved_at;
    digest = digest_of cur codec writer e;
    original_descriptor = writer.dumps e.original;
    resolved_descriptor = writer.dumps e.resolved;
  }

  -- A row that does not stop the INSERT is older.
  older_lem :
      (row : TableRow) (e : Entry D)
      → is_stored cur codec writer
          (found_of (some row))
          (digest_of cur codec writer e)
          e.resolved_at
        ≡ false
      → row.timestamp ≤ e.resolved_at
  older_lem row e h = ground arith

  module _ (Plain : String → Type 0)
      (insert-select : (t : ℕ) (digest o r : String) (s after : S)
        → Plain o
        → Plain r
        → writer.insert_row name (to_seconds t) digest (writer.escape o) (writer.escape r) s
          ≡ ok after
        → ((row : TableRow) → cur.select name s ≡ some row → row.timestamp ≤ to_seconds t)
        → cur.select name after
          ≡ some (record {
            timestamp = to_seconds t;
            digest = digest;
            original_descriptor = o;
            resolved_descriptor = r;
          }))
      (select-seconds : (s : S) (row : TableRow) (t : ℕ)
        → cur.select name s ≡ some row
        → row.timestamp ≤ t
        → row.timestamp ≤ to_seconds t) where
    inserted-row :
        (e : Entry D) (s after : S)
        → is_stored cur codec writer
            (found_of (cur.select name s))
            (digest_of cur codec writer e)
            e.resolved_at
          ≡ false
        → insert_entry cur codec writer name e s ≡ ok after
        → Plain (writer.dumps e.original)
        → Plain (writer.dumps e.resolved)
        → cur.select name after ≡ some (row_of e)
    inserted-row e s after new h plain plain' =
        insert-select e.resolved_at (digest_of cur codec writer e) (writer.dumps e.original)
          (writer.dumps e.resolved) s after plain plain' h
          (λ row selected.
            select-seconds s row e.resolved_at selected (older_lem row e (rw selected at new)))

    abbrev Stored : Bool → MySqlRegistry D S → Type 0
    Stored written next =
        written ≡ true
        → (e : Entry D) → get name next.tables ≡ some e
        → Plain (writer.dumps e.original)
        → Plain (writer.dumps e.resolved)
        → cur.select name next.db ≡ some (row_of e)

    write_entry-Stored :
        (e : Entry D) (reg : MySqlRegistry D S)
        → get name reg.tables ≡ some e
        → Post Stored
            (λ raised next. Unit {0})
            (write_entry cur codec writer name e
              (is_stored cur codec writer
                (found_of (cur.select name reg.db))
                (digest_of cur codec writer e)
                e.resolved_at)
              reg)
    write_entry-Stored e reg entry =
        elim (Bool-cases (
          is_stored cur codec writer (found_of (cur.select name reg.db))
            (digest_of cur codec writer e) e.resolved_at)) [
              | inl stored ↦ rw stored (λ written. absurd (not_true written))
              | inr new ↦ elim (Result-cases (insert_entry cur codec writer name e reg.db)) [
                | inr (raised, h) ↦ rw (new, h) tt
                | inl (after, h) ↦
                    rw (new, h)
                      (λ written other there.
                        (let same = some-injective _ _ (sym entry ∙ there) in
                          inserted-row other reg.db after (rw same at new) (rw same at h)))
              ]
            ]

    register_one-Stored :
        (reg : MySqlRegistry D S)
        → Post Stored (λ raised next. Unit {0}) (register_one cur codec writer name reg)
    unfolding register_one get_descriptor_from_mysql
    register_one-Stored reg =
        Post-continue (λ found next. found ≡ found_of (cur.select name next.db)) _ _
          (after_select cur codec writer reg (get_descriptor_from_mysql cur codec name reg)) _
          (select-Found reg (cur.select name reg.db) refl)
          (λ found next same.
            Post-continue (λ e last. (last ≡ next) × (get name next.tables ≡ some e)) _ _
              (or_raise key_error (get name next.tables), next) _
              (Post-lift _ _ (or_raise key_error (get name next.tables)) next
                (λ e h. (refl, raise-eq key_error (get name next.tables) e h)) (λ raised h. tt))
              (λ e last held. rw (held.0, same) (write_entry-Stored e next (held.1))))

    get_features-register_one :
        (reg after other : MySqlRegistry D S) (e : Entry D) (is_resolved : Bool)
        → register_one cur codec writer name reg ≡ (ok true, after)
        → get name after.tables ≡ some e
        → Plain (writer.dumps e.original)
        → Plain (writer.dumps e.resolved)
        → codec.loads (writer.dumps e.original) ≡ ok e.original
        → codec.loads (writer.dumps e.resolved) ≡ ok e.resolved
        → other.db ≡ after.db
        → is_newer cur codec (to_seconds e.resolved_at) (get name other.tables) ≡ true
        → (next : MySqlRegistry D S) × (get_features cur codec name true is_resolved other
            ≡ ok (if is_resolved then e.resolved else e.original, next))
    unfolding get_features get_descriptor_from_mysql descriptor_of cache_row
    get_features-register_one reg after other e is_resolved h entry plain plain' loads loads' same
          newer =
        let stored = rw h at (register_one-Stored reg) in
        let seen : Entry D = record {
          original = e.original;
          resolved = e.resolved;
          resolved_at = to_seconds e.resolved_at;
        } in
        let selected = rw (sym same) at (stored refl e entry plain plain') in
        (
          record other { tables = insert name seen other.tables },
          rw
              (
                selected,
                eq_self (digest_of cur codec writer e),
                loads,
                loads',
                newer,
                get-insert name name _ other.tables,
                eq_self name,
              )
              refl,
        )

    -- If register_features with one descriptor returns that it has written it, get_features with an
    -- update, of any registry that sees the same state of the database and whose cache has no entry as
    -- late as the seconds of the time of the build, returns what the build of the descriptor returned,
    -- and unresolved the descriptor itself: where the texts of their JSON come back from a literal and
    -- are read back, an INSERT that succeeds makes its row the selected one if it is the latest, and the
    -- selected time is in whole seconds.
    pub get_features-register_features :
        (d r : D) (force_update is_resolved : Bool) (reg built after other : MySqlRegistry D S)
        → writer.name_of d ≡ name
        → writer.build d force_update reg ≡ (ok r, built)
        → register_features cur codec writer (d ∷ []) force_update reg ≡ (ok (true ∷ []), after)
        → Plain (writer.dumps d)
        → Plain (writer.dumps r)
        → codec.loads (writer.dumps d) ≡ ok d
        → codec.loads (writer.dumps r) ≡ ok r
        → other.db ≡ after.db
        → is_newer cur codec (to_seconds (writer.utcnow built.db)) (get name other.tables) ≡ true
        → (next : MySqlRegistry D S) × (get_features cur codec name true is_resolved other
            ≡ ok (if is_resolved then r else d, next))
    get_features-register_features d r force_update is_resolved reg built after other named made h
          plain plain' loads loads' same newer =
        let e : Entry D = record {
          original = d;
          resolved = r;
          resolved_at = writer.utcnow built.db;
        } in
        let ready = with_entry cur codec writer name e built in
        let round =
          register_features-one cur codec writer name d r force_update true reg built after named
            made h in
        let stored : get name ready.tables ≡ some e =
          rw (get-insert name name e built.tables, eq_self name) refl in
        get_features-register_one ready after other e is_resolved round
          (register_one-entry cur codec writer name ready after e stored round) plain plain' loads
          loads' same newer
