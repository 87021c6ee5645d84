-- ===== src/Registry/MySql/Register/Entries.antt =====
-- The entry of the cache that register_features writes: the one that build_features has made.
use feathub.Prelude.{
  ◌≡◌, refl, sym, ap, ◌∙◌, not_true, Bool, true, false, ◌||◌, String, [], ◌∷◌, Option, none, some,
  some-injective, ◌==◌, string_eq, leb, ℕ, arith, ◌⊎◌, Bool-cases, inl, inr,
}
use feathub.Dict.{get, insert, get-insert, eq_self}
use feathub.Errors.{Error, Result, ok, err, key_error, raised_lem, bind-eq-ok, ok-injective}
use feathub.Common.Actions.{continue-eq-ok, Post, Post-continue, Post-lift}
use feathub.Common.Rows.{or_raise}
use feathub.Registry.MySql.{
  Cursor, Codec, Entry, MySqlRegistry, TableRow, is_newer, cache_row, Found, descriptor_of,
  get_descriptor_from_mysql,
}
use feathub.Registry.MySql.Register.{
  Writer, after_select, is_stored, digest_of, insert_entry, write_entry, build_features, build_one,
  register_one, register_each, register_features,
}

pub Result-cases :
    {A : Type 0} (r : Result A) → ((a : A) × (r ≡ ok a)) ⊎ ((e : Error) × (r ≡ err e))
Result-cases (ok a) = inl (a, refl)
Result-cases (err e) = inr (e, refl)

pub raise-eq :
    {A : Type 0} (raised : Error) (o : Option A) (a : A) → or_raise raised o ≡ ok a → o ≡ some a
raise-eq raised none a h = absurd (raised_lem h)
raise-eq raised (some b) a h = ap some (ok-injective h)

leb_self : (n : ℕ) → leb n n ≡ true
leb_self n = ground arith

module _ {D S : Type 0} (cur : Cursor S) (codec : Codec D) (writer : Writer D S)
    (name : String) where
  -- The entry is the old one, or that of the row that was found.
  abbrev Either : Entry D → Found cur codec → MySqlRegistry D S → Type 0
  Either e found next =
      (get name next.tables ≡ some e)
      ⊎ ((f : Entry D) × (digest : String) × (get name next.tables ≡ some f)
          × (found ≡ some (f.resolved_at, digest)))

  cache_row-Either :
      (row : TableRow) (reg next : MySqlRegistry D S) (e : Entry D)
      → get name reg.tables ≡ some e
      → cache_row cur codec name row reg ≡ ok next
      → Either e (some (row.timestamp, row.digest)) next
  unfolding cache_row
  cache_row-Either row reg next e there h =
      elim (Bool-cases
        (codec.sha256 row.original_descriptor row.resolved_descriptor == row.digest)) [
          | inl intact ↦
              let (o, ho, h1) =
                bind-eq-ok (codec.loads row.original_descriptor) _ (rw intact at h) in
              let (r, hr, h2) = bind-eq-ok (codec.loads row.resolved_descriptor) _ h1 in
              elim (Bool-cases (is_newer cur codec row.timestamp (get name reg.tables))) [
                | inl newer ↦ inr (
                  record { original = o; resolved = r; resolved_at = row.timestamp },
                  row.digest,
                  rw (sym (ok-injective (rw newer at h2)))
                      (rw (get-insert name name _ reg.tables, eq_self name) refl),
                  refl,
                )
                | inr older ↦ inl (rw (sym (ok-injective (rw older at h2))) there)
              ]
          | inr broken ↦ absurd (raised_lem (rw broken at h))
        ]

  select-Either :
      (reg : MySqlRegistry D S) (row : Option TableRow) (e : Entry D)
      → get name reg.tables ≡ some e
      → Post
          (Either e)
          (λ raised next. Unit {0})
          (after_select cur codec writer reg (descriptor_of cur codec name reg row))
  unfolding descriptor_of
  select-Either reg none e there = inl there
  select-Either reg (some row) e there = elim (Result-cases (cache_row cur codec name row reg)) [
    | inl (next, h) ↦ rw h (cache_row-Either row reg next e there h)
    | inr (raised, h) ↦ rw h tt
  ]

  abbrev Same : Entry D → Bool → MySqlRegistry D S → Type 0
  Same e written next = written ≡ true → get name next.tables ≡ some e

  write_entry-Same :
      (e f : Entry D) (stored : Bool) (reg : MySqlRegistry D S)
      → get name reg.tables ≡ some e
      → Post (Same e) (λ raised next. Unit {0}) (write_entry cur codec writer name f stored reg)
  write_entry-Same e f true reg there = λ written. absurd (not_true written)
  write_entry-Same e f false reg there =
      elim (Result-cases (insert_entry cur codec writer name f reg.db)) [
        | inl (db, h) ↦ rw h (λ written. there)
        | inr (raised, h) ↦ rw h tt
      ]

  -- A row that the database has as late as the entry stops the INSERT.
  found-Same :
      (e f : Entry D) (found : Found cur codec) (next : MySqlRegistry D S)
      → Either e found next
      → get name next.tables ≡ some f
      → Post
          (Same e)
          (λ raised last. Unit {0})
          (write_entry cur codec writer name f
            (is_stored cur codec writer found (digest_of cur codec writer f) f.resolved_at)
            next)
  found-Same e f found next (inl same) there = write_entry-Same e f _ next same
  found-Same e f found next (inr (g, digest, held, row)) there =
      let same = some-injective _ _ (sym held ∙ there) in
      let late : is_stored cur codec writer found (digest_of cur codec writer f) f.resolved_at
          ≡ true =
        rw (row, same) (or_leb (digest == digest_of cur codec writer f) f.resolved_at) in
      rw late (λ written. absurd (not_true written))
    where
      or_leb : (b : Bool) (n : ℕ) → (b || leb n n) ≡ true
      or_leb true n = refl
      or_leb false n = leb_self n

  register_one-Same :
      (reg : MySqlRegistry D S) (e : Entry D)
      → get name reg.tables ≡ some e
      → Post (Same e) (λ raised next. Unit {0}) (register_one cur codec writer name reg)
  unfolding register_one get_descriptor_from_mysql
  register_one-Same reg e there =
      Post-continue (Either e) _ _
        (after_select cur codec writer reg (get_descriptor_from_mysql cur codec name reg)) _
        (select-Either reg (cur.select name reg.db) e there)
        (λ found next either.
          Post-continue (λ f last. (last ≡ next) × (get name next.tables ≡ some f)) _ _
            (or_raise key_error (get name next.tables), next) _
            (Post-lift _ _ (or_raise key_error (get name next.tables)) next
              (λ f h. (refl, raise-eq key_error (get name next.tables) f h)) (λ raised h. tt))
            (λ f last held. rw (held.0) (found-Same e f found next either (held.1))))

  -- The registry once the descriptor is built.
  abbrev pub with_entry : Entry D → MySqlRegistry D S → MySqlRegistry D S
  with_entry e built = record built { tables = insert name e built.tables }

  -- With one descriptor, register_features returns what its round returned after the build.
  pub register_features-one :
      (d r : D) (force_update written : Bool) (reg built after : MySqlRegistry D S)
      → writer.name_of d ≡ name
      → writer.build d force_update reg ≡ (ok r, built)
      → register_features cur codec writer (d ∷ []) force_update reg ≡ (ok (written ∷ []), after)
      → register_one cur codec writer name (
          with_entry
            (record { original = d; resolved = r; resolved_at = writer.utcnow built.db })
            built)
        ≡ (ok written, after)
  unfolding register_features register_each build_features build_one
  register_features-one d r force_update written reg built after named made h =
      elim (Bool-cases (writer.name_of d == "")) [
        | inl empty ↦ absurd (raised_lem (ap (λ p. p.0) (rw empty at h)))
        | inr given ↦ elim (Bool-cases (leb (writer.len (writer.name_of d)) 64)) [
          | inr long ↦ absurd (raised_lem (ap (λ p. p.0) (rw (given, long) at h)))
          | inl short ↦
              (let h1 = rw (given, short, made, named) at h in
                let (w, next, h2, h3) =
                  continue-eq-ok (register_one cur codec writer name _) _ h1 in
                h2
                ∙ ap (λ s. (ok w, s)) (ap (λ p. p.1) h3)
                ∙ ap (λ b. (ok b, after)) (first_lem (ok-injective (ap (λ p. p.0) h3))))
        ]
      ]
    where
      first_lem : {a b : Bool} → (a ∷ []) ≡ (b ∷ []) → a ≡ b
      first_lem h = cc

  -- Where a round returns that it has written, the entry is still the one that was there.
  pub register_one-entry :
      (reg after : MySqlRegistry D S) (e : Entry D)
      → get name reg.tables ≡ some e
      → register_one cur codec writer name reg ≡ (ok true, after)
      → get name after.tables ≡ some e
  register_one-entry reg after e there h = rw h at (register_one-Same reg e there) refl
