-- ===== src/Registry/Deleted.antt =====
-- After MySqlRegistry.delete_features.
use feathub.Prelude.{
  ◌≡◌, refl, sym, ap, ◌∙◌, Bool, true, false, String, Option, none, some, string_eq, ◌==◌,
  if◌then◌else◌, Bool-cases, inl, inr,
}
use feathub.Dict.{get, insert, keys, contains, IsFunctional}
use feathub.Dict.Remove.{get_absent, get_removed, insert-IsFunctional}
use feathub.Errors.{ok, err, feathub_exception, runtime_error, key_error, bind-eq-ok, ok-injective}
use feathub.Registry.MySql.{
  Cursor, Codec, MySqlRegistry, TableRow, is_newer, cache_row, Found, descriptor_of,
  get_descriptor_from_mysql, get_features, is_absent, pop_table, delete_features,
}

module _ {D S : Type 0} (cur : Cursor S) (codec : Codec D) (name : String) where
  abbrev pub IsGone : MySqlRegistry D S → Type 0
  IsGone reg = (cur.select name reg.db ≡ none) × (get name reg.tables ≡ none)

  get_features-IsGone :
      (reg : MySqlRegistry D S) (force_update is_resolved : Bool)
      → IsGone reg
      → get_features cur codec name force_update is_resolved reg ≡ err runtime_error
  unfolding get_features get_descriptor_from_mysql descriptor_of
  get_features-IsGone reg true is_resolved (h, k) = rw (h, k) refl
  get_features-IsGone reg false is_resolved (h, k) = rw k refl

  cache_row-IsFunctional :
      (row : TableRow) (reg reg' : MySqlRegistry D S)
      → IsFunctional reg.tables
      → cache_row cur codec name row reg ≡ ok reg'
      → IsFunctional reg'.tables
  unfolding cache_row
  cache_row-IsFunctional row reg reg' f h =
      elim (Bool-cases
        (codec.sha256 row.original_descriptor row.resolved_descriptor == row.digest)) [
          | inl intact ↦
              let (o, ho, h1) =
                bind-eq-ok (codec.loads row.original_descriptor) _ (rw intact at h) in
              let (r, hr, h2) = bind-eq-ok (codec.loads row.resolved_descriptor) _ h1 in
              stored o r (ok-injective h2)
          | inr broken ↦ absurd (raised (rw broken at h))
        ]
    where
      raised : err feathub_exception ≡ ok reg' → ⊥
      raised k = cc

      stored :
          (o r : D)
          → (if is_newer cur codec row.timestamp (get name reg.tables)
              then record reg {
                tables =
                    insert name
                      (record { original = o; resolved = r; resolved_at = row.timestamp })
                      reg.tables;
              }
              else reg)
            ≡ reg'
          → IsFunctional reg'.tables
      stored o r k = elim (Bool-cases (is_newer cur codec row.timestamp (get name reg.tables))) [
        | inl newer ↦ rw (sym (rw newer at k)) (insert-IsFunctional name _ reg.tables f)
        | inr older ↦ rw (sym (rw older at k)) f
      ]

  descriptor_of-IsFunctional :
      (reg : MySqlRegistry D S) (row : Option TableRow)
      (found : Found cur codec × MySqlRegistry D S)
      → IsFunctional reg.tables
      → descriptor_of cur codec name reg row ≡ ok found
      → IsFunctional (found.1.tables)
  unfolding descriptor_of
  descriptor_of-IsFunctional reg none found f h = rw (sym (ok-injective h)) f
  descriptor_of-IsFunctional reg (some row) found f h =
      let (reg', h1, h2) = bind-eq-ok (cache_row cur codec name row reg) _ h in
      rw (sym (ok-injective h2)) (cache_row-IsFunctional row reg reg' f h1)

  pop_table-IsGone :
      (reg : MySqlRegistry D S) (done : Bool × MySqlRegistry D S)
      → IsFunctional reg.tables
      → pop_table cur codec name (record reg { db = cur.delete name reg.db }) ≡ ok done
      → IsGone (done.1)
  unfolding pop_table
  pop_table-IsGone reg done f h = elim (Bool-cases (contains name (keys reg.tables))) [
    | inl there ↦
        rw (sym (ok-injective (rw there at h)))
          (cur.select-delete name reg.db, get_removed name reg.tables f)
    | inr absent ↦ absurd (raised (rw absent at h))
  ]
    where
      raised : err key_error ≡ ok done → ⊥
      raised k = cc

  descriptor_of_absent :
      (reg : MySqlRegistry D S) (row : Option TableRow)
      (found : Found cur codec × MySqlRegistry D S)
      → descriptor_of cur codec name reg row ≡ ok found
      → is_absent cur codec found.0 ≡ true
      → (row ≡ none) × (found.1 ≡ reg)
  unfolding descriptor_of
  descriptor_of_absent reg none found h k = (refl, ap (λ p. p.1) (sym (ok-injective h)))
  descriptor_of_absent reg (some row) found h k =
      let (reg', h1, h2) = bind-eq-ok (cache_row cur codec name row reg) _ h in
      absurd (present (ap (λ p. is_absent cur codec p.0) (ok-injective h2) ∙ k))
    where
      present : false ≡ true → ⊥
      present e = cc

  delete_features-IsGone :
      (reg reg' : MySqlRegistry D S) (b : Bool)
      → IsFunctional reg.tables
      → delete_features cur codec name reg ≡ ok (b, reg')
      → IsGone reg'
  unfolding delete_features get_descriptor_from_mysql
  delete_features-IsGone reg reg' b f h =
      let (found, h1, h2) =
        bind-eq-ok (descriptor_of cur codec name reg (cur.select name reg.db)) _ h in
      let f' = descriptor_of-IsFunctional reg (cur.select name reg.db) found f h1 in
      elim (Bool-cases (is_absent cur codec found.0)) [
        | inl absent ↦
            let (none_selected, same) =
              descriptor_of_absent reg (cur.select name reg.db) found h1 absent in
            elim (Bool-cases (contains name (keys found.1.tables))) [
              | inl there ↦ pop_table-IsGone found.1 (b, reg') f' (rw (absent, there) at h2)
              | inr missing ↦ rw (sym (ap (λ p. p.1) (ok-injective (rw (absent, missing) at h2)))) (
                ap (λ r. cur.select name r.db) same ∙ none_selected,
                get_absent name found.1.tables missing,
              )
            ]
        | inr present ↦ pop_table-IsGone found.1 (b, reg') f' (rw present at h2)
      ]

  -- After delete_features has returned, whatever it returned, get_features raises for the name, with
  -- and without an update from the database; the cache is a dictionary, with each name once.
  pub get_features-delete_features :
      (reg reg' : MySqlRegistry D S) (b force_update is_resolved : Bool)
      → IsFunctional reg.tables
      → delete_features cur codec name reg ≡ ok (b, reg')
      → get_features cur codec name force_update is_resolved reg' ≡ err runtime_error
  get_features-delete_features reg reg' b force_update is_resolved f h =
      get_features-IsGone reg' force_update is_resolved (delete_features-IsGone reg reg' b f h)
