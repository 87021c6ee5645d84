-- ===== src/OnlineStore/Put.antt =====
-- What `put` leaves in a table with a timestamp field: for each key a row that is at least as late as
-- every row that was written under this key.
use feathub.Prelude.{
  ◌≡◌, refl, sym, ap, String, List, [], ◌∷◌, Option, none, some, HasEq, string_eq, list_eq, pair_eq,
  Bool-cases, inl, inr,
}
use feathub.Prelude.Int.{ℤ, leb_ℤ}
use feathub.Dict.{get}
use feathub.Errors.{Result, ok, err, ok-injective, bind-eq-ok}
use feathub.Common.Time.{Datetime, TimeValue}
use feathub.Common.Rows.{Row, row_time}
use feathub.OnlineStore.{Table, PutArgs, key_of, keep_later, write_at, write_row, write_rows}
use feathub.OnlineStore.Newest.{
  HasSince, Written, replaced, kept, Written-HasSince, Written-HasSince_self, leb_ℤ→le, le→leb_ℤ,
  not-leb_ℤ→le,
}

module _ {V : Type 0} ⦃e : HasEq V⦄ (dt : Datetime) (as_time : V → TimeValue (dt.Date))
    (utc : dt.Tz) (field format : String) where
  abbrev pub time_of : Row V → Result ℤ
  time_of = row_time dt as_time utc field format

  abbrev pub Since : Table V → Row V → ℤ → Type 0
  Since = HasSince time_of

  keep_later-Written :
      (table table' : Table V) (row key : Row V) (t : ℤ) (o : Option (Row V))
      → get key table ≡ o
      → time_of row ≡ ok t
      → keep_later dt as_time utc field format table row key t o ≡ ok table'
      → Written time_of table key row t table'
  unfolding keep_later
  keep_later-Written table table' row key t none p ht h =
      replaced (sym (ok-injective h)) ht (λ old q. cc)
  keep_later-Written table table' row key t (some old) p ht h =
      let (o, ho, h') = bind-eq-ok (time_of old) _ h in
      elim (Bool-cases (leb_ℤ t o)) [
        | inl le ↦
            kept (sym (ok-injective (rw le at h')))
              (record { row = old; time = o; stored = p; timed = ho; since = leb_ℤ→le t o le })
        | inr gt ↦
            replaced (sym (ok-injective (rw gt at h'))) ht (λ old' q. (o, cc, not-leb_ℤ→le t o gt))
      ]

  module _ (args : PutArgs) (has_field : args.timestamp_field ≡ some field)
      (has_format : args.timestamp_format ≡ some format) where
    pub write_row-Written :
        (table table' : Table V) (row : Row V)
        → write_row dt as_time utc args table row ≡ ok table'
        → (key : Row V) × (t : ℤ) × (key_of args.key_fields row ≡ ok key)
          × (time_of row ≡ ok t)
          × Written time_of table key row t table'
    unfolding write_row write_at
    write_row-Written table table' row h =
        let (key, hk, h1) = bind-eq-ok (key_of args.key_fields row) _ h in
        let (t, ht, h2) = bind-eq-ok (time_of row) _ (rw (has_field, has_format) at h1) in
        (key, t, hk, ht, keep_later-Written table table' row key t (get key table) refl ht h2)

    -- The table has, for the key of the row, a row that is no earlier than it.
    abbrev pub Covers : Table V → Row V → Type 0
    Covers table row =
        (key : Row V) × (t : ℤ) × (key_of args.key_fields row ≡ ok key)
        × (time_of row ≡ ok t)
        × Since table key t

    abbrev pub CoversAll : Table V → List (Row V) → Type 0
    CoversAll table [] = Unit {0}
    CoversAll table (row ∷ rows) = Covers table row × CoversAll table rows

    abbrev run : Table V → List (Row V) → Result (Unit {0}) × Table V
    run = write_rows dt as_time utc args

    -- A batch that ends without an exception has written its first row, and then the others.
    write_rows-cons :
        (table table' : Table V) (row : Row V) (rows : List (Row V))
        → run table (row ∷ rows) ≡ (ok tt, table')
        → (t : Table V) × (write_row dt as_time utc args table row ≡ ok t)
          × (run t rows ≡ (ok tt, table'))
    unfolding write_rows
    write_rows-cons table table' row rows h = split (write_row dt as_time utc args table row) refl h
      where
        split :
            (r : Result (Table V))
            → write_row dt as_time utc args table row ≡ r
            → ◌≡◌ {A = Result (Unit {0}) × Table V}
                (elim r [ ok t ↦ run t rows | err x ↦ (err x, table) ])
                (ok tt, table')
            → (t : Table V) × (write_row dt as_time utc args table row ≡ ok t)
              × (run t rows ≡ (ok tt, table'))
        split (ok t) w h' = (t, w, h')
        split (err x) w h' = cc (ap (λ (p : Result (Unit {0}) × Table V). p.0) h')

    -- A batch that is written takes no bound of the table away.
    pub write_rows-Since :
        (table table' : Table V) (rows : List (Row V))
        → run table rows ≡ (ok tt, table')
        → (k : Row V) (u : ℤ) → Since table k u
        → Since table' k u
    unfolding write_rows
    write_rows-Since table table' [] h k u s =
        rw (← ap (λ (p : Result (Unit {0}) × Table V). p.1) h) s
    write_rows-Since table table' (row ∷ rows) h k u s =
        let (t', w, h') = write_rows-cons table table' row rows h in
        let (key, t, _, _, written) = write_row-Written table t' row w in
        write_rows-Since t' table' rows h' k u
          (Written-HasSince time_of table t' key k row t u written s)

    -- When a batch is written to a table with a timestamp field without an exception, every row of
    -- the batch has a key and a time, and the table holds under this key a row that is no earlier.
    pub write_rows-CoversAll :
        (table table' : Table V) (rows : List (Row V))
        → run table rows ≡ (ok tt, table')
        → CoversAll table' rows
    write_rows-CoversAll table table' [] h = tt
    write_rows-CoversAll table table' (row ∷ rows) h =
        let (t', w, h') = write_rows-cons table table' row rows h in
        let (key, t, hk, ht, written) = write_row-Written table t' row w in
        (
          (
            key,
            t,
            hk,
            ht,
            write_rows-Since t' table' rows h' key t
                (Written-HasSince_self time_of table t' key row t written),
          ),
          write_rows-CoversAll t' table' rows h',
        )

    keep_later-covered :
        (table : Table V) (row key : Row V) (t : ℤ)
        → Since table key t
        → keep_later dt as_time utc field format table row key t (get key table) ≡ ok table
    unfolding keep_later
    keep_later-covered table row key t s = rw (s.stored, s.timed, le→leb_ℤ t s.time s.since) refl

    write_row-covered :
        (table : Table V) (row : Row V)
        → Covers table row
        → write_row dt as_time utc args table row ≡ ok table
    unfolding write_row write_at
    write_row-covered table row (key, t, hk, ht, s) =
        rw (hk, has_field, has_format, ht) (keep_later-covered table row key t s)

    write_rows-covered :
        (table : Table V) (rows : List (Row V))
        → CoversAll table rows
        → run table rows ≡ (ok tt, table)
    unfolding write_rows
    write_rows-covered table [] h = refl
    write_rows-covered table (row ∷ rows) h =
        rw (write_row-covered table row h.0, write_rows) (write_rows-covered table rows h.1)

    -- Writing a batch a second time, after it has been written without an exception to a table with
    -- a timestamp field, succeeds and changes nothing.
    pub write_rows_again :
        (table table' : Table V) (rows : List (Row V))
        → run table rows ≡ (ok tt, table')
        → run table' rows ≡ (ok tt, table')
    write_rows_again table table' rows h =
        write_rows-covered table' rows (write_rows-CoversAll table table' rows h)
