-- ===== src/OnlineStore/Served.antt =====
-- What `get` finds after a `put` to the same table.
use feathub.Prelude.{
  Among, ◌≡◌, refl, sym, ap, ◌∙◌, inl, inr, Bool, true, String, List, [], ◌∷◌, Option, some, HasEq,
  string_eq, list_eq, pair_eq,
}
use feathub.Prelude.Int.{ℤ, ◌≤ℤ◌}
use feathub.Dict.{get as dict_get, insert, is_subset, get-insert, eq_self}
use feathub.Errors.{Result, ok, err, ok-injective}
use feathub.Common.Time.{Datetime, TimeValue}
use feathub.Common.Rows.{Row}
use feathub.OnlineStore.{
  Table, DataFrame, TableInfo, MemoryOnlineStore, PutArgs, key_of, info_of, check_put, with_table,
  write_rows, finish_put, put,
}
use feathub.OnlineStore.Put.{time_of, Covers, CoversAll, write_rows-CoversAll}
use feathub.OnlineStore.Get.{Pandas, find_row, find_rows, finish_get, get}

module _ {V : Type 0} where
  stored_once : {row found : Row V} → some row ≡ some found → row ≡ found
  stored_once h = cc

module _ {V : Type 0} ⦃e : HasEq V⦄ (dt : Datetime) (as_time : V → TimeValue (dt.Date))
    (utc : dt.Tz) (field format : String) (args : PutArgs)
    (has_field : args.timestamp_field ≡ some field)
    (has_format : args.timestamp_format ≡ some format) (batch : List (Row V)) where
  -- The input asks for the key of a row of the batch.
  abbrev pub Asks : Row V → Type 0
  Asks input =
      (row : Row V) × Among row batch
      × (key : Row V) × (key_of args.key_fields row ≡ ok key)
      × (key_of args.key_fields input ≡ ok key)

  abbrev pub AllAsk : List (Row V) → Type 0
  AllAsk [] = Unit {0}
  AllAsk (input ∷ inputs) = Asks input × AllAsk inputs

  -- The row that is found is no earlier than any row of the batch with the key of the input.
  abbrev pub Served : Row V → Row V → Type 0
  Served input found =
      (row : Row V)
      → Among row batch
      → key_of args.key_fields row ≡ key_of args.key_fields input
      → (t : ℤ) × (u : ℤ) × (time_of dt as_time utc field format row ≡ ok t)
        × (time_of dt as_time utc field format found ≡ ok u)
        × (t ≤ℤ u)

  abbrev pub AllServed : List (Row V) → List (Row V) → Type 0
  AllServed [] [] = Unit {0}
  AllServed [] (f ∷ fs) = ⊥
  AllServed (i ∷ is) [] = ⊥
  AllServed (i ∷ is) (f ∷ fs) = Served i f × AllServed is fs

  CoversAll-Among :
      (table : Table V) (rows : List (Row V)) (row : Row V)
      → CoversAll dt as_time utc field format args has_field has_format table rows
      → Among row rows
      → Covers dt as_time utc field format args has_field has_format table row
  CoversAll-Among table (r ∷ rows) row (c, cs) (inl e) = rw e c
  CoversAll-Among table (r ∷ rows) row (c, cs) (inr a) = CoversAll-Among table rows row cs a
  CoversAll-Among table [] row h a = absurd a

  module _ (info : TableInfo V) (same_keys : info.key_fields ≡ args.key_fields)
      (covers : CoversAll dt as_time utc field format args has_field has_format info.table
        batch) where
    find_row-Served :
        (input : Row V)
        → Asks input
        → (found : Row V) × (find_row info input ≡ ok found) × Served input found
    unfolding find_row
    find_row-Served input (row, among, key, k, l) =
        let (key', t, k', ht, s) = CoversAll-Among info.table batch row covers among in
        let e = ok-injective (sym k' ∙ k) in
        let stored : dict_get key info.table ≡ some s.row = rw (sym e) s.stored in
        (s.row, rw (same_keys, l, stored) refl, later s.row stored)
      where
        later : (found : Row V) → dict_get key info.table ≡ some found → Served input found
        later found stored row' among' same =
            let (key', t, k', ht, s) = CoversAll-Among info.table batch row' covers among' in
            let e : key' ≡ key = ok-injective (sym k' ∙ same ∙ l) in
            let f : s.row ≡ found =
              stored_once (sym s.stored ∙ ap (λ k. dict_get k info.table) e ∙ stored) in
            (t, s.time, ht, sym (ap (time_of dt as_time utc field format) f) ∙ s.timed, s.since)

    find_rows-AllServed :
        (inputs : List (Row V))
        → AllAsk inputs
        → (founds : List (Row V)) × (find_rows info inputs ≡ ok founds) × AllServed inputs founds
    unfolding find_rows
    find_rows-AllServed [] h = ([], refl, tt)
    find_rows-AllServed (input ∷ inputs) (h, hs) =
        let (found, e, s) = find_row-Served input h in
        let (founds, es, ss) = find_rows-AllServed inputs hs in
        (found ∷ founds, rw (e, es) refl, (s, ss))

  pair_lem : (p : Result (Unit {0}) × Table V) → p.0 ≡ ok tt → p ≡ (ok tt, p.1)
  pair_lem p h = ap (λ (r : Result (Unit {0})). (r, p.1)) h

  -- What a put that succeeds leaves under the name of its table.
  record IsWritten (store : MemoryOnlineStore V) (name : String) (key_fields : List String)
      : Type 0 where
    info : TableInfo V
    found : dict_get name store.table_infos ≡ some info
    same_keys : info.key_fields ≡ key_fields
    covers : CoversAll dt as_time utc field format args has_field has_format info.table batch

  finish_put-IsWritten :
      (name : String) (columns : List String) (info : TableInfo V)
      (infos : List (String × TableInfo V)) (r : Result (Unit {0}))
      → let p =
          finish_put dt as_time utc name
            (record { columns = columns; rows = batch })
            args
            info
            infos
            r in
        p.0 ≡ ok tt → IsWritten p.1 name info.key_fields
  unfolding finish_put
  finish_put-IsWritten name columns info infos (err x) h = cc
  finish_put-IsWritten name columns info infos (ok u) h =
      let run = write_rows dt as_time utc args info.table batch in
      record {
        info = with_table info run.1;
        found = rw (get-insert name name (with_table info run.1) infos, eq_self name) refl;
        same_keys = refl;
        covers =
            write_rows-CoversAll dt as_time utc field format args has_field has_format info.table
              run.1 batch (pair_lem run h);
      }

  put-IsWritten :
      (store : MemoryOnlineStore V) (name : String) (columns : List String)
      → let p = put dt as_time utc store name (record { columns = columns; rows = batch }) args in
        p.0 ≡ ok tt → IsWritten p.1 name (info_of args (dict_get name store.table_infos)).key_fields
  unfolding put
  put-IsWritten store name columns h =
      let info = info_of args (dict_get name store.table_infos) in
      finish_put-IsWritten name columns info (insert name info store.table_infos)
        (check_put info args columns) h

  -- After a put to a table with a timestamp field has succeeded, with the key fields of the table, a
  -- get that asks for keys of the batch goes on with a row for each row of its input, in order, that
  -- is no earlier than any row of the batch with the same key.
  pub get-put :
      (pd : Pandas V) (store : MemoryOnlineStore V) (name : String) (columns : List String)
      (input : DataFrame V) (feature_names : Option (List String)) (include : Bool)
      → (info_of args (dict_get name store.table_infos)).key_fields ≡ args.key_fields
      → is_subset args.key_fields input.columns ≡ true
      → AllAsk input.rows
      → (put dt as_time utc store name (record { columns = columns; rows = batch }) args).0 ≡ ok tt
      → (info : TableInfo V) × (founds : List (Row V)) × (get pd
            (put dt as_time utc store name (record { columns = columns; rows = batch }) args).1
            name
            input
            feature_names
            include
          ≡ finish_get pd info input feature_names include founds)
        × AllServed input.rows founds
  unfolding get
  get-put pd store name columns input feature_names include same sub asks h =
      let w = put-IsWritten store name columns h in
      let (founds, e, served) =
        find_rows-AllServed w.info (w.same_keys ∙ same) w.covers input.rows asks in
      (w.info, founds, rw (w.found, w.same_keys, same, sub, e) refl, served)
