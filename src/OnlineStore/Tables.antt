-- ===== src/OnlineStore/Tables.antt =====
-- `put` and the tables of the store: what other tables and a rejected batch see.
use feathub.Prelude.{◌≡◌, refl, ◌∙◌, false, String, List, some, HasEq, ◌==◌, string_eq}
use feathub.Dict.{get, insert, get-insert, eq_self}
use feathub.Errors.{Error, Result, ok, err}
use feathub.Common.Time.{Datetime, TimeValue}
use feathub.OnlineStore.{
  DataFrame, TableInfo, MemoryOnlineStore, PutArgs, info_of, check_put, finish_put, put,
}

module _ {V : Type 0} ⦃e : HasEq V⦄ (dt : Datetime) (as_time : V → TimeValue (dt.Date))
    (utc : dt.Tz) (store : MemoryOnlineStore V) (name : String) (features : DataFrame V)
    (args : PutArgs) where
  abbrev after : Result (Unit {0}) × MemoryOnlineStore V
  after = put dt as_time utc store name features args

  get-insert_ne :
      (j : String) (i : TableInfo V) (d : List (String × TableInfo V))
      → (name == j) ≡ false
      → get j (insert name i d) ≡ get j d
  get-insert_ne j i d h = rw (get-insert name j i d, h) refl

  finish_put-other :
      (j : String) (info : TableInfo V) (infos : List (String × TableInfo V))
      (r : Result (Unit {0}))
      → (name == j) ≡ false
      → get j (finish_put dt as_time utc name features args info infos r).1.table_infos
        ≡ get j infos
  unfolding finish_put
  finish_put-other j info infos (err x) h = refl
  finish_put-other j info infos (ok _) h = get-insert_ne j _ infos h

  -- A put to one table, whether it succeeds or raises, leaves every other table as it was.
  pub put-other_table :
      (j : String) → (name == j) ≡ false → get j after.1.table_infos ≡ get j store.table_infos
  unfolding put
  put-other_table j h =
      let info = info_of args (get name store.table_infos) in
      finish_put-other j info (insert name info store.table_infos)
        (check_put info args features.columns) h
      ∙ get-insert_ne j info store.table_infos h

  finish_put-rejected :
      (info : TableInfo V) (x : Error)
      → let r =
          finish_put dt as_time utc name features args info
            (insert name info store.table_infos)
            (err x) in
        (r.0 ≡ err x) × (get name r.1.table_infos ≡ some info)
  unfolding finish_put
  finish_put-rejected info x =
      (refl, rw (get-insert name name info store.table_infos, eq_self name) refl)

  -- If the schema, the timestamp field or the key fields of a batch do not fit the table that is
  -- there, `put` raises the exception of the check, and the table stays as it was.
  pub put-rejected :
      (info : TableInfo V) (x : Error)
      → get name store.table_infos ≡ some info
      → check_put info args features.columns ≡ err x
      → (after.0 ≡ err x) × (get name after.1.table_infos ≡ some info)
  unfolding put info_of
  put-rejected info x found bad = rw (found, bad) (finish_put-rejected info x)
