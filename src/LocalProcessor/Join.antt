-- ===== src/LocalProcessor/Join.antt =====
-- _evaluate_join_transform of processors/local/local_processor.py: for each source row the value of
-- the joined feature at the time of the row.
use feathub.Prelude.{
  Bool, true, false, String, List, [], ◌∷◌, Option, none, some, HasEq, ◌==◌, if◌then◌else◌,
}
use feathub.Prelude.Int.{ℤ, leb_ℤ, ltb_ℤ}
use feathub.Errors.{Result, ok, err, index_error, ◌>>=◌, traverse}
use feathub.Common.Time.{Datetime, TimeValue}
use feathub.Common.Rows.{Row, cell, row_time}

-- A timestamp field and its format.
pub record TimeField : Type 0 where
  pub field : String
  pub format : String

-- What the loops read besides the rows: the time fields of both tables, the keys of the feature and
-- of the joined feature, and the name of the joined feature.
pub record JoinSpec : Type 0 where
  pub source_time : TimeField
  pub join_time : TimeField
  pub keys : List String
  pub join_keys : List String
  pub variable : String

module _ {V : Type 0} ⦃e : HasEq V⦄ where
  -- The loop over the keys, by index into both lists.
  unfoldable pub keys_match : List String → List String → Row V → Row V → Result Bool
  keys_match [] js source_row join_row = ok true
  keys_match (k ∷ ks) [] source_row join_row = do a ← cell k source_row; err index_error
  keys_match (k ∷ ks) (j ∷ js) source_row join_row = do
    a ← cell k source_row
    b ← cell j join_row
    if a == b then keys_match ks js source_row join_row else ok false

module _ {V : Type 0} ⦃e : HasEq V⦄ (dt : Datetime) (as_time : V → TimeValue (dt.Date)) (tz : dt.Tz)
    (spec : JoinSpec) where
  -- `joined_value` and `joined_timestamp`, which are set together.
  abbrev pub Joined : Type 0
  Joined = Option (V × ℤ)

  unfoldable pub join_time_of : Row V → Result ℤ
  join_time_of = row_time dt as_time tz spec.join_time.field spec.join_time.format

  -- `joined_timestamp is not None and joined_timestamp >= join_timestamp`
  abbrev pub as_late : ℤ → Joined → Bool
  as_late t none = false
  as_late t (some (v, joined)) = leb_ℤ t joined

  unfoldable pub take_match : Row V → ℤ → Joined → Bool → Result Joined
  take_match join_row t joined true = do v ← cell spec.variable join_row; ok (some (v, t))
  take_match join_row t joined false = ok joined

  -- A round of the loop over the rows of the joined table.
  unfoldable pub join_row : Row V → ℤ → Joined → Row V → Result Joined
  join_row source_row source_t joined row = do
    t ← join_time_of row
    if ltb_ℤ source_t t
        then ok joined
        else if as_late t joined
        then ok joined
        else (do m ← keys_match spec.keys spec.join_keys source_row row; take_match row t joined m)

  unfoldable pub join_rows : Row V → ℤ → Joined → List (Row V) → Result Joined
  join_rows source_row source_t joined [] = ok joined
  join_rows source_row source_t joined (row ∷ rows) = do
    joined' ← join_row source_row source_t joined row
    join_rows source_row source_t joined' rows

  abbrev pub value_of : Joined → Option V
  value_of none = none
  value_of (some (v, t)) = some v

  -- The round for one source row.
  unfoldable pub join_source : List (Row V) → Row V → Result (Option V)
  join_source join_df source_row = do
    t ← row_time dt as_time tz spec.source_time.field spec.source_time.format source_row
    joined ← join_rows source_row t none join_df
    ok (value_of joined)

  unfoldable pub evaluate_join : List (Row V) → List (Row V) → Result (List (Option V))
  unfolding join_source
  evaluate_join join_df source_df = traverse (join_source join_df) source_df
