-- ===== src/LocalProcessor/Evaluate.antt =====
-- The value that _evaluate_join_transform gives each source row.
use feathub.Prelude.{◌≡◌, sym, List, [], ◌∷◌, Option, none, HasEq}
use feathub.Prelude.Int.{ℤ}
use feathub.Errors.{ok, ok-injective, bind-eq-ok, traverse}
use feathub.Common.Time.{Datetime, TimeValue}
use feathub.Common.Rows.{Row, row_time}
use feathub.LocalProcessor.Join.{JoinSpec, Joined, value_of, join_rows, join_source, evaluate_join}
use feathub.LocalProcessor.PointInTime.{IsAsOf, join_rows-IsAsOf}

module _ {V : Type 0} ⦃e : HasEq V⦄ (dt : Datetime) (as_time : V → TimeValue (dt.Date)) (tz : dt.Tz)
    (spec : JoinSpec) (join_df : List (Row V)) where
  -- The value is what the joined table says as of the time of the source row.
  pub record IsJoinedValue (source_row : Row V) (value : Option V) : Type 0 where
    pub source_t : ℤ
    pub joined : Joined dt as_time tz spec
    pub timed :
        row_time dt as_time tz spec.source_time.field spec.source_time.format source_row
        ≡ ok source_t
    pub is_value : value ≡ value_of dt as_time tz spec joined
    pub as_of : IsAsOf dt as_time tz spec source_row source_t join_df joined

  -- One value for each source row, in order.
  abbrev pub AllJoined : List (Row V) → List (Option V) → Type 0
  AllJoined [] [] = Unit {0}
  AllJoined [] (v ∷ vs) = ⊥
  AllJoined (row ∷ rows) [] = ⊥
  AllJoined (row ∷ rows) (v ∷ vs) = IsJoinedValue row v × AllJoined rows vs

  join_source-IsJoinedValue :
      (source_row : Row V) (value : Option V)
      → join_source dt as_time tz spec join_df source_row ≡ ok value
      → IsJoinedValue source_row value
  unfolding join_source
  join_source-IsJoinedValue source_row value h =
      let (t, ht, h1) =
        bind-eq-ok
          (row_time dt as_time tz spec.source_time.field spec.source_time.format source_row) _ h in
      let (joined, hj, h2) =
        bind-eq-ok (join_rows dt as_time tz spec source_row t none join_df) _ h1 in
      record {
        source_t = t;
        joined = joined;
        timed = ht;
        is_value = sym (ok-injective h2);
        as_of = join_rows-IsAsOf dt as_time tz spec source_row t joined join_df hj;
      }

  -- When the join raises no exception, each source row gets, in order, the value of a latest row of the
  -- joined table among those that have its keys and are not later than it, and none if there is none.
  pub evaluate_join-AllJoined :
      (source_df : List (Row V)) (values : List (Option V))
      → evaluate_join dt as_time tz spec join_df source_df ≡ ok values
      → AllJoined source_df values
  unfolding evaluate_join
  evaluate_join-AllJoined [] [] h = tt
  evaluate_join-AllJoined [] (v ∷ vs) h = cc
  evaluate_join-AllJoined (row ∷ rows) values h =
      let (v, hv, h1) = bind-eq-ok (join_source dt as_time tz spec join_df row) _ h in
      let (vs, hvs, h2) =
        bind-eq-ok (traverse (join_source dt as_time tz spec join_df) rows) _ h1 in
      rw (sym (ok-injective h2))
        (join_source-IsJoinedValue row v hv, evaluate_join-AllJoined rows vs hvs)
