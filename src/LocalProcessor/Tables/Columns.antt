-- ===== src/LocalProcessor/Tables/Columns.antt =====
-- What the columns of the features hold after the loop over the features of a derived view.
use feathub.Prelude.{
  ℕ, ◌≡◌, refl, sym, ap, ◌∙◌, Bool, true, false, ◌||◌, String, List, [], ◌∷◌, ◌++◌, HasEq,
  string_eq, ◌==◌,
}
use feathub.Dict.{insert, get-insert, contains, eq_self}
use feathub.Errors.{Result, ok, bind-eq-ok, ok-injective, traverse, ◌>>=◌}
use feathub.Common.Rows.{Row, cell}
use feathub.Aggregation.{Numpy}
use feathub.Dsl.Local.{Python}
use feathub.LocalProcessor.OverWindow.{Pandas}
use feathub.LocalProcessor.Frame.{Frame, set_cells, set_column, column}
use feathub.LocalProcessor.Tables.{
  LocalFeature, DerivedView, JoinedTable, Expressions, evaluate_feature, compute_feature,
  compute_features,
}

module _ {V : Type 0} where
  cell-insert : (name : String) (v : V) (row : Row V) → cell name (insert name v row) ≡ ok v
  unfolding cell
  cell-insert name v row = rw (get-insert name name v row, eq_self name) refl

  cell-insert_other :
      (name other : String) (v : V) (row : Row V)
      → (name == other) ≡ false
      → cell other (insert name v row) ≡ cell other row
  unfolding cell
  cell-insert_other name other v row n = rw (get-insert name other v row, n) refl

  set_cells-column :
      (name : String) (vs : List V) (rows : List (Row V)) {rows' : List (Row V)}
      → set_cells name vs rows ≡ ok rows'
      → traverse (cell name) rows' ≡ ok vs
  unfolding set_cells
  set_cells-column name [] [] h = rw (sym (ok-injective h)) refl
  set_cells-column name [] (row ∷ rows) h = cc
  set_cells-column name (v ∷ vs) [] h = cc
  set_cells-column name (v ∷ vs) (row ∷ rows) h =
      let (rest, h1, h2) = bind-eq-ok (set_cells name vs rows) _ h in
      rw (sym (ok-injective h2), cell-insert name v row, set_cells-column name vs rows h1) refl

  set_cells-other :
      (name other : String) (vs : List V) (rows : List (Row V)) {rows' : List (Row V)}
      → (name == other) ≡ false
      → set_cells name vs rows ≡ ok rows'
      → traverse (cell other) rows' ≡ traverse (cell other) rows
  unfolding set_cells
  set_cells-other name other [] [] n h = rw (sym (ok-injective h)) refl
  set_cells-other name other [] (row ∷ rows) n h = cc
  set_cells-other name other (v ∷ vs) [] n h = cc
  set_cells-other name other (v ∷ vs) (row ∷ rows) n h =
      let (rest, h1, h2) = bind-eq-ok (set_cells name vs rows) _ h in
      rw
        (
          sym (ok-injective h2),
          cell-insert_other name other v row n,
          set_cells-other name other vs rows n h1,
        )
        refl

  set_column-column :
      (name : String) (vs : List V) (df : Frame V) {df' : Frame V}
      → set_column name vs df ≡ ok df'
      → column name df' ≡ ok vs
  unfolding set_column column
  set_column-column name vs df h =
      let (rows, h1, h2) = bind-eq-ok (set_cells name vs df.rows) _ h in
      rw (sym (ok-injective h2)) (set_cells-column name vs df.rows h1)

  set_column-other :
      (name other : String) (vs : List V) (df : Frame V) {df' : Frame V}
      → (name == other) ≡ false
      → set_column name vs df ≡ ok df'
      → column other df' ≡ column other df
  unfolding set_column column
  set_column-other name other vs df n h =
      let (rows, h1, h2) = bind-eq-ok (set_cells name vs df.rows) _ h in
      rw (sym (ok-injective h2)) (set_cells-other name other vs df.rows n h1)

  abbrev pub local_names : List (LocalFeature V) → List String
  local_names [] = []
  local_names (f ∷ fs) = f.name ∷ local_names fs

module _ {V : Type 0} ⦃e : HasEq V⦄ (py : Python V) (np : Numpy V) (pd : Pandas V)
    (ex : Expressions V) (zone : py.dt.Tz) (cast : String → List V → Result (List V))
    (labels : List ℕ) (view : DerivedView V) (tables : List (String × JoinedTable V)) where
  -- The value that a feature has on a table: its transform there, cast to its data type.
  abbrev pub feature_values : LocalFeature V → Frame V → Result (List V)
  feature_values f df = do
    evaluated ← evaluate_feature py np pd ex zone view tables f f.transform labels df
    cast f.name evaluated

  compute_feature-column :
      (f : LocalFeature V) (df : Frame V) {df' : Frame V}
      → compute_feature py np pd ex zone cast labels view tables f df ≡ ok df'
      → column f.name df' ≡ feature_values f df
  unfolding compute_feature
  compute_feature-column f df h =
      let (evaluated, h1, h2) =
        bind-eq-ok (evaluate_feature py np pd ex zone view tables f f.transform labels df) _ h in
      let (assigned, h3, h4) = bind-eq-ok (set_column f.name evaluated df) _ h2 in
      let (values, h5, h6) = bind-eq-ok (cast f.name evaluated) _ h4 in
      rw (h1, h5) (set_column-column f.name values assigned h6)

  compute_feature-other :
      (f : LocalFeature V) (other : String) (df : Frame V) {df' : Frame V}
      → (f.name == other) ≡ false
      → compute_feature py np pd ex zone cast labels view tables f df ≡ ok df'
      → column other df' ≡ column other df
  unfolding compute_feature
  compute_feature-other f other df n h =
      let (evaluated, h1, h2) =
        bind-eq-ok (evaluate_feature py np pd ex zone view tables f f.transform labels df) _ h in
      let (assigned, h3, h4) = bind-eq-ok (set_column f.name evaluated df) _ h2 in
      let (values, h5, h6) = bind-eq-ok (cast f.name evaluated) _ h4 in
      set_column-other f.name other values assigned n h6
      ∙ set_column-other f.name other evaluated df n h3

  compute_features-other :
      (fs : List (LocalFeature V)) (other : String) (df : Frame V) {df' : Frame V}
      → contains other (local_names fs) ≡ false
      → compute_features py np pd ex zone cast labels view tables fs df ≡ ok df'
      → column other df' ≡ column other df
  unfolding compute_features contains
  compute_features-other [] other df n h = ap (column other) (sym (ok-injective h))
  compute_features-other (f ∷ fs) other df n h =
      let (df1, h1, h2) =
        bind-eq-ok (compute_feature py np pd ex zone cast labels view tables f df) _ h in
      let (head, rest) = neither (f.name == other) (contains other (local_names fs)) n in
      compute_features-other fs other df1 rest h2 ∙ compute_feature-other f other df head h1
    where
      neither : (a b : Bool) → (a || b) ≡ false → (a ≡ false) × (b ≡ false)
      neither false b h = (refl, h)
      neither true b h = cc

  -- After the loop over the features of a derived view, the column of a feature that no later feature
  -- has the name of holds what its transform gives on the table that the features before it make; and a
  -- column that is no feature's name is as in the source.
  pub compute_features-column :
      (before after : List (LocalFeature V)) (f : LocalFeature V) (df : Frame V) {df' : Frame V}
      → compute_features py np pd ex zone cast labels view tables (before ++ f ∷ after) df ≡ ok df'
      → contains f.name (local_names after) ≡ false
      → (df1 : Frame V) × (compute_features py np pd ex zone cast labels view tables before df
          ≡ ok df1)
        × (column f.name df' ≡ feature_values f df1)
        × ((other : String)
            → contains other (local_names (before ++ f ∷ after)) ≡ false
            → column other df' ≡ column other df)
  unfolding compute_features
  compute_features-column before after f df h n =
      let (df1, h1, h2) = split before df h in
      let (df2, h3, h4) =
        bind-eq-ok (compute_feature py np pd ex zone cast labels view tables f df1) _ h2 in
      (
        df1,
        h1,
        compute_features-other after f.name df2 n h4 ∙ compute_feature-column f df1 h3,
        λ other k. compute_features-other (before ++ f ∷ after) other df k h,
      )
    where
      split :
          (before : List (LocalFeature V)) (df : Frame V) {df' : Frame V}
          → compute_features py np pd ex zone cast labels view tables (before ++ f ∷ after) df
            ≡ ok df'
          → (df1 : Frame V) × (compute_features py np pd ex zone cast labels view tables before df
              ≡ ok df1)
            × (compute_features py np pd ex zone cast labels view tables (f ∷ after) df1 ≡ ok df')
      split [] df h = (df, refl, h)
      split (g ∷ gs) df h =
          let (d, h1, h2) =
            bind-eq-ok (compute_feature py np pd ex zone cast labels view tables g df) _ h in
          let (df1, h3, h4) = split gs d h2 in (df1, rw h1 h3, h4)
