-- ===== src/LocalProcessor/OverReference.antt =====
-- The over window without groups: for each row, the rows of the table that have its keys.
use feathub.Prelude.{
  ◌≡◌, refl, sym, ap, ◌∙◌, ℕ, suc, ◌+◌, String, List, [], ◌∷◌, Option, some, HasEq, nat_eq,
  string_eq, option_eq, get_elem?, Among, keep, arith,
}
use mathlib.Core.Path.{subst}
use feathub.Dict.{get}
use feathub.Errors.{Result, ok, err, ◌>>=◌}
use feathub.Dsl.{ExprAst}
use feathub.Dsl.Local.{Python}
use feathub.Aggregation.{Numpy}
use feathub.LocalProcessor.OverWindow.{
  OverWindowTransform, OverRow, Pandas, IndexMap, insert_groups, group_by_idx, rows_in_group,
  over_value, over_values, prepare, parse_filter, evaluate_over_window,
}
use feathub.LocalProcessor.Groups.{
  same_keys, IsGrouping, AllGrouped-get_elem?, IsGrouping-iloc, Leads, insert_groups_found,
}

module _ {V : Type 0} ⦃e : HasEq V⦄ (py : Python V) (np : Numpy V) (pd : Pandas V)
    (parse : String → Result (ExprAst V)) (zone : py.dt.Tz) where
  keep_all : (rows : List (OverRow V)) (row : OverRow V) → keep (same_keys [] row) rows ≡ rows
  unfolding same_keys
  keep_all [] row = refl
  keep_all (r ∷ rows) row = ap (λ rs. r ∷ rs) (keep_all rows row)

  rows_in_map :
      (groups : List (List ℕ)) (m : IndexMap) (ks : List String) (rows : List (OverRow V)) (i : ℕ)
      (row : OverRow V)
      → IsGrouping ks rows groups
      → get_elem? rows i ≡ some row
      → Leads groups i m
      → rows_in_group py np pd parse zone m rows i ≡ ok (keep (same_keys ks row) rows)
  unfolding rows_in_group Leads get
  rows_in_map groups [] ks rows i row grouping at (g, h, a, b) = cc
  rows_in_map groups (entry ∷ m) ks rows i row grouping at (g, h, a, b) =
      rw (h) (IsGrouping-iloc ks rows groups g i row grouping a b at)

  rows_in_group-keep :
      (ks : List String) (groups : List (List ℕ)) (rows : List (OverRow V)) (i : ℕ)
      (row : OverRow V)
      → IsGrouping ks rows groups
      → get_elem? rows i ≡ some row
      → rows_in_group py np pd parse zone (group_by_idx ks groups) rows i
        ≡ ok (keep (same_keys ks row) rows)
  unfolding group_by_idx rows_in_group
  rows_in_group-keep [] groups rows i row grouping at = ap ok (sym (keep_all rows row))
  rows_in_group-keep (k ∷ ks) groups rows i row grouping at =
      let (g, a, b) = AllGrouped-get_elem? groups 0 i rows row grouping.grouped at in
      let b' : Among i g = subst (λ n. Among n g) (omega arith) b in
      rows_in_map groups (insert_groups groups []) (k ∷ ks) rows i row grouping at
        (insert_groups_found groups i groups [] g (λ g p. p) a b')

  -- The index of a DataFrame whose labels are the positions, from a position on.
  abbrev pub positions : ℕ → List (OverRow V) → List ℕ
  positions i [] = []
  positions i (row ∷ rows) = i ∷ positions (suc i) rows

  -- The value of each row over the rows with its keys, with no groups.
  unfoldable pub reference_values :
      OverWindowTransform
      → Option (ExprAst V)
      → List (OverRow V)
      → List (OverRow V)
      → Result (List V)
  reference_values transform filter_node all [] = ok []
  reference_values transform filter_node all (row ∷ rows) = do
    v ←
        over_value py np pd parse zone transform filter_node row
          (keep (same_keys transform.group_by_keys row) all)
    vs ← reference_values transform filter_node all rows
    ok (v ∷ vs)

  unfoldable pub reference_over_window :
      OverWindowTransform
      → String
      → String
      → List String
      → List (List (String × V))
      → Result (List V)
  reference_over_window transform field format columns rows = do
    all ← prepare py np pd parse zone transform field format columns rows
    node ← parse_filter py np pd parse zone transform.filter_expr
    reference_values transform node all all

  over_values-eq-reference :
      (transform : OverWindowTransform) (filter_node : Option (ExprAst V)) (groups : List (List ℕ))
      (all : List (OverRow V)) (idx : ℕ) (rows : List (OverRow V))
      → IsGrouping transform.group_by_keys all groups
      → ((j : ℕ) → get_elem? all (idx + j) ≡ get_elem? rows j)
      → over_values py np pd parse zone transform filter_node
          (group_by_idx transform.group_by_keys groups)
          all
          (positions idx rows)
          rows
        ≡ reference_values transform filter_node all rows
  unfolding over_values reference_values
  over_values-eq-reference transform filter_node groups all idx [] grouping h = refl
  over_values-eq-reference transform filter_node groups all idx (row ∷ rows) grouping h =
      rw
        (
          rows_in_group-keep transform.group_by_keys groups all idx row grouping
              (ap (get_elem? all) (omega arith) ∙ h 0),
          over_values-eq-reference transform filter_node groups all (suc idx) rows grouping
              (λ j. ap (get_elem? all) (omega arith) ∙ h (suc j)),
        )
        refl

  -- Where the labels of the DataFrame are the positions of its rows, and the groups of pandas are the
  -- positions of the rows with the same keys, the over window gives each row the aggregation over the
  -- rows of the table that have its keys, lie in its window and pass the filter: the same values, or the
  -- same exception.
  pub evaluate_over_window-eq-reference :
      (transform : OverWindowTransform) (field format : String) (columns : List String)
      (labels : List ℕ) (rows : List (List (String × V)))
      → ((all : List (OverRow V))
          → prepare py np pd parse zone transform field format columns rows ≡ ok all
          → labels ≡ positions 0 all)
      → ((all : List (OverRow V))
          → prepare py np pd parse zone transform field format columns rows ≡ ok all
          → IsGrouping transform.group_by_keys all (pd.indices transform.group_by_keys all))
      → evaluate_over_window py np pd parse zone transform field format columns labels rows
        ≡ reference_over_window transform field format columns rows
  unfolding evaluate_over_window reference_over_window
  evaluate_over_window-eq-reference transform field format columns labels rows indexed grouping =
      prepared (prepare py np pd parse zone transform field format columns rows) indexed grouping
    where
      parsed :
          (all : List (OverRow V)) (n : Result (Option (ExprAst V)))
          → labels ≡ positions 0 all
          → IsGrouping transform.group_by_keys all (pd.indices transform.group_by_keys all)
          → (n >>= (λ filter_node.
              over_values py np pd parse zone transform filter_node
                (group_by_idx transform.group_by_keys (pd.indices transform.group_by_keys all))
                all
                labels
                all))
            ≡ (n >>= (λ filter_node. reference_values transform filter_node all all))
      parsed all (err x) i g = refl
      parsed all (ok filter_node) i g = rw i (
          over_values-eq-reference transform filter_node (pd.indices transform.group_by_keys all)
            all 0 all g (λ j. ap (get_elem? all) (omega arith)))

      prepared :
          (r : Result (List (OverRow V)))
          → ((all : List (OverRow V)) → r ≡ ok all → labels ≡ positions 0 all)
          → ((all : List (OverRow V))
              → r ≡ ok all
              → IsGrouping transform.group_by_keys all (pd.indices transform.group_by_keys all))
          → (r >>= (λ all.
              parse_filter py np pd parse zone transform.filter_expr >>= (λ filter_node.
                over_values py np pd parse zone transform filter_node
                  (group_by_idx transform.group_by_keys (pd.indices transform.group_by_keys all))
                  all
                  labels
                  all)))
            ≡ (r >>= (λ all.
                parse_filter py np pd parse zone transform.filter_expr
                >>= (λ filter_node. reference_values transform filter_node all all)))
      prepared (err x) i g = refl
      prepared (ok all) i g =
          parsed all (parse_filter py np pd parse zone transform.filter_expr) (i all refl)
            (g all refl)
