-- ===== src/LocalProcessor/Groups.antt =====
-- The groups of _evaluate_over_window_transform, and the rows with the keys of a row.
use feathub.Prelude.{
  ◌≡◌, refl, sym, ap, ◌∙◌, inl, inr, ℕ, zero, suc, ◌+◌, Bool, true, ◌&&◌, String, List, [], ◌∷◌,
  some, HasEq, ◌==◌, nat_eq, string_eq, option_eq, get_elem?, Among, keep, arith, Bool-cases,
}
use mathlib.Core.Path.{subst}
use feathub.Dict.{get, insert, get-insert, eq_self}
use feathub.Errors.{ok}
use feathub.LocalProcessor.OverWindow.{OverRow, IndexMap, insert_group, insert_groups, iloc}

module _ {V : Type 0} ⦃e : HasEq V⦄ where
  -- The rows have the same values under the keys.
  unfoldable pub same_keys : List String → OverRow V → OverRow V → Bool
  same_keys [] a b = true
  same_keys (k ∷ ks) a b = get k a.cells == get k b.cells && same_keys ks a b

  -- The positions of the group are those of the rows with the keys of its row `i`, in their order.
  abbrev pub Matches : List String → List (OverRow V) → List ℕ → ℕ → Type 0
  Matches ks rows g i =
      (row : OverRow V) × (get_elem? rows i ≡ some row)
      × (iloc g rows ≡ ok (keep (same_keys ks row) rows))

  abbrev pub AllMatch : List String → List (OverRow V) → List ℕ → List ℕ → Type 0
  AllMatch ks rows g [] = Unit {0}
  AllMatch ks rows g (i ∷ is) = Matches ks rows g i × AllMatch ks rows g is

  abbrev pub AllMembers : List String → List (OverRow V) → List (List ℕ) → Type 0
  AllMembers ks rows [] = Unit {0}
  AllMembers ks rows (g ∷ gs) = AllMatch ks rows g g × AllMembers ks rows gs

  -- Every position from `i` on is in a group.
  abbrev pub AllGrouped : List (List ℕ) → ℕ → List (OverRow V) → Type 0
  AllGrouped groups i [] = Unit {0}
  AllGrouped groups i (row ∷ rows) =
      ((g : List ℕ) × Among g groups × Among i g) × AllGrouped groups (suc i) rows

  -- What `groupby(keys).indices` is.
  pub record IsGrouping (ks : List String) (rows : List (OverRow V)) (groups : List (List ℕ))
      : Type 0 where
    pub grouped : AllGrouped groups 0 rows
    pub members : AllMembers ks rows groups

  pub AllGrouped-get_elem? :
      (groups : List (List ℕ)) (from i : ℕ) (rows : List (OverRow V)) (row : OverRow V)
      → AllGrouped groups from rows
      → get_elem? rows i ≡ some row
      → (g : List ℕ) × Among g groups × Among (from + i) g
  AllGrouped-get_elem? groups from i [] row a h = cc
  AllGrouped-get_elem? groups from zero (r ∷ rows) row ((g, b, c), a) h =
      (g, b, subst (λ n. Among n g) (omega arith) c)
  AllGrouped-get_elem? groups from (suc i) (r ∷ rows) row (b, a) h =
      let (g, c, d) = AllGrouped-get_elem? groups (suc from) i rows row a h in
      (g, c, subst (λ n. Among n g) (omega arith) d)

  AllMatch-Among :
      (ks : List String) (rows : List (OverRow V)) (g is : List ℕ) (i : ℕ)
      → AllMatch ks rows g is
      → Among i is
      → Matches ks rows g i
  AllMatch-Among ks rows g [] i m a = absurd a
  AllMatch-Among ks rows g (j ∷ is) i (m, ms) (inl same) = rw same m
  AllMatch-Among ks rows g (j ∷ is) i (m, ms) (inr a) = AllMatch-Among ks rows g is i ms a

  AllMembers-Among :
      (ks : List String) (rows : List (OverRow V)) (gs : List (List ℕ)) (g : List ℕ)
      → AllMembers ks rows gs
      → Among g gs
      → AllMatch ks rows g g
  AllMembers-Among ks rows [] g m a = absurd a
  AllMembers-Among ks rows (h ∷ gs) g (m, ms) (inl same) = rw same m
  AllMembers-Among ks rows (h ∷ gs) g (m, ms) (inr a) = AllMembers-Among ks rows gs g ms a

  found_once : {a b : OverRow V} → some a ≡ some b → a ≡ b
  found_once h = cc

  pub IsGrouping-iloc :
      (ks : List String) (rows : List (OverRow V)) (groups : List (List ℕ)) (g : List ℕ) (i : ℕ)
      (row : OverRow V)
      → IsGrouping ks rows groups
      → Among g groups
      → Among i g
      → get_elem? rows i ≡ some row
      → iloc g rows ≡ ok (keep (same_keys ks row) rows)
  IsGrouping-iloc ks rows groups g i row grouping a b h =
      let m = AllMembers-Among ks rows groups g grouping.members a in
      let (row', e, f) = AllMatch-Among ks rows g g i m b in
      f ∙ ap (λ r. ok (keep (same_keys ks r) rows)) (found_once (sym e ∙ h))

insert_group_keeps :
    (i : ℕ) (g is : List ℕ) (m : IndexMap) → get i m ≡ some g → get i (insert_group g is m) ≡ some g
unfolding insert_group
insert_group_keeps i g [] m h = h
insert_group_keeps i g (j ∷ is) m h = elim (Bool-cases (j == i)) [
  | inl same ↦ insert_group_keeps i g is (insert j g m) (rw (get-insert j i g m, same) refl)
  | inr differ ↦ insert_group_keeps i g is (insert j g m) (rw (get-insert j i g m, differ) h)
]

insert_group_new :
    (i : ℕ) (g is : List ℕ) (m : IndexMap) → Among i is → get i (insert_group g is m) ≡ some g
unfolding insert_group
insert_group_new i g [] m a = absurd a
insert_group_new i g (j ∷ is) m (inl same) =
    insert_group_keeps i g is (insert j g m) (rw (same, get-insert j j g m, eq_self j) refl)
insert_group_new i g (j ∷ is) m (inr a) = insert_group_new i g is (insert j g m) a

module _ (groups : List (List ℕ)) (i : ℕ) where
  -- The map leads from the position to a group that has it.
  unfoldable pub Leads : IndexMap → Type 0
  Leads m = (g : List ℕ) × (get i m ≡ some g) × Among g groups × Among i g

  insert_group-Leads :
      (g is : List ℕ) (m : IndexMap)
      → Among g groups
      → ((j : ℕ) → Among j is → Among j g)
      → Leads m
      → Leads (insert_group g is m)
  unfolding insert_group Leads
  insert_group-Leads g [] m a sub l = l
  insert_group-Leads g (j ∷ is) m a sub (g', h, a', b) =
      insert_group-Leads g is (insert j g m) a (λ k p. sub k (inr p))
        (elim (Bool-cases (j == i)) [
          | inl same ↦ (
            g,
            rw (get-insert j i g m, same) refl,
            a,
            rw (sym ((nat_eq.eqb_iff j i).0 same)) (sub j (inl refl)),
          )
          | inr differ ↦ (g', rw (get-insert j i g m, differ) h, a', b)
        ])

  insert_groups-Leads :
      (gs : List (List ℕ)) (m : IndexMap)
      → ((g : List ℕ) → Among g gs → Among g groups)
      → Leads m
      → Leads (insert_groups gs m)
  unfolding insert_groups
  insert_groups-Leads [] m sub l = l
  insert_groups-Leads (g ∷ gs) m sub l =
      insert_groups-Leads gs (insert_group g g m) (λ k p. sub k (inr p))
        (insert_group-Leads g g m (sub g (inl refl)) (λ j p. p) l)

  pub insert_groups_found :
      (gs : List (List ℕ)) (m : IndexMap) (g : List ℕ)
      → ((g : List ℕ) → Among g gs → Among g groups)
      → Among g gs
      → Among i g
      → Leads (insert_groups gs m)
  unfolding insert_groups Leads
  insert_groups_found [] m g sub a b = absurd a
  insert_groups_found (g' ∷ gs) m g sub (inl same) b =
      let b' : Among i g' = rw (sym same) b in
      insert_groups-Leads gs (insert_group g' g' m) (λ k p. sub k (inr p))
        (g', insert_group_new i g' g' m b', sub g' (inl refl), b')
  insert_groups_found (g' ∷ gs) m g sub (inr a) b =
      insert_groups_found gs (insert_group g' g' m) g (λ k p. sub k (inr p)) a b
