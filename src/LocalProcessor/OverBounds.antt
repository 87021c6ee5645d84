-- ===== src/LocalProcessor/OverBounds.antt =====
-- Which rows an over window aggregates, and how many.
use feathub.Prelude.{
  ◌≡◌, refl, sym, ap, ◌∙◌, inl, inr, ℕ, zero, suc, ◌-◌, ◌≤◌, Bool, true, false, String, List, [],
  ◌∷◌, Option, none, some, if◌then◌else◌, length, drop, map, Among, arith, Bool-cases, nat_beq,
  length-drop,
}
use feathub.Prelude.Int.{◌≤ℤ◌}
use feathub.Errors.{Result, ok, ok-injective, bind-eq-ok, traverse}
use feathub.Dsl.{ExprAst}
use feathub.Dsl.Local.{Python}
use feathub.Aggregation.{Numpy}
use feathub.LocalProcessor.OverWindow.{
  OverWindowTransform, OverRow, Pandas, and_masks, last_rows, select, min_timestamp, in_window,
  filter_mask, predicate, limited, window_rows,
}

module _ {A : Type 0} where
  Among-drop : (n : ℕ) (x : A) (xs : List A) → Among x (drop n xs) → Among x xs
  Among-drop zero x xs a = a
  Among-drop (suc n) x [] a = a
  Among-drop (suc n) x (y ∷ xs) a = inr (Among-drop n x xs a)

  Among-last_rows : (n : ℕ) (x : A) (xs : List A) → Among x (last_rows n xs) → Among x xs
  unfolding last_rows
  Among-last_rows n x xs a = elim (Bool-cases (nat_beq n 0)) [
    | inl all ↦ rw all at a
    | inr some_rows ↦ Among-drop (length xs - n) x xs (rw some_rows at a)
  ]

  length-last_rows : (n : ℕ) (xs : List A) → length (last_rows (suc n) xs) ≤ suc n
  unfolding last_rows
  length-last_rows n xs = ground (arith, length-drop (length xs - suc n) xs)

  select-map :
      (p : A → Bool) (x : A) (xs : List A)
      → Among x (select (map p xs) xs)
      → (p x ≡ true) × Among x xs
  unfolding select
  select-map p x [] a = absurd a
  select-map p x (y ∷ xs) a = split (p y) refl a (select-map p x xs)
    where
      split :
          (b : Bool)
          → p y ≡ b
          → Among x (if b then y ∷ select (map p xs) xs else select (map p xs) xs)
          → (Among x (select (map p xs) xs) → (p x ≡ true) × Among x xs)
          → (p x ≡ true) × Among x (y ∷ xs)
      split true h (inl same) rest = (ap p same ∙ h, inl same)
      split true h (inr b) rest = let (e, c) = rest b in (e, inr c)
      split false h b rest = let (e, c) = rest b in (e, inr c)

  select-and_masks :
      (bs cs : List Bool) (x : A) (xs : List A)
      → Among x (select (and_masks bs cs) xs)
      → Among x (select bs xs)
  unfolding select
  select-and_masks [] cs x xs a = a
  select-and_masks (b ∷ bs) [] x [] a = a
  select-and_masks (b ∷ bs) [] x (y ∷ xs) a = absurd a
  select-and_masks (b ∷ bs) (c ∷ cs) x [] a = a
  select-and_masks (true ∷ bs) (true ∷ cs) x (y ∷ xs) (inl same) = inl same
  select-and_masks (true ∷ bs) (true ∷ cs) x (y ∷ xs) (inr a) = inr (select-and_masks bs cs x xs a)
  select-and_masks (true ∷ bs) (false ∷ cs) x (y ∷ xs) a = inr (select-and_masks bs cs x xs a)
  select-and_masks (false ∷ bs) (c ∷ cs) x (y ∷ xs) a = select-and_masks bs cs x xs a

-- What `sort_values` is asked for here: it loses and adds no row.
pub record IsSort {V : Type 0} (sort_values : List (OverRow V) → List (OverRow V)) : Type 0 where
  pub same_length : (rows : List (OverRow V)) → length (sort_values rows) ≡ length rows
  pub from : (r : OverRow V) (rows : List (OverRow V)) → Among r (sort_values rows) → Among r rows

module _ {V : Type 0} (py : Python V) (np : Numpy V) (pd : Pandas V)
    (parse : String → Result (ExprAst V)) (zone : py.dt.Tz) (transform : OverWindowTransform)
    (row : OverRow V) (group : List (OverRow V)) where
  abbrev window : OverRow V → Bool
  window = in_window transform.window_size row.event_time

  predicate-in_window :
      (filter_node : Option (ExprAst V)) (bs : List Bool) (r : OverRow V)
      → predicate py np pd parse zone filter_node (map window group) group ≡ ok bs
      → Among r (select bs group)
      → (window r ≡ true) × Among r group
  unfolding predicate
  predicate-in_window none bs r h a = select-map window r group (rw (ok-injective h) a)
  predicate-in_window (some n) bs r h a =
      let (cs, h1, h2) = bind-eq-ok (traverse (filter_mask py np pd parse zone n) group) _ h in
      select-map window r group
        (select-and_masks (map window group) cs r group (rw (ok-injective h2) a))

  limited-Among :
      IsSort pd.sort_values
      → (limit : Option ℕ) (r : OverRow V) (rows : List (OverRow V))
      → Among r (limited py np pd parse zone limit rows)
      → Among r rows
  limited-Among sorts none r rows a = a
  limited-Among sorts (some n) r rows a =
      sorts.from r rows (Among-last_rows n r (pd.sort_values rows) a)

  in_window_bounds :
      (r : OverRow V)
      → window r ≡ true
      → (min_timestamp transform.window_size row.event_time ≤ℤ r.event_time)
        × (r.event_time ≤ℤ row.event_time)
  unfolding in_window
  in_window_bounds r h = ground arith

  -- Where sorting loses and adds no row, every row that an over window aggregates is one of the group,
  -- not earlier than the window's start and not later than the row; and with a positive limit there
  -- are no more rows than the limit.
  pub window_rows-bounds :
      (filter_node : Option (ExprAst V)) (rows : List (OverRow V))
      → IsSort pd.sort_values
      → window_rows py np pd parse zone transform filter_node row group ≡ ok rows
      → ((r : OverRow V)
          → Among r rows
          → Among r group
            × (min_timestamp transform.window_size row.event_time ≤ℤ r.event_time)
            × (r.event_time ≤ℤ row.event_time))
        × ((n : ℕ) → transform.limit ≡ some (suc n) → length rows ≤ suc n)
  unfolding window_rows
  window_rows-bounds filter_node rows sorts h =
      let (bs, h1, h2) =
        bind-eq-ok (predicate py np pd parse zone filter_node (map window group) group) _ h in
      let e = ok-injective h2 in (inside bs h1 e, bounded bs e)
    where
      inside :
          (bs : List Bool)
          → predicate py np pd parse zone filter_node (map window group) group ≡ ok bs
          → limited py np pd parse zone transform.limit (select bs group) ≡ rows
          → (r : OverRow V) → Among r rows
          → Among r group
            × (min_timestamp transform.window_size row.event_time ≤ℤ r.event_time)
            × (r.event_time ≤ℤ row.event_time)
      inside bs h1 e r a =
          let (w, g) =
            predicate-in_window filter_node bs r h1
              (limited-Among sorts transform.limit r (select bs group) (rw e a)) in
          let (lower, upper) = in_window_bounds r w in (g, lower, upper)

      bounded :
          (bs : List Bool)
          → limited py np pd parse zone transform.limit (select bs group) ≡ rows
          → (n : ℕ) → transform.limit ≡ some (suc n)
          → length rows ≤ suc n
      bounded bs e n k = rw (sym e, k) (length-last_rows n (pd.sort_values (select bs group)))
