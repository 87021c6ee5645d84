-- ===== src/SlidingWindow/Reference.antt =====
-- The loop over the windows with its indices computes what a loop without indices computes, which
-- selects the rows of each window from all rows by their times.
use feathub.Prelude.{
  ◌≡◌, refl, ap, ◌∙◌, ℕ, zero, suc, ◌+◌, ◌≤◌, Bool, true, false, ◌&&◌, List, [], ◌∷◌, map, none,
  some, length, leb, arith,
}
use feathub.Errors.{Error, Result, ok, err, ◌>>=◌, traverse}
use feathub.Aggregation.{Numpy}
use feathub.SlidingWindow.{
  AggregationFieldDescriptor, TimedRow, WindowRow, Slot, Evaluator, expired, reached_end,
  all_reach_end, aggregate_rows, step_slot, values_of, descriptors_of, emit, Outcome, end_round,
  run,
}
use feathub.SlidingWindow.Pointers.{
  prefix, expired-le-arrived, target, IsBefore, advance-eq-target, IsBefore-target,
}
use feathub.SlidingWindow.Filter.{IsSorted, in_window, select, rows_in_window-advance}

abbrev pair_with : {B C : Type 0} → C → Result B → Result (B × C)
pair_with c r = do b ← r; ok (b, c)

module _ {A B C : Type 0} where
  -- A traversal beside one that also returns a value of each element.
  data Traversed (f : A → Result B) (g : A → C) (xs : List A) (pairs : Result (List (B × C)))
      (single : Result (List B)) : Type 0 where
    raised : (x : Error) → pairs ≡ err x → single ≡ err x → Traversed f g xs pairs single
    returned :
        (outs : List (B × C))
        → pairs ≡ ok outs
        → single ≡ ok (map (λ p. p.0) outs)
        → map (λ p. p.1) outs ≡ map g xs
        → Traversed f g xs pairs single

  traverse-pair :
      (f : A → Result B) (g : A → C) (xs : List A)
      → Traversed f g xs (traverse (λ a. pair_with (g a) (f a)) xs) (traverse f xs)
  traverse-pair f g [] = returned [] refl refl refl
  traverse-pair f g (x ∷ xs) = go (f x) refl (traverse-pair f g xs)
    where
      go :
          (r : Result B)
          → f x ≡ r
          → Traversed f g xs (traverse (λ a. pair_with (g a) (f a)) xs) (traverse f xs)
          → Traversed f g
              (x ∷ xs)
              (traverse (λ a. pair_with (g a) (f a)) (x ∷ xs))
              (traverse f (x ∷ xs))
      go (err e) p t = raised e (rw p refl) (rw p refl)
      go (ok b) p (raised e q r) = raised e (rw (p, q) refl) (rw (p, r) refl)
      go (ok b) p (returned outs q r m) =
          returned ((b, g x) ∷ outs) (rw (p, q) refl) (rw (p, r) refl) (rw m refl)

module _ {V : Type 0} where
  unfoldable pub all_expired : ℕ → ℕ → List (TimedRow V) → Bool
  all_expired window_end size [] = true
  all_expired window_end size (row ∷ rows) =
      expired window_end size row && all_expired window_end size rows

  -- Every row is before every window.
  unfoldable pub all_passed : ℕ → List (TimedRow V) → List AggregationFieldDescriptor → Bool
  all_passed window_end rows [] = true
  all_passed window_end rows (d ∷ ds) =
      all_expired window_end d.window_size rows && all_passed window_end rows ds

  prefix-all_expired :
      (window_end size : ℕ) (rows : List (TimedRow V))
      → leb (length rows) (prefix (expired window_end size) rows) ≡ all_expired window_end size rows
  unfolding prefix all_expired
  prefix-all_expired window_end size [] = ground arith
  prefix-all_expired window_end size (row ∷ rows) =
      ground (arith, prefix-all_expired window_end size rows)

  reached_end-target :
      (d : AggregationFieldDescriptor) (window_end : ℕ) (rows : List (TimedRow V))
      → reached_end rows (target d window_end rows) ≡ all_expired window_end d.window_size rows
  reached_end-target d window_end rows = ground (
    arith,
    expired-le-arrived window_end d.window_size rows,
    prefix-all_expired window_end d.window_size rows,
  )

  abbrev retarget : ℕ → List (TimedRow V) → Slot → Slot
  retarget window_end rows s = (s.0, target s.0 window_end rows)

  all_reach_end-retarget :
      (window_end : ℕ) (rows : List (TimedRow V)) (slots : List Slot)
      → all_reach_end rows (map (retarget window_end rows) slots)
        ≡ all_passed window_end rows (descriptors_of slots)
  unfolding all_reach_end all_passed
  all_reach_end-retarget window_end rows [] = refl
  all_reach_end-retarget window_end rows (s ∷ slots) =
      rw (reached_end-target s.0 window_end rows, all_reach_end-retarget window_end rows slots) refl

  abbrev pub AllBefore : ℕ → List (TimedRow V) → List Slot → Type 0
  AllBefore window_end rows [] = Unit {0}
  AllBefore window_end rows (s ∷ slots) =
      IsBefore s.0 window_end rows s.1 × AllBefore window_end rows slots

  AllBefore-retarget :
      (window_end later : ℕ) (rows : List (TimedRow V)) (slots : List Slot)
      → window_end ≤ later
      → AllBefore later rows (map (retarget window_end rows) slots)
  AllBefore-retarget window_end later rows [] h = tt
  AllBefore-retarget window_end later rows (s ∷ slots) h = (
    IsBefore-target s.0 window_end later rows h,
    AllBefore-retarget window_end later rows slots h,
  )

  descriptors_of-retarget :
      (window_end : ℕ) (rows : List (TimedRow V)) (slots : List Slot)
      → descriptors_of (map (retarget window_end rows) slots) ≡ descriptors_of slots
  descriptors_of-retarget window_end rows [] = refl
  descriptors_of-retarget window_end rows (s ∷ slots) =
      rw (descriptors_of-retarget window_end rows slots) refl

module _ {V : Type 0} (np : Numpy V) (ev : Evaluator V) where
  -- The value of a descriptor at a window: its aggregation over the rows whose time is in the window.
  pub window_value : ℕ → List (TimedRow V) → AggregationFieldDescriptor → Result V
  window_value window_end rows d =
      aggregate_rows np ev d (select (in_window window_end d.window_size) rows)

  unfoldable pub end_window :
      List (TimedRow V)
      → ℕ
      → List AggregationFieldDescriptor
      → List (WindowRow V)
      → (List (WindowRow V) → Outcome np ev)
      → Result (List V)
      → Outcome np ev
  end_window rows window_end ds res more (err x) = some (err x)
  end_window rows window_end ds res more (ok vs) =
      let res' = emit np ev window_end ds vs res in
      elim (all_passed window_end rows ds) [ true ↦ some (ok res') | false ↦ more res' ]

  -- The loop without indices: the descriptors' values at each window, until every row is before the
  -- window of every descriptor.
  unfoldable pub reference :
      ℕ
      → ℕ
      → List (TimedRow V)
      → ℕ
      → List AggregationFieldDescriptor
      → List (WindowRow V)
      → Outcome np ev
  reference zero step_size rows window_end ds res = none
  reference (suc fuel) step_size rows window_end ds res =
      end_window rows window_end ds res (reference fuel step_size rows (window_end + step_size) ds)
        (traverse (window_value window_end rows) ds)

  step_slot-eq-value :
      (window_end : ℕ) (rows : List (TimedRow V)) (s : Slot)
      → IsSorted rows
      → IsBefore s.0 window_end rows s.1
      → step_slot np ev window_end rows s
        ≡ pair_with (retarget window_end rows s) (window_value window_end rows s.0)
  unfolding step_slot window_value
  step_slot-eq-value window_end rows (d, w) sorted b =
      rw
        (
          rows_in_window-advance d window_end rows w sorted b,
          advance-eq-target d window_end rows w b,
        )
        refl

  step_slots-eq-values :
      (window_end : ℕ) (rows : List (TimedRow V)) (slots : List Slot)
      → IsSorted rows
      → AllBefore window_end rows slots
      → traverse (step_slot np ev window_end rows) slots
        ≡ traverse
            (λ s. pair_with (retarget window_end rows s) (window_value window_end rows s.0))
            slots
  step_slots-eq-values window_end rows [] sorted b = refl
  step_slots-eq-values window_end rows (s ∷ slots) sorted b = rw (
    step_slot-eq-value window_end rows s sorted b.0,
    step_slots-eq-values window_end rows slots sorted b.1,
  )

  traverse-descriptors_of :
      (window_end : ℕ) (rows : List (TimedRow V)) (slots : List Slot)
      → traverse (λ s. window_value window_end rows s.0) slots
        ≡ traverse (window_value window_end rows) (descriptors_of slots)
  traverse-descriptors_of window_end rows [] = refl
  traverse-descriptors_of window_end rows (s ∷ slots) =
      rw (traverse-descriptors_of window_end rows slots)

  end_round-eq-end_window :
      (window_end : ℕ) (rows : List (TimedRow V)) (slots : List Slot) (res : List (WindowRow V))
      (more : List Slot → List (WindowRow V) → Outcome np ev)
      (more' : List (WindowRow V) → Outcome np ev) (pairs : Result (List (V × Slot)))
      (single : Result (List V))
      → ((res' : List (WindowRow V))
          → more (map (retarget window_end rows) slots) res' ≡ more' res')
      → Traversed
          (λ s. window_value window_end rows s.0)
          (retarget window_end rows)
          slots
          pairs
          single
      → end_round np ev rows window_end slots res more pairs
        ≡ end_window rows window_end (descriptors_of slots) res more' single
  unfolding end_round end_window
  end_round-eq-end_window window_end rows slots res more more' pairs single ih (raised x p q) =
      rw (p, q) refl
  end_round-eq-end_window window_end rows slots res more more' pairs single ih
        (returned outs p q m) =
      rw (p, q)
        (rw (m, all_reach_end-retarget window_end rows slots, end_round)
          (ground (arith, ih (emit np ev window_end (descriptors_of slots) (values_of outs) res))))

  -- On rows sorted by time and with indices that are not beyond the first window, the loop with its
  -- indices gives what the loop without indices gives, with the same fuel: the same rows of the
  -- result or the same exception.
  pub run-eq-reference :
      (fuel step_size window_end : ℕ) (rows : List (TimedRow V)) (slots : List Slot)
      (res : List (WindowRow V))
      → IsSorted rows
      → AllBefore window_end rows slots
      → run np ev fuel step_size rows window_end slots res
        ≡ reference fuel step_size rows window_end (descriptors_of slots) res
  unfolding run reference
  run-eq-reference zero step_size window_end rows slots res sorted b = refl
  run-eq-reference (suc fuel) step_size window_end rows slots res sorted b =
      rw
        (
          step_slots-eq-values window_end rows slots sorted b,
          ← traverse-descriptors_of window_end rows slots,
        )
        (end_round-eq-end_window window_end rows slots res
          (run np ev fuel step_size rows (window_end + step_size))
          (reference fuel step_size rows (window_end + step_size) (descriptors_of slots)) _ _
          (λ res'.
            run-eq-reference fuel step_size (window_end + step_size) rows
              (map (retarget window_end rows) slots) res' sorted
              (AllBefore-retarget window_end (window_end + step_size) rows slots (omega arith))
            ∙ ap (λ ds. reference fuel step_size rows (window_end + step_size) ds res')
                (descriptors_of-retarget window_end rows slots))
          (traverse-pair (λ s. window_value window_end rows s.0) (retarget window_end rows) slots))
