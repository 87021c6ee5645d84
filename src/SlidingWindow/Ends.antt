-- ===== src/SlidingWindow/Ends.antt =====
-- The loop over the windows ends, and what its result holds.
use feathub.Prelude.{
  ◌≡◌, refl, ap, ◌∙◌, ℕ, zero, suc, ◌+◌, ◌<◌, true, false, List, [], ◌∷◌, Option, some, nat_beq,
  arith, Bool-cases, inl, inr,
}
use mathlib.Core.List.{reverse}
use feathub.Errors.{Result, ok, err}
use feathub.Aggregation.{Numpy}
use feathub.SlidingWindow.{
  AggregationFieldDescriptor, TimedRow, WindowRow, Evaluator, descriptors_of, emit, Outcome, latest,
  largest_window, initial_slots, in_order, get_first_window_end_time, sliding_window_func,
}
use feathub.SlidingWindow.Filter.{IsSorted}
use feathub.SlidingWindow.Reference.{
  all_expired, all_passed, AllBefore, end_window, reference, run-eq-reference,
}

nat_beq-pos : (n : ℕ) → 0 < n → nat_beq n 0 ≡ false
nat_beq-pos n h = ground arith

module _ {V : Type 0} where
  all_expired-latest :
      (window_end size : ℕ) (rows : List (TimedRow V))
      → latest rows + size < window_end
      → all_expired window_end size rows ≡ true
  unfolding all_expired latest
  all_expired-latest window_end size [] h = refl
  all_expired-latest window_end size (row ∷ rows) h =
      ground (arith, all_expired-latest window_end size rows)

  all_passed-latest :
      (window_end : ℕ) (rows : List (TimedRow V)) (ds : List AggregationFieldDescriptor)
      → latest rows + largest_window ds < window_end
      → all_passed window_end rows ds ≡ true
  unfolding all_passed largest_window
  all_passed-latest window_end rows [] h = refl
  all_passed-latest window_end rows (d ∷ ds) h = ground (
    arith,
    all_expired-latest window_end d.window_size rows,
    all_passed-latest window_end rows ds,
  )

module _ {V : Type 0} (np : Numpy V) (ev : Evaluator V) (step_size : ℕ) (rows : List (TimedRow V))
    (ds : List AggregationFieldDescriptor) where
  Returns : Outcome np ev → Type 0
  Returns o = (r : Result (List (WindowRow V))) × (o ≡ some r)

  end_window-Returns :
      (window_end : ℕ) (res : List (WindowRow V)) (more : List (WindowRow V) → Outcome np ev)
      (r : Result (List V))
      → ((res' : List (WindowRow V)) → all_passed window_end rows ds ≡ false → Returns (more res'))
      → Returns (end_window np ev rows window_end ds res more r)
  unfolding end_window Returns
  end_window-Returns window_end res more (err x) h = (err x, refl)
  end_window-Returns window_end res more (ok vs) h =
      elim (Bool-cases (all_passed window_end rows ds)) [
        | inl passed ↦ (ok (emit np ev window_end ds vs res), rw (passed, end_window) refl)
        | inr going ↦ rw (going, end_window) (h (emit np ev window_end ds vs res) going)
      ]

  -- The time of each round of the loop moves on, so it ends with fuel past the last row's windows.
  reference-Returns :
      (fuel window_end : ℕ) (res : List (WindowRow V))
      → 0 < step_size
      → latest rows + largest_window ds < window_end + fuel
      → Returns (reference np ev (suc fuel) step_size rows window_end ds res)
  unfolding reference
  reference-Returns zero window_end res pos h =
      end_window-Returns window_end res _ _
        (λ res' going. cc (going, all_passed-latest window_end rows ds (omega arith)))
  reference-Returns (suc fuel) window_end res pos h =
      end_window-Returns window_end res _ _
        (λ res' going. reference-Returns fuel (window_end + step_size) res' pos (omega arith))

module _ {V : Type 0} (np : Numpy V) (ev : Evaluator V) (step_size : ℕ) (first_row : TimedRow V)
    (rest : List (TimedRow V)) (ds : List AggregationFieldDescriptor) where
  abbrev group : List (TimedRow V)
  group = first_row ∷ rest

  descriptors_of-initial :
      (ds : List AggregationFieldDescriptor) → descriptors_of (initial_slots ds) ≡ ds
  descriptors_of-initial [] = refl
  descriptors_of-initial (d ∷ ds) = rw (descriptors_of-initial ds) refl

  AllBefore-initial :
      (window_end : ℕ) (ds : List AggregationFieldDescriptor)
      → AllBefore window_end group (initial_slots ds)
  AllBefore-initial window_end [] = tt
  AllBefore-initial window_end (d ∷ ds) =
      (record { left = omega arith; right = omega arith }, AllBefore-initial window_end ds)

  abbrev pub enough : ℕ
  enough = suc (suc (latest group + largest_window ds))

  abbrev pub first_end : ℕ
  first_end = get_first_window_end_time first_row.event_time step_size

  -- The windows of a group that is sorted by time, with a positive step: the result is that of the
  -- loop without indices from the first window's end.
  pub sliding_window-eq-reference :
      0 < step_size
      → IsSorted group
      → sliding_window_func np ev step_size group ds
        ≡ in_order np ev (reference np ev enough step_size group first_end ds [])
  unfolding sliding_window_func
  sliding_window-eq-reference pos sorted = rw (nat_beq-pos step_size pos) (
      ap (in_order np ev) (
        run-eq-reference np ev enough step_size first_end group (initial_slots ds) [] sorted
          (AllBefore-initial first_end ds)
        ∙ ap (λ ds. reference np ev enough step_size group first_end ds [])
            (descriptors_of-initial ds)))

  in_order-Returns :
      (o : Outcome np ev)
      → Returns np ev step_size group ds o
      → (r : Result (Option (List (WindowRow V)))) × (in_order np ev o ≡ some r)
  unfolding Returns
  in_order-Returns o (err x, e) = (err x, rw e refl)
  in_order-Returns o (ok res, e) = (ok (some (reverse res)), rw e refl)

  -- On a sorted group, with a positive step, the function returns: the fuel suffices.
  pub sliding_window-total :
      0 < step_size
      → IsSorted group
      → (r : Result (Option (List (WindowRow V)))) × (sliding_window_func np ev step_size group ds
          ≡ some r)
  sliding_window-total pos sorted = rw (sliding_window-eq-reference pos sorted) (
      in_order-Returns (reference np ev enough step_size group first_end ds []) (
        reference-Returns np ev step_size group ds (suc (latest group + largest_window ds))
          first_end [] pos (omega arith)))
