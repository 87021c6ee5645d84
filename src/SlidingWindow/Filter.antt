-- ===== src/SlidingWindow/Filter.antt =====
-- On rows sorted by event time, the rows between the two indices of a window are those whose time is
-- in the window.
use feathub.Prelude.{
  ◌≡◌, refl, ℕ, zero, suc, ◌+◌, ◌≤◌, Bool, ◌&&◌, List, [], ◌∷◌, length, take, drop, ltb, leb,
  if◌then◌else◌, arith,
}
use feathub.SlidingWindow.{
  AggregationFieldDescriptor, TimedRow, Window, arrived, expired, advance, slice, rows_in_window,
}
use feathub.SlidingWindow.Pointers.{prefix, IsBefore, advance-eq-target}

module _ {V : Type 0} where
  abbrev pub AllFrom : ℕ → List (TimedRow V) → Type 0
  AllFrom t [] = Unit {0}
  AllFrom t (row ∷ rows) = (t ≤ row.event_time) × AllFrom t rows

  -- Rows in the order of their event times.
  abbrev pub IsSorted : List (TimedRow V) → Type 0
  IsSorted [] = Unit {0}
  IsSorted (row ∷ rows) = AllFrom row.event_time rows × IsSorted rows

  -- The time of the row is in the window of the size that ends before `window_end`.
  abbrev pub in_window : ℕ → ℕ → TimedRow V → Bool
  in_window window_end size row =
      ltb row.event_time window_end && leb window_end (row.event_time + size)

  unfoldable pub select : (TimedRow V → Bool) → List (TimedRow V) → List (TimedRow V)
  select p [] = []
  select p (row ∷ rows) = if p row then row ∷ select p rows else select p rows

  select-late :
      (t window_end size : ℕ) (rows : List (TimedRow V))
      → window_end ≤ t
      → AllFrom t rows
      → select (in_window window_end size) rows ≡ []
  unfolding select
  select-late t window_end size [] h a = refl
  select-late t window_end size (row ∷ rows) h a =
      ground (arith, select-late t window_end size rows h a.1)

  take-prefix :
      (t window_end size : ℕ) (rows : List (TimedRow V))
      → window_end ≤ t + size
      → AllFrom t rows
      → IsSorted rows
      → take (prefix (arrived window_end) rows) rows ≡ select (in_window window_end size) rows
  unfolding prefix select
  take-prefix t window_end size [] h a s = refl
  take-prefix t window_end size (row ∷ rows) h a s = ground (
    arith,
    take-prefix t window_end size rows h a.1 s.1,
    select-late row.event_time window_end size rows,
  )

  pub slice-eq-select :
      (window_end size : ℕ) (rows : List (TimedRow V))
      → IsSorted rows
      → slice (prefix (expired window_end size) rows) (prefix (arrived window_end) rows) rows
        ≡ select (in_window window_end size) rows
  unfolding prefix select
  slice-eq-select window_end size [] s = refl
  slice-eq-select window_end size (row ∷ rows) s = ground (
    arith,
    slice-eq-select window_end size rows s.1,
    take-prefix row.event_time window_end size rows,
    select-late row.event_time window_end size rows,
  )

  drop-take_all : (n k : ℕ) (rows : List (TimedRow V)) → length rows ≤ n → drop n (take k rows) ≡ []
  drop-take_all zero zero rows h = refl
  drop-take_all zero (suc k) [] h = refl
  drop-take_all zero (suc k) (row ∷ rows) h = absurd (omega arith)
  drop-take_all (suc n) zero rows h = refl
  drop-take_all (suc n) (suc k) [] h = refl
  drop-take_all (suc n) (suc k) (row ∷ rows) h = drop-take_all n k rows (omega arith)

  rows_in_window-eq-slice :
      (rows : List (TimedRow V)) (w : Window) → rows_in_window rows w ≡ slice w.left w.right rows
  unfolding rows_in_window
  rows_in_window-eq-slice rows w = ground (arith, drop-take_all w.left w.right rows)

  -- Once the indices of a window have advanced, the rows between them are exactly those rows of the
  -- group whose time is in the window, in their order.
  pub rows_in_window-advance :
      (d : AggregationFieldDescriptor) (window_end : ℕ) (rows : List (TimedRow V)) (w : Window)
      → IsSorted rows
      → IsBefore d window_end rows w
      → rows_in_window rows (advance d window_end rows w)
        ≡ select (in_window window_end d.window_size) rows
  rows_in_window-advance d window_end rows w s b =
      rw (advance-eq-target d window_end rows w b, rows_in_window-eq-slice)
        (slice-eq-select window_end d.window_size rows s)
