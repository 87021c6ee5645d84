-- ===== src/SlidingWindow/Pointers.antt =====
-- The two index loops of a window: each stops at the length of the longest prefix that its test
-- accepts, wherever it starts below.
use feathub.Prelude.{
  ◌≡◌, refl, ℕ, zero, suc, ◌+◌, ◌≤◌, Bool, true, List, [], ◌∷◌, length, ltb, if◌then◌else◌, arith,
}
use feathub.SlidingWindow.{
  AggregationFieldDescriptor, TimedRow, Window, arrived, expired, at, advance_right, advance_left,
  advance,
}

module _ {V : Type 0} where
  -- The number of leading rows that pass the test.
  unfoldable pub prefix : (TimedRow V → Bool) → List (TimedRow V) → ℕ
  prefix p [] = 0
  prefix p (row ∷ rows) = if p row then suc (prefix p rows) else 0

  pub prefix-le-length :
      (p : TimedRow V → Bool) (rows : List (TimedRow V)) → prefix p rows ≤ length rows
  unfolding prefix
  prefix-le-length p [] = omega arith
  prefix-le-length p (row ∷ rows) = ground (arith, prefix-le-length p rows)

  -- Below the prefix the test holds, and at its end it fails.
  at-prefix :
      (p : TimedRow V → Bool) (rows : List (TimedRow V)) (i : ℕ)
      → i ≤ prefix p rows
      → at p rows i ≡ ltb i (prefix p rows)
  unfolding prefix
  at-prefix p [] i h = ground arith
  at-prefix p (row ∷ rows) zero h = ground arith
  at-prefix p (row ∷ rows) (suc i) h = ground (arith, at-prefix p rows i)

  -- A weaker test has a longer prefix.
  pub prefix_mono :
      (p q : TimedRow V → Bool) (rows : List (TimedRow V))
      → ((row : TimedRow V) → p row ≡ true → q row ≡ true)
      → prefix p rows ≤ prefix q rows
  unfolding prefix
  prefix_mono p q [] h = omega arith
  prefix_mono p q (row ∷ rows) h = ground (arith, h row, prefix_mono p q rows h)

  pub advance_right_lem :
      (fuel window_end : ℕ) (rows : List (TimedRow V)) (right : ℕ)
      → right ≤ prefix (arrived window_end) rows
      → prefix (arrived window_end) rows ≤ right + fuel
      → advance_right fuel window_end rows right ≡ prefix (arrived window_end) rows
  unfolding advance_right
  advance_right_lem zero window_end rows right h k = omega arith
  advance_right_lem (suc fuel) window_end rows right h k = ground (
    arith,
    at-prefix (arrived window_end) rows right,
    advance_right_lem fuel window_end rows (right + 1),
  )

  pub advance_left_lem :
      (fuel window_end size : ℕ) (rows : List (TimedRow V)) (right left : ℕ)
      → prefix (expired window_end size) rows ≤ right
      → left ≤ prefix (expired window_end size) rows
      → prefix (expired window_end size) rows ≤ left + fuel
      → advance_left fuel window_end size rows right left ≡ prefix (expired window_end size) rows
  unfolding advance_left
  advance_left_lem zero window_end size rows right left g h k = omega arith
  advance_left_lem (suc fuel) window_end size rows right left g h k = ground (
    arith,
    at-prefix (expired window_end size) rows left,
    advance_left_lem fuel window_end size rows right (left + 1),
  )

  pub expired-le-arrived :
      (window_end size : ℕ) (rows : List (TimedRow V))
      → prefix (expired window_end size) rows ≤ prefix (arrived window_end) rows
  expired-le-arrived window_end size rows =
      prefix_mono (expired window_end size) (arrived window_end) rows (λ row h. ground arith)

  -- Where the indices of the window of a descriptor have to be at its end.
  abbrev pub target : AggregationFieldDescriptor → ℕ → List (TimedRow V) → Window
  target d window_end rows = record {
    left = prefix (expired window_end d.window_size) rows;
    right = prefix (arrived window_end) rows;
  }

  -- The indices are not beyond those of the window.
  pub record IsBefore (d : AggregationFieldDescriptor) (window_end : ℕ) (rows : List (TimedRow V))
      (w : Window) : Type 0 where
    pub left : w.left ≤ prefix (expired window_end d.window_size) rows
    pub right : w.right ≤ prefix (arrived window_end) rows

  pub advance-eq-target :
      (d : AggregationFieldDescriptor) (window_end : ℕ) (rows : List (TimedRow V)) (w : Window)
      → IsBefore d window_end rows w
      → advance d window_end rows w ≡ target d window_end rows
  unfolding advance
  advance-eq-target d window_end rows w b =
      let r =
        advance_right_lem (length rows) window_end rows w.right b.right
          (omega (arith, prefix-le-length (arrived window_end) rows)) in
      let l =
        advance_left_lem (length rows) window_end d.window_size rows
          (prefix (arrived window_end) rows) w.left
          (expired-le-arrived window_end d.window_size rows) b.left
          (omega (arith, prefix-le-length (expired window_end d.window_size) rows)) in
      rw (r, l) refl

  -- The indices of a window are not beyond those of a later one.
  pub IsBefore-target :
      (d : AggregationFieldDescriptor) (window_end later : ℕ) (rows : List (TimedRow V))
      → window_end ≤ later
      → IsBefore d later rows (target d window_end rows)
  IsBefore-target d window_end later rows h = record {
    left =
        prefix_mono (expired window_end d.window_size) (expired later d.window_size) rows
          (λ row e. ground arith);
    right = prefix_mono (arrived window_end) (arrived later) rows (λ row e. ground arith);
  }
