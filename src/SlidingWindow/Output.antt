-- ===== src/SlidingWindow/Output.antt =====
-- What each row of the result of the sliding windows is, and how the rows follow one another.
use native.Mathlib.Nat.{div-add-mod}
use feathub.Prelude.{
  ◌≡◌, refl, sym, ◌∙◌, ℕ, zero, suc, ◌+◌, ◌-◌, ◌*◌, ◌/◌, ◌<◌, false, List, [], ◌∷◌, none, some,
  arith, Bool-cases, inl, inr,
}
use feathub.Errors.{Result, ok, err, traverse}
use feathub.Aggregation.{Numpy}
use feathub.SlidingWindow.{
  AggregationFieldDescriptor, TimedRow, WindowRow, Evaluator, same_all, window_row, emit, Outcome,
  get_first_window_end_time, in_order, sliding_window_func,
}
use mathlib.Core.List.{reverse, reverse-reverse}
use feathub.SlidingWindow.Filter.{IsSorted}
use feathub.SlidingWindow.Ends.{sliding_window-eq-reference}
use feathub.SlidingWindow.Reference.{all_passed, window_value, end_window, reference}

get_first_window_end_time-multiple :
    (t step_size : ℕ) → (q : ℕ) × (get_first_window_end_time t step_size ≡ step_size * q)
unfolding get_first_window_end_time
get_first_window_end_time-multiple t step_size =
    (t / step_size + 1, omega (arith, div-add-mod t step_size))

first_end_pos : (t step_size : ℕ) → 0 < step_size → 0 < get_first_window_end_time t step_size
unfolding get_first_window_end_time
first_end_pos t step_size h = omega arith

module _ {V : Type 0} (np : Numpy V) (ev : Evaluator V) (step_size : ℕ) (rows : List (TimedRow V))
    (ds : List AggregationFieldDescriptor) where
  -- The values are not those of the row before, if there is one.
  abbrev pub Changed : List V → List (WindowRow V) → Type 0
  Changed vs [] = Unit {0}
  Changed vs (last ∷ older) = same_all np ev vs last.values ≡ false

  abbrev pub After : ℕ → List (WindowRow V) → Type 0
  After t [] = Unit {0}
  After t (last ∷ older) = last.window_time < t

  -- The row is of a window whose end is a multiple of the step: it has the values of the descriptors
  -- over the rows in that window, differs from the row before it, and is later.
  pub record IsWindow (row : WindowRow V) (older : List (WindowRow V)) : Type 0 where
    pub window_end : ℕ
    pub values : List V
    pub multiple : ℕ
    pub aligned : window_end ≡ step_size * multiple
    pub valued : traverse (window_value np ev window_end rows) ds ≡ ok values
    pub is_row : row ≡ window_row np ev window_end ds values
    pub changed : Changed values older
    pub later : After row.window_time older

  abbrev pub AllWindows : List (WindowRow V) → Type 0
  AllWindows [] = Unit {0}
  AllWindows (row ∷ older) = IsWindow row older × AllWindows older

  -- What the loop keeps: the result so far is sound, and older than the next window.
  pub record IsSound (window_end : ℕ) (res : List (WindowRow V)) : Type 0 where
    pub multiple : ℕ
    pub aligned : window_end ≡ step_size * multiple
    pub positive : 0 < window_end
    pub all_windows : AllWindows res
    pub after : After (window_end - 1) res

  new_row :
      (window_end : ℕ) (vs : List V) (res : List (WindowRow V))
      → IsSound window_end res
      → traverse (window_value np ev window_end rows) ds ≡ ok vs
      → Changed vs res
      → IsWindow (window_row np ev window_end ds vs) res
  new_row window_end vs res s h c = record {
    window_end = window_end;
    values = vs;
    multiple = s.multiple;
    aligned = s.aligned;
    valued = h;
    is_row = refl;
    changed = c;
    later = unfold window_row in s.after;
  }

  emit-IsSound :
      (window_end : ℕ) (vs : List V) (res : List (WindowRow V))
      → 0 < step_size
      → IsSound window_end res
      → traverse (window_value np ev window_end rows) ds ≡ ok vs
      → IsSound (window_end + step_size) (emit np ev window_end ds vs res)
  unfolding emit
  emit-IsSound window_end vs [] pos s h = record {
    multiple = s.multiple + 1;
    aligned = omega (arith, s.aligned);
    positive = omega arith;
    all_windows = (new_row window_end vs [] s h tt, tt);
    after = omega (arith, s.positive);
  }
  emit-IsSound window_end vs (last ∷ older) pos s h =
      elim (Bool-cases (same_all np ev vs last.values)) [
        | inl same ↦ rw same (record {
          multiple = s.multiple + 1;
          aligned = omega (arith, s.aligned);
          positive = omega arith;
          all_windows = s.all_windows;
          after = omega (arith, s.after);
        })
        | inr differ ↦ rw differ (record {
          multiple = s.multiple + 1;
          aligned = omega (arith, s.aligned);
          positive = omega arith;
          all_windows = (new_row window_end vs (last ∷ older) s h differ, s.all_windows);
          after = omega (arith, s.positive);
        })
      ]

  end_window_sound :
      (window_end : ℕ) (res out : List (WindowRow V)) (more : List (WindowRow V) → Outcome np ev)
      (r : Result (List V))
      → 0 < step_size
      → IsSound window_end res
      → traverse (window_value np ev window_end rows) ds ≡ r
      → ((res' : List (WindowRow V))
          → IsSound (window_end + step_size) res'
          → more res' ≡ some (ok out)
          → AllWindows out)
      → end_window np ev rows window_end ds res more r ≡ some (ok out)
      → AllWindows out
  unfolding end_window
  end_window_sound window_end res out more (err x) pos s h ih e = cc e
  end_window_sound window_end res out more (ok vs) pos s h ih e =
      let s' = emit-IsSound window_end vs res pos s h in
      elim (Bool-cases (all_passed window_end rows ds)) [
        | inl passed ↦
            let e' : ◌≡◌ {A = Outcome np ev} (some (ok (emit np ev window_end ds vs res)))
                (some (ok out)) =
              rw (passed, end_window) at e in
            let q : emit np ev window_end ds vs res ≡ out = cc in rw (← q) s'.all_windows
        | inr going ↦ ih (emit np ev window_end ds vs res) s' (rw (going, end_window) at e)
      ]

  -- Every row that the loop returns, the last first, is the row of a window.
  pub reference-AllWindows :
      (fuel window_end : ℕ) (res out : List (WindowRow V))
      → 0 < step_size
      → IsSound window_end res
      → reference np ev fuel step_size rows window_end ds res ≡ some (ok out)
      → AllWindows out
  unfolding reference
  reference-AllWindows zero window_end res out pos s e = cc e
  reference-AllWindows (suc fuel) window_end res out pos s e =
      end_window_sound window_end res out _ (traverse (window_value np ev window_end rows) ds) pos s
        refl (λ res' s' e'. reference-AllWindows fuel (window_end + step_size) res' out pos s' e') e

module _ {V : Type 0} (np : Numpy V) (ev : Evaluator V) (step_size : ℕ) (first_row : TimedRow V)
    (rest : List (TimedRow V)) (ds : List AggregationFieldDescriptor) where
  abbrev group : List (TimedRow V)
  group = first_row ∷ rest

  in_order-ok :
      (o : Outcome np ev) (out : List (WindowRow V))
      → in_order np ev o ≡ some (ok (some out))
      → (res : List (WindowRow V)) × (o ≡ some (ok res)) × (reverse res ≡ out)
  in_order-ok none out h = cc
  in_order-ok (some (err x)) out h = cc
  in_order-ok (some (ok res)) out h = (res, refl, cc)

  -- On a group sorted by time, with a positive step, every row of the result belongs to a window
  -- whose end is a multiple of the step, has the window's end less one as its time, holds the values
  -- of the descriptors over the rows whose time is in the window, differs from the row before it
  -- and is later than that row. (The result is stated from its last row.)
  pub sliding_window-AllWindows :
      (out : List (WindowRow V))
      → 0 < step_size
      → IsSorted group
      → sliding_window_func np ev step_size group ds ≡ some (ok (some out))
      → AllWindows np ev step_size group ds (reverse out)
  sliding_window-AllWindows out pos sorted h =
      let e = sym (sliding_window-eq-reference np ev step_size first_row rest ds pos sorted) ∙ h in
      let (res, er, eo) = in_order-ok _ out e in
      let (q, eq) = get_first_window_end_time-multiple first_row.event_time step_size in
      rw (← eo, reverse-reverse)
        (reference-AllWindows np ev step_size group ds _ _ [] res pos
          (record {
            multiple = q;
            aligned = eq;
            positive = first_end_pos first_row.event_time step_size pos;
            all_windows = tt;
            after = tt;
          })
          er)
