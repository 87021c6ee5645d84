-- ===== src/LocalProcessor/GetTable/Wanted.antt =====
-- Which rows get_table returns.
use feathub.Prelude.{
  ◌≡◌, refl, sym, ap, ◌∙◌, Bool, true, false, not, List, [], ◌∷◌, Option, none, some, ◌↔◌, inl, inr,
  Among, keep, map, if◌then◌else◌, string_eq,
}
use mathlib.Core.Path.{subst}
use feathub.Prelude.Int.{ℤ}
use feathub.Dict.{contains, is_subset}
use feathub.Errors.{
  Result, ok, feathub_exception, runtime_error, bind-eq-ok, ok-injective, guard-bind, traverse,
}
use feathub.Common.Time.{Datetime, TimeValue}
use feathub.Common.Rows.{Row, row_time}
use feathub.LocalProcessor.OverWindow.{select, event_time_attribute}
use feathub.LocalProcessor.Join.{TimeField}
use feathub.LocalProcessor.Frame.{Frame}
use feathub.LocalProcessor.GetTable.{
  Series, has_key, filter_keys, from_start, before_end, unix_bound, timed_row, second,
  append_and_sort_unix_time_column, filter_range, get_table,
}

module _ {A : Type 0} where
  -- A list whose first element is kept where a test passes.
  Among-if :
      (P : A → Type 0) (b : Bool) (x y : A) (xs zs : List A)
      → (b ≡ true → P y)
      → (P y → b ≡ true)
      → Among x zs ↔ (Among x xs × P x)
      → Among x (if b then y ∷ zs else zs) ↔ (Among x (y ∷ xs) × P x)
  Among-if P true x y xs zs holds passes (f, g) = (
    λ m. elim m [ inl e ↦ (inl e, subst P (sym e) (holds refl)) | inr n ↦ (inr (f n).0, (f n).1) ],
    λ (q, k). elim q [ inl e ↦ inl e | inr n ↦ inr (g (n, k)) ],
  )
  Among-if P false x y xs zs holds passes (f, g) = (
    λ m. (inr (f m).0, (f m).1),
    λ (q, k). elim q [ inl e ↦ absurd (differ (passes (subst P e k))) | inr n ↦ g (n, k) ],
  )
    where
      differ : false ≡ true → ⊥
      differ e = cc

  Among-keep :
      (p : A → Bool) (xs : List A) (x : A) → Among x (keep p xs) ↔ (Among x xs × (p x ≡ true))
  Among-keep p [] x = (λ m. elim m [ ], λ q. elim (q.0) [ ])
  Among-keep p (y ∷ xs) x =
      Among-if (λ z. p z ≡ true) (p y) x y xs (keep p xs) (λ h. h) (λ h. h) (Among-keep p xs x)

  Among-select :
      (p : A → Result Bool) (xs : List A) (x : A) {bs : List Bool}
      → traverse p xs ≡ ok bs
      → Among x (select bs xs) ↔ (Among x xs × (p x ≡ ok true))
  unfolding select
  Among-select p [] x h = rw (sym (ok-injective h)) (λ m. elim m [ ], λ q. elim (q.0) [ ])
  Among-select p (y ∷ xs) x h =
      let (b, h1, h2) = bind-eq-ok (p y) _ h in
      let (bs, h3, h4) = bind-eq-ok (traverse p xs) _ h2 in
      rw (sym (ok-injective h4)) (
        Among-if (λ z. p z ≡ ok true) b x y xs (select bs xs) (λ e. h1 ∙ ap ok e)
          (λ k. ok-injective (sym h1 ∙ k)) (Among-select p xs x h3))

module _ {V : Type 0} (series : Series V) (dt : Datetime) (as_time : V → TimeValue (dt.Date))
    (zone : dt.Tz) where
  abbrev time_of : TimeField → Row V → Result ℤ
  time_of time row = row_time dt as_time zone time.field time.format row

  Among-timed :
      (time : TimeField) (rows : List (Row V)) (row : Row V) (t : ℤ) {timed : List (ℤ × Row V)}
      → traverse (timed_row series dt as_time zone time) rows ≡ ok timed
      → Among (t, row) timed ↔ (Among row rows × (time_of time row ≡ ok t))
  Among-timed time [] row t h = rw (sym (ok-injective h)) (λ m. elim m [ ], λ q. elim (q.0) [ ])
  Among-timed time (r ∷ rows) row t h =
      let (p, h1, h2) = bind-eq-ok (timed_row series dt as_time zone time r) _ h in
      let (rest, h3, h4) =
        bind-eq-ok (traverse (timed_row series dt as_time zone time) rows) _ h2 in
      let (t0, h5, h6) = bind-eq-ok (time_of time r) _ h1 in
      let (f, g) = Among-timed time rows row t h3 in
      let timed = ok-injective h6 in
      rw (sym (ok-injective h4), sym timed)
        (
          λ m. elim m [
            | inl e ↦ (
              inl (ap (λ q. q.1) e),
              ap (time_of time) (ap (λ q. q.1) e) ∙ h5 ∙ ap ok (sym (ap (λ q. q.0) e)),
            )
            | inr n ↦ (inr (f n).0, (f n).1)
          ],
          λ (q, k). elim q [
            | inl e ↦
                inl (pair (t, row) (t0, r) (ok-injective (sym k ∙ ap (time_of time) e ∙ h5)) e)
            | inr n ↦ inr (g (n, k))
          ],
        )
    where
      pair : (p q : ℤ × Row V) → p.0 ≡ q.0 → p.1 ≡ q.1 → p ≡ q
      pair (t, a) (u, b) h k = rw (h, k) refl

  Among-second :
      (row : Row V) (timed : List (ℤ × Row V))
      → Among row (map (second series dt as_time zone) timed) ↔ ((t : ℤ) × Among (t, row) timed)
  Among-second row [] = (λ m. elim m [ ], λ (t, m). elim m [ ])
  Among-second row ((t, r) ∷ timed) =
      let (f, g) = Among-second row timed in
      (
        λ m. elim m [ inl e ↦ (t, inl (rw e refl)) | inr n ↦ let (u, k) = f n in (u, inr k) ],
        λ (u, m). elim m [ inl e ↦ inl (ap (λ q. q.1) e) | inr n ↦ inr (g (u, n)) ],
      )

  -- Sorting loses and adds no row.
  abbrev pub IsSort : Type 0
  IsSort =
      (timed : List (ℤ × Row V)) (r : ℤ × Row V)
      → Among r (series.sort_values timed) ↔ Among r timed

  -- The row has a time in the range.
  abbrev pub InRange : TimeField → Option ℤ → Option ℤ → Row V → Type 0
  InRange time start end row =
      (t : ℤ) × (time_of time row ≡ ok t) × (from_start start t ≡ true) × (before_end end t ≡ true)

  -- The row's cells equal one of the keys.
  abbrev pub Matches : Option (Frame V) → Row V → Type 0
  Matches none row = Unit {0}
  Matches (some keys) row = has_key series keys row ≡ ok true

  filter_keys-Among :
      (keys : Option (Frame V)) (df : Frame V) (row : Row V) {df' : Frame V}
      → filter_keys series keys df ≡ ok df'
      → Among row df'.rows ↔ (Among row df.rows × Matches keys row)
  unfolding filter_keys
  filter_keys-Among none df row h = rw (sym (ok-injective h)) (λ m. (m, tt), λ (m, u). m)
  filter_keys-Among (some keys) df row h =
      let (subset, h1) = guard-bind (is_subset keys.columns df.columns) feathub_exception _ h in
      let (idx, h2, h3) = bind-eq-ok (traverse (has_key series keys) df.rows) _ h1 in
      rw (sym (ok-injective h3)) (Among-select (has_key series keys) df.rows row h2)

  kept-Among :
      (time : TimeField) (start end : Option ℤ) (rows : List (Row V)) (row : Row V)
      {timed : List (ℤ × Row V)}
      → IsSort
      → traverse (timed_row series dt as_time zone time) rows ≡ ok timed
      → Among row (
          map (second series dt as_time zone) (
            keep
              (λ r. before_end end r.0)
              (keep (λ r. from_start start r.0) (series.sort_values timed))))
        ↔ (Among row rows × InRange time start end row)
  kept-Among time start end rows row {timed} sort h =
      let sorted = series.sort_values timed in
      let started = keep (λ r. from_start start r.0) sorted in
      let kept = keep (λ r. before_end end r.0) started in
      let (f, g) = Among-second row kept in
      (
        λ m.
            let (t, a) = f m in
            let (b, e) = (Among-keep (λ r. before_end end r.0) started (t, row)).0 a in
            let (c, s) = (Among-keep (λ r. from_start start r.0) sorted (t, row)).0 b in
            let (d, k) = (Among-timed time rows row t h).0 ((sort timed (t, row)).0 c) in
            (d, (t, k, s, e)),
        λ (d, r).
            let (t, k, s, e) = r in
            let c = (sort timed (t, row)).1 ((Among-timed time rows row t h).1 (d, k)) in
            let b = (Among-keep (λ r. from_start start r.0) sorted (t, row)).1 (c, s) in
            g (t, (Among-keep (λ r. before_end end r.0) started (t, row)).1 (b, e)),
      )

  filter_range-Among :
      (time : TimeField) (start end : Option dt.Date) (df : Frame V) {df' : Frame V}
      → IsSort
      → filter_range series dt as_time zone time start end df ≡ ok df'
      → (unix_start : Option ℤ) × (unix_end : Option ℤ) × (unix_bound series dt as_time zone start
          ≡ ok unix_start)
        × (unix_bound series dt as_time zone end ≡ ok unix_end)
        × ((row : Row V)
            → Among row df'.rows ↔ (Among row df.rows × InRange time unix_start unix_end row))
  unfolding filter_range append_and_sort_unix_time_column
  filter_range-Among time start end df sort h =
      let (sorted, h1, h2) =
        bind-eq-ok (append_and_sort_unix_time_column series dt as_time zone time df) _ h in
      let (unix_start, h3, h4) = bind-eq-ok (unix_bound series dt as_time zone start) _ h2 in
      let (unix_end, h5, h6) = bind-eq-ok (unix_bound series dt as_time zone end) _ h4 in
      let (absent, h7) =
        guard-bind (not (contains event_time_attribute df.columns)) runtime_error _ h1 in
      let (timed, h8, h9) =
        bind-eq-ok (traverse (timed_row series dt as_time zone time) df.rows) _ h7 in
      (
        unix_start,
        unix_end,
        h3,
        h5,
        λ row.
            rw (sym (ok-injective h6), sym (ok-injective h9))
              (kept-Among time unix_start unix_end df.rows row sort h8),
      )

  -- With a start and an end, get_table returns exactly the rows that have one of the keys, where keys
  -- are given, and a time that is not before the start and is before the end.
  pub get_table-Among :
      (keys : Option (Frame V)) (time : TimeField) (start end : dt.Date) (df : Frame V)
      {df' : Frame V}
      → IsSort
      → get_table series dt as_time zone keys
          (some time.field)
          (some time.format)
          (some start)
          (some end)
          df
        ≡ ok df'
      → (unix_start : Option ℤ) × (unix_end : Option ℤ) × (unix_bound series dt as_time zone
            (some start)
          ≡ ok unix_start)
        × (unix_bound series dt as_time zone (some end) ≡ ok unix_end)
        × ((row : Row V)
            → Among row df'.rows
              ↔ ((Among row df.rows × Matches keys row) × InRange time unix_start unix_end row))
  unfolding get_table
  get_table-Among keys time start end df sort h =
      let (keyed, h1, h2) = bind-eq-ok (filter_keys series keys df) _ h in
      let (s, e, hs, he, rows) = filter_range-Among time (some start) (some end) keyed sort h2 in
      (
        s,
        e,
        hs,
        he,
        λ row.
            let (f, g) = rows row in
            let (k, l) = filter_keys-Among keys df row h1 in
            (λ m. let (a, r) = f m in (k a, r), λ (a, r). g (l a, r)),
      )
