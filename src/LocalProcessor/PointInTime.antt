-- ===== src/LocalProcessor/PointInTime.antt =====
-- The rounds of the loop over the joined table in _evaluate_join_transform, and what is joined after
-- all of them.
use feathub.Prelude.{
  Among, ◌≡◌, refl, sym, ap, ◌∙◌, Bool, true, false, List, [], ◌∷◌, none, some, HasEq, arith,
  Bool-cases, ◌⊎◌, inl, inr,
}
use feathub.Prelude.Int.{ℤ, leb_ℤ, ltb_ℤ, ◌≤ℤ◌}
use feathub.Errors.{Result, ok, ok-injective, bind-eq-ok}
use feathub.Common.Time.{Datetime, TimeValue}
use feathub.Common.Rows.{Row, cell}
use feathub.LocalProcessor.Join.{
  JoinSpec, keys_match, Joined, join_time_of, as_late, take_match, join_row, join_rows,
}

not-ltb_ℤ→le : (a b : ℤ) → ltb_ℤ a b ≡ false → b ≤ℤ a
not-ltb_ℤ→le a b h = ground arith

ltb_ℤ→not-le : (a b : ℤ) → ltb_ℤ a b ≡ true → b ≤ℤ a → ⊥
ltb_ℤ→not-le a b h k = ground arith

leb_ℤ→le : (a b : ℤ) → leb_ℤ a b ≡ true → a ≤ℤ b
leb_ℤ→le a b h = ground arith

not-leb_ℤ→le : (a b : ℤ) → leb_ℤ a b ≡ false → b ≤ℤ a
not-leb_ℤ→le a b h = ground arith

≤ℤ_refl : (a : ℤ) → a ≤ℤ a
≤ℤ_refl a = omega arith

matches-conflict : {t : Bool} → t ≡ true → ok t ≡ ok false → ⊥
matches-conflict h k = cc

≤ℤ_trans : (a b c : ℤ) → a ≤ℤ b → b ≤ℤ c → a ≤ℤ c
≤ℤ_trans a b c h k = omega arith

module _ {V : Type 0} ⦃e : HasEq V⦄ (dt : Datetime) (as_time : V → TimeValue (dt.Date)) (tz : dt.Tz)
    (spec : JoinSpec) (source_row : Row V) (source_t : ℤ) where
  abbrev time_of : Row V → Result ℤ
  time_of = join_time_of dt as_time tz spec

  abbrev step : Joined dt as_time tz spec → Row V → Result (Joined dt as_time tz spec)
  step = join_row dt as_time tz spec source_row source_t

  -- The row has the keys of the source row and is not later.
  pub record IsEligible (row : Row V) (t : ℤ) : Type 0 where
    pub timed : time_of row ≡ ok t
    pub past : t ≤ℤ source_t
    pub matches : keys_match spec.keys spec.join_keys source_row row ≡ ok true

  abbrev pub AtLeast : ℤ → Joined dt as_time tz spec → Type 0
  AtLeast t none = ⊥
  AtLeast t (some (v, joined)) = t ≤ℤ joined

  -- What a round may do: leave what is joined, or take the row.
  data Stepped (joined : Joined dt as_time tz spec) (row : Row V)
      (joined' : Joined dt as_time tz spec) : Type 0 where
    skipped :
        joined' ≡ joined
        → ((t : ℤ) → IsEligible row t → AtLeast t joined)
        → Stepped joined row joined'
    taken :
        (v : V) (t : ℤ)
        → joined' ≡ some (v, t)
        → cell spec.variable row ≡ ok v
        → IsEligible row t
        → ((u : ℤ) → AtLeast u joined → u ≤ℤ t)
        → Stepped joined row joined'

  same_time : {row : Row V} {t u : ℤ} → time_of row ≡ ok t → IsEligible row u → t ≡ u
  same_time h el = ok-injective (sym h ∙ el.timed)

  late_AtLeast :
      (t : ℤ) (joined : Joined dt as_time tz spec)
      → as_late dt as_time tz spec t joined ≡ true
      → AtLeast t joined
  late_AtLeast t none h = cc
  late_AtLeast t (some (v, joined)) h = leb_ℤ→le t joined h

  newer_bound :
      (t : ℤ) (joined : Joined dt as_time tz spec)
      → as_late dt as_time tz spec t joined ≡ false
      → (u : ℤ) → AtLeast u joined
      → u ≤ℤ t
  newer_bound t none h u k = absurd k
  newer_bound t (some (v, joined)) h u k = ≤ℤ_trans u joined t k (not-leb_ℤ→le t joined h)

  take_match-Stepped :
      (joined joined' : Joined dt as_time tz spec) (row : Row V) (t : ℤ) (m : Bool)
      → time_of row ≡ ok t
      → t ≤ℤ source_t
      → ((u : ℤ) → AtLeast u joined → u ≤ℤ t)
      → keys_match spec.keys spec.join_keys source_row row ≡ ok m
      → take_match dt as_time tz spec row t joined m ≡ ok joined'
      → Stepped joined row joined'
  unfolding take_match
  take_match-Stepped joined joined' row t true ht past newer hm h =
      let (v, hv, h1) = bind-eq-ok (cell spec.variable row) _ h in
      taken v t (sym (ok-injective h1)) hv (record { timed = ht; past = past; matches = hm }) newer
  take_match-Stepped joined joined' row t false ht past newer hm h =
      skipped (sym (ok-injective h)) (λ u el. absurd (matches-conflict refl (sym el.matches ∙ hm)))

  join_row-Stepped :
      (joined joined' : Joined dt as_time tz spec) (row : Row V)
      → step joined row ≡ ok joined'
      → Stepped joined row joined'
  unfolding join_row
  join_row-Stepped joined joined' row h =
      let (t, ht, h1) = bind-eq-ok (time_of row) _ h in
      elim (Bool-cases (ltb_ℤ source_t t)) [
        | inl future ↦
            skipped (sym (ok-injective (rw future at h1)))
              (λ u el. absurd (ltb_ℤ→not-le source_t t future (rw (same_time ht el) el.past)))
        | inr past ↦ elim (Bool-cases (as_late dt as_time tz spec t joined)) [
          | inl late ↦
              skipped (sym (ok-injective (rw (past, late) at h1)))
                (λ u el. (rw (sym (same_time ht el)) (late_AtLeast t joined late)))
          | inr newer ↦
              let (m, hm, h2) =
                bind-eq-ok (keys_match spec.keys spec.join_keys source_row row) _
                  (rw (past, newer) at h1) in
              take_match-Stepped joined joined' row t m ht (not-ltb_ℤ→le source_t t past)
                (newer_bound t joined newer) hm h2
        ]
      ]

  AtLeast_lower :
      (t u : ℤ) (joined : Joined dt as_time tz spec) → u ≤ℤ t → AtLeast t joined → AtLeast u joined
  AtLeast_lower t u none h k = absurd k
  AtLeast_lower t u (some (v, joined)) h k = ≤ℤ_trans u t joined h k

  -- A value that is joined is that of an eligible row, with its time.
  abbrev pub Origin : List (Row V) → Joined dt as_time tz spec → Type 0
  Origin rows none = Unit {0}
  Origin rows (some (v, t)) =
      (row : Row V) × Among row rows × (cell spec.variable row ≡ ok v) × IsEligible row t

  Origin-widen :
      (rows rows' : List (Row V)) (joined : Joined dt as_time tz spec)
      → ((r : Row V) → Among r rows → Among r rows')
      → Origin rows joined
      → Origin rows' joined
  Origin-widen rows rows' none wide o = tt
  Origin-widen rows rows' (some (v, t)) wide (row, among, value, el) =
      (row, wide row among, value, el)

  Among-first :
      (row : Row V) (rows : List (Row V)) (r : Row V) → Among r (row ∷ []) → Among r (row ∷ rows)
  Among-first row rows r (inl e) = inl e
  Among-first row rows r (inr e) = absurd e

  -- From `joined` to `joined'` over the rows.
  record Progress (rows : List (Row V)) (joined joined' : Joined dt as_time tz spec) : Type 0 where
    origin : (joined' ≡ joined) ⊎ Origin rows joined'
    kept : (u : ℤ) → AtLeast u joined → AtLeast u joined'
    latest : (row : Row V) (t : ℤ) → Among row rows → IsEligible row t → AtLeast t joined'

  Stepped-Progress :
      (joined joined' : Joined dt as_time tz spec) (row : Row V)
      → Stepped joined row joined'
      → Progress (row ∷ []) joined joined'
  Stepped-Progress joined joined' row (skipped same newest) = record {
    origin = inl same;
    kept = λ u k. rw same k;
    latest = λ r t among el. rw same (newest t (single among el));
  }
    where
      single : {r : Row V} {t : ℤ} → Among r (row ∷ []) → IsEligible r t → IsEligible row t
      single (inl e) el = rw (sym e) el
      single (inr e) el = absurd e
  Stepped-Progress joined joined' row (taken v t same value el newer) = record {
    origin = inr (rw same (row, inl refl, value, el));
    kept = λ u k. rw same (newer u k);
    latest = λ r u among el'. rw same (of_row among el');
  }
    where
      of_row : {r : Row V} {u : ℤ} → Among r (row ∷ []) → IsEligible r u → u ≤ℤ t
      of_row {u = u} (inl e) el' = rw (same_time (ap time_of e ∙ el.timed) el') (≤ℤ_refl u)
      of_row (inr e) el' = absurd e

  Progress-trans :
      (row : Row V) (rows : List (Row V)) (joined middle joined' : Joined dt as_time tz spec)
      → Progress (row ∷ []) joined middle
      → Progress rows middle joined'
      → Progress (row ∷ rows) joined joined'
  Progress-trans row rows joined middle joined' p q = record {
    origin = origin_of q.origin p.origin;
    kept = λ u k. q.kept u (p.kept u k);
    latest = latest_of;
  }
    where
      origin_of :
          (joined' ≡ middle) ⊎ Origin rows joined'
          → (middle ≡ joined) ⊎ Origin (row ∷ []) middle
          → (joined' ≡ joined) ⊎ Origin (row ∷ rows) joined'
      origin_of (inr o) before = inr (Origin-widen rows (row ∷ rows) joined' (λ r a. inr a) o)
      origin_of (inl same) (inl same') = inl (same ∙ same')
      origin_of (inl same) (inr o) =
          inr (rw same (Origin-widen (row ∷ []) (row ∷ rows) middle (Among-first row rows) o))

      latest_of : (r : Row V) (t : ℤ) → Among r (row ∷ rows) → IsEligible r t → AtLeast t joined'
      latest_of r t (inl e) el = q.kept t (p.latest r t (inl e) el)
      latest_of r t (inr a) el = q.latest r t a el

  join_rows-Progress :
      (joined joined' : Joined dt as_time tz spec) (rows : List (Row V))
      → join_rows dt as_time tz spec source_row source_t joined rows ≡ ok joined'
      → Progress rows joined joined'
  unfolding join_rows
  join_rows-Progress joined joined' [] h = record {
    origin = inl (sym (ok-injective h));
    kept = λ u k. rw (sym (ok-injective h)) k;
    latest = λ row t among el. absurd among;
  }
  join_rows-Progress joined joined' (row ∷ rows) h =
      let (middle, h1, h2) = bind-eq-ok (step joined row) _ h in
      Progress-trans row rows joined middle joined'
        (Stepped-Progress joined middle row (join_row-Stepped joined middle row h1))
        (join_rows-Progress middle joined' rows h2)

  -- The value of the latest eligible row, and none if there is no eligible row.
  pub record IsAsOf (rows : List (Row V)) (joined : Joined dt as_time tz spec) : Type 0 where
    pub origin : Origin rows joined
    pub latest : (row : Row V) (t : ℤ) → Among row rows → IsEligible row t → AtLeast t joined

  pub join_rows-IsAsOf :
      (joined : Joined dt as_time tz spec) (rows : List (Row V))
      → join_rows dt as_time tz spec source_row source_t none rows ≡ ok joined
      → IsAsOf rows joined
  join_rows-IsAsOf joined rows h =
      let p = join_rows-Progress none joined rows h in
      record { origin = origin_of p.origin; latest = p.latest }
    where
      origin_of : (joined ≡ none) ⊎ Origin rows joined → Origin rows joined
      origin_of (inl e) = rw e tt
      origin_of (inr o) = o
