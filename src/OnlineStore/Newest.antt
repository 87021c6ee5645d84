-- ===== src/OnlineStore/Newest.antt =====
-- A table that keeps, for each key, a row that is at least as late as a bound.
use feathub.Prelude.{
  ◌≡◌, refl, sym, ◌∙◌, true, false, List, some, HasEq, ◌==◌, arith, Bool-cases, inl, inr,
}
use feathub.Prelude.Int.{ℤ, leb_ℤ, ◌≤ℤ◌}
use feathub.Dict.{get, insert, get-insert, eq_self}
use feathub.Errors.{Result, ok, ok-injective}

pub ≤ℤ_trans : (a b c : ℤ) → a ≤ℤ b → b ≤ℤ c → a ≤ℤ c
≤ℤ_trans a b c h k = omega arith

pub ≤ℤ_refl : (a : ℤ) → a ≤ℤ a
≤ℤ_refl a = omega arith

pub leb_ℤ→le : (a b : ℤ) → leb_ℤ a b ≡ true → a ≤ℤ b
leb_ℤ→le a b h = ground arith

pub le→leb_ℤ : (a b : ℤ) → a ≤ℤ b → leb_ℤ a b ≡ true
le→leb_ℤ a b h = ground arith

pub not-leb_ℤ→le : (a b : ℤ) → leb_ℤ a b ≡ false → b ≤ℤ a
not-leb_ℤ→le a b h = ground arith

module _ {K R : Type 0} ⦃e : HasEq K⦄ (time_of : R → Result ℤ) where
  -- Under `key` stands a row that is no earlier than time `t`.
  pub record HasSince (table : List (K × R)) (key : K) (t : ℤ) : Type 0 where
    pub row : R
    pub time : ℤ
    pub stored : get key table ≡ some row
    pub timed : time_of row ≡ ok time
    pub since : t ≤ℤ time

  pub HasSince-insert_self :
      (table : List (K × R)) (key : K) (row : R) (t : ℤ)
      → time_of row ≡ ok t
      → HasSince (insert key row table) key t
  HasSince-insert_self table key row t h = record {
    row = row;
    time = t;
    stored = rw (get-insert key key row table, eq_self key) refl;
    timed = h;
    since = ≤ℤ_refl t;
  }

  pub HasSince-insert_ne :
      (table : List (K × R)) (key k : K) (row : R) (t : ℤ)
      → (key == k) ≡ false
      → HasSince table k t
      → HasSince (insert key row table) k t
  HasSince-insert_ne table key k row t differ s = record {
    row = s.row;
    time = s.time;
    stored = rw (get-insert key k row table, differ) s.stored;
    timed = s.timed;
    since = s.since;
  }

  pub HasSince-weaken :
      (table : List (K × R)) (key : K) (t u : ℤ)
      → u ≤ℤ t
      → HasSince table key t
      → HasSince table key u
  HasSince-weaken table key t u h s = record {
    row = s.row;
    time = s.time;
    stored = s.stored;
    timed = s.timed;
    since = ≤ℤ_trans u t s.time h s.since;
  }

  -- A write of `row` at time `t`: it replaces what is not later, or finds a row that is as late.
  pub data Written (table : List (K × R)) (key : K) (row : R) (t : ℤ) (table' : List (K × R))
      : Type 0 where
    replaced :
        table' ≡ insert key row table
        → time_of row ≡ ok t
        → ((old : R) → get key table ≡ some old → (o : ℤ) × (time_of old ≡ ok o) × (o ≤ℤ t))
        → Written table key row t table'
    kept : table' ≡ table → HasSince table key t → Written table key row t table'

  pub Written-HasSince_self :
      (table table' : List (K × R)) (key : K) (row : R) (t : ℤ)
      → Written table key row t table'
      → HasSince table' key t
  Written-HasSince_self table table' key row t (replaced p h _) =
      rw p (HasSince-insert_self table key row t h)
  Written-HasSince_self table table' key row t (kept p h) = rw p h

  -- No write takes a bound away.
  pub Written-HasSince :
      (table table' : List (K × R)) (key k : K) (row : R) (t u : ℤ)
      → Written table key row t table'
      → HasSince table k u
      → HasSince table' k u
  Written-HasSince table table' key k row t u (kept p h) s = rw p s
  Written-HasSince table table' key k row t u (replaced p h later) s =
      elim (Bool-cases (key == k)) [
        | inr differ ↦ rw p (HasSince-insert_ne table key k row u differ s)
        | inl same ↦
            let same' : key ≡ k = (e.eqb_iff key k).0 same in
            let (o, ho, le) = later s.row (rw same' s.stored) in
            let eq : s.time ≡ o = ok-injective (sym s.timed ∙ ho) in
            rw (p, ← same')
              (HasSince-weaken (insert key row table) key t u
                (≤ℤ_trans u s.time t s.since (rw eq le)) (HasSince-insert_self table key row t h))
      ]
