-- ===== src/Flink/Builder/Ranked.antt =====
-- Descriptors that do not depend on themselves: a rank for them, and what a call of the builder keeps.
use feathub.Prelude.{
  ◌≡◌, ◌≢◌, refl, sym, true, false, String, List, ℕ, suc, string_eq, Bool-cases, inl, inr, arith,
  ◌<◌, ◌∙◌,
}
use feathub.Dict.{contains, keys}
use feathub.Errors.{Error, ok, err, feathub_exception}
use feathub.LocalProcessor.Dependent.{append_new}
use feathub.Flink.Descriptors.{
  View, SlidingView, SqlView, FeatureTable, Descriptor, derived_view, sliding_view, sql_view,
  name_of,
}
use feathub.Flink.Builder.Steps.{BuilderState}
use feathub.Flink.Builder.{Calls, table_names}
use feathub.Flink.Builder.Names.{marked_only}

module _ (calls : Calls) where
  open calls use {Table}

  module _ (Met : Descriptor → Type 0) (rank : Descriptor → ℕ) where
    abbrev pub Below : ℕ → Descriptor → Type 0
    Below bound d = Met d × (rank d < bound)

    -- Among some descriptors, each that the building of one meets is one of them and of a lower rank,
    -- and those of different ranks have different names. The registry keeps each under its name.
    pub record IsRanked : Type 0 where
      pub derived_source :
          (v : View) (source : Descriptor)
          → Met (derived_view v source)
          → Below (rank (derived_view v source)) source
      pub sliding_source :
          (v : SlidingView) (source : Descriptor)
          → Met (sliding_view v source)
          → Below (rank (sliding_view v source)) source
      pub joined :
          (v : View) (source : Descriptor) (name : String) (d : Descriptor)
          → Met (derived_view v source)
          → contains name (calls.iterate (table_names v.features)) ≡ true
          → calls.get_features name ≡ ok d
          → Below (rank (derived_view v source)) d
      pub in_registry :
          (v : SqlView) (name : String) (d : Descriptor)
          → Met (sql_view v)
          → contains name calls.registered ≡ true
          → name ≢ v.name
          → calls.get_features name ≡ ok d
          → Below (rank (sql_view v)) d
      pub distinct : (d e : Descriptor) → Met d → Met e → rank d < rank e → name_of d ≢ name_of e
      pub keyed :
          (name : String) (d : Descriptor) → calls.get_features name ≡ ok d → name_of d ≡ name

  -- The exceptions of the calls are among the given ones.
  pub record RaisesOnly (Raised : Error → Type 0) : Type 0 where
    pub of_source :
        (t : FeatureTable) (e : Error) → calls.get_table_from_source t ≡ err e → Raised e
    pub of_derive :
        (v : View) (source : Descriptor) (t : Table) (joined : List (String × (Descriptor × Table)))
        (e : Error)
        → calls.derive v source t joined ≡ err e
        → Raised e
    pub of_slide : (v : SlidingView) (t : Table) (e : Error) → calls.slide v t ≡ err e → Raised e
    pub of_query :
        (views : List (String × Table)) (v : SqlView) (e : Error)
        → calls.sql_query views v ≡ err e
        → Raised e
    pub of_registry : (name : String) (e : Error) → calls.get_features name ≡ err e → Raised e
    pub of_builder : Raised feathub_exception

  -- The same names are being built, and no temporary view has got the name of one of them.
  abbrev pub Kept : BuilderState Table → BuilderState Table → Type 0
  Kept s r =
      ((k : String) → contains k r.tables_being_built ≡ contains k s.tables_being_built)
      × ((k : String)
          → contains k s.tables_being_built ≡ true
          → contains k (keys r.temporary_views) ≡ contains k (keys s.temporary_views))

  pub Kept-refl : (s : BuilderState Table) → Kept s s
  Kept-refl s = (λ k. refl, λ k h. refl)

  pub Kept-trans : (s r q : BuilderState Table) → Kept s r → Kept r q → Kept s q
  Kept-trans s r q (a, b) (c, d) = (λ k. c k ∙ a k, λ k h. d k (a k ∙ h) ∙ b k h)

  module _ (Met : Descriptor → Type 0) (rank : Descriptor → ℕ) where
    -- No descriptor below the bound has a name that is being built.
    abbrev pub Under : ℕ → BuilderState Table → Type 0
    Under bound s =
        (k : String) (d : Descriptor)
        → contains k s.tables_being_built ≡ true
        → Below Met rank bound d
        → name_of d ≢ k

    pub Under-Kept :
        (bound : ℕ) (s r : BuilderState Table) → Kept s r → Under bound s → Under bound r
    Under-Kept bound s r (a, b) u k d h = u k d (sym (a k) ∙ h)

    -- What holds before the descriptor's name is marked, and after it.
    pub idle_lem :
        (d : Descriptor) (s : BuilderState Table)
        → Met d
        → Under (suc (rank d)) s
        → contains (name_of d) s.tables_being_built ≡ false
    idle_lem d s met u = elim (Bool-cases (contains (name_of d) s.tables_being_built)) [
      | inl busy ↦ absurd (u (name_of d) d busy (met, omega arith) refl)
      | inr idle ↦ idle
    ]

    pub Under-lower :
        (d : Descriptor) (bound : ℕ) (s : BuilderState Table)
        → bound ≡ rank d
        → Under (suc bound) s
        → Under (suc (rank d)) s
    Under-lower d bound s b u k e busy (met, h) = u k e busy (met, omega arith)

    pub Under-marked :
        (ranked : IsRanked Met rank) (d : Descriptor) (bound : ℕ) (s q : BuilderState Table)
        → q.tables_being_built ≡ append_new (name_of d) s.tables_being_built
        → bound ≡ rank d
        → Met d
        → Under (suc bound) s
        → Under bound q
    Under-marked ranked d bound s q m b own_met u k e busy (met, h) =
        elim (Bool-cases (contains k s.tables_being_built)) [
          | inl before ↦ u k e before (met, omega arith)
          | inr new ↦ (λ own.
              ranked.distinct e d met own_met (omega arith)
                (own ∙ sym (marked_only k (name_of d) s.tables_being_built new (rw m at busy))))
        ]
