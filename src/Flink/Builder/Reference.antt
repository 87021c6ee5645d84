-- ===== src/Flink/Builder/Reference.antt =====
-- What a builder's cache holds: tables that the descriptors have when nothing is taken from a cache.
use feathub.Prelude.{◌≡◌, sym, String, List, [], ◌∷◌, some, string_eq, ◌==◌, Bool-cases, inl, inr}
use feathub.Dict.{get, insert}
use feathub.Common.Actions.{continue_with, Post, Post-continue, Post-lift}
use feathub.Errors.{Result, ok}
use feathub.Flink.Descriptors.{
  View, SlidingView, SqlView, FeatureTable, Descriptor, feature_table, derived_view, sliding_view,
  sql_view,
}
use feathub.Flink.Builder.Steps.{BuilderState, Step}
use feathub.Flink.Builder.{Calls, table_names}

module _ (calls : Calls) where
  open calls use {Table}

  mutual
    -- The table of a descriptor, from the tables of the descriptors that it names. A query of Flink
    -- SQL reads temporary views, each of a table that the registry's descriptor of its name has.
    pub data Builds : Descriptor → Table → Type 0 where
      from_source :
          (t : FeatureTable) (x : Table)
          → calls.get_table_from_source t ≡ ok x
          → Builds (feature_table t) x
      from_derived :
          (v : View) (source : Descriptor) (st : Table)
          (joined : List (String × (Descriptor × Table))) (x : Table)
          → Builds source st
          → BuildsNamed (calls.iterate (table_names v.features)) joined
          → calls.derive v source st joined ≡ ok x
          → Builds (derived_view v source) x
      from_sliding :
          (v : SlidingView) (source : Descriptor) (st x : Table)
          → Builds source st
          → calls.slide v st ≡ ok x
          → Builds (sliding_view v source) x
      from_sql :
          (v : SqlView) (views : List (String × Table)) (x : Table)
          → BuildsViews views
          → calls.sql_query views v ≡ ok x
          → Builds (sql_view v) x

    pub data BuildsNamed : List String → List (String × (Descriptor × Table)) → Type 0 where
      no_names : BuildsNamed [] []
      a_name :
          (name : String) (names : List String) (d : Descriptor) (x : Table)
          (joined : List (String × (Descriptor × Table)))
          → calls.get_features name ≡ ok d
          → Builds d x
          → BuildsNamed names joined
          → BuildsNamed (name ∷ names) ((name, (d, x)) ∷ joined)

    pub data BuildsViews : List (String × Table) → Type 0 where
      no_views : BuildsViews []
      a_view :
          (name : String) (d : Descriptor) (x : Table) (views : List (String × Table))
          → calls.get_features name ≡ ok d
          → Builds d x
          → BuildsViews views
          → BuildsViews ((name, x) ∷ views)

  abbrev pub AllBuilt : List (String × (Descriptor × Table)) → Type 0
  AllBuilt [] = Unit {0}
  AllBuilt ((name, (d, x)) ∷ more) = Builds d x × AllBuilt more

  -- Every table in the cache and in the temporary views is the table of its descriptor.
  abbrev pub Consistent : BuilderState Table → Type 0
  Consistent s = AllBuilt s.built_tables × BuildsViews s.temporary_views

  pub AllBuilt-insert :
      (name : String) (d : Descriptor) (x : Table) (m : List (String × (Descriptor × Table)))
      → Builds d x
      → AllBuilt m
      → AllBuilt (insert name (d, x) m)
  unfolding insert
  AllBuilt-insert name d x [] b h = (b, tt)
  AllBuilt-insert name d x ((j, (e, y)) ∷ m) b (c, h) = elim (Bool-cases (j == name)) [
    | inl same ↦ rw same (b, h)
    | inr differ ↦ rw differ (c, AllBuilt-insert name d x m b h)
  ]

  pair_lem : {p q : Descriptor × Table} → some p ≡ some q → Builds p.0 p.1 → Builds q.0 q.1
  pair_lem e b = rw (sym (some_pair e)) b
    where
      some_pair : {a b : Descriptor × Table} → some a ≡ some b → a ≡ b
      some_pair h = cc

  pub AllBuilt-get :
      (name : String) (m : List (String × (Descriptor × Table))) {d : Descriptor} {x : Table}
      → AllBuilt m
      → get name m ≡ some (d, x)
      → Builds d x
  unfolding get
  AllBuilt-get name [] h e = cc
  AllBuilt-get name ((j, (f, y)) ∷ m) {d = d} {x = x} (c, h) e = elim (Bool-cases (j == name)) [
    | inl same ↦ pair_lem (rw same at e) c
    | inr differ ↦ AllBuilt-get name m h (rw differ at e)
  ]

  abbrev pub Sound : {A : Type 0} → (A → Type 0) → Result A × BuilderState Table → Type 0
  Sound P r = Post (λ a s. P a × Consistent s) (λ e s. Consistent s) r

  pub Sound-continue :
      {A B : Type 0} (P : A → Type 0) (Q : B → Type 0) (r : Result A × BuilderState Table)
      (f : A → Step Table B)
      → Sound P r
      → ((a : A) (s : BuilderState Table) → P a → Consistent s → Sound Q (f a s))
      → Sound Q (continue_with r f)
  Sound-continue P Q r f h after =
      Post-continue _ _ _ r f h (λ a s both. after a s (both.0) (both.1))

  pub Sound-lift :
      {A : Type 0} (P : A → Type 0) (r : Result A) (s : BuilderState Table)
      → Consistent s
      → ((a : A) → r ≡ ok a → P a)
      → Sound P (r, s)
  Sound-lift P r s h f = Post-lift _ _ r s (λ a e. (f a e, h)) (λ e q. h)
