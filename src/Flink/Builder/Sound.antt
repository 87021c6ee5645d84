-- ===== src/Flink/Builder/Sound.antt =====
-- The builder's cache is transparent: what get_table returns is the table of its descriptor.
use feathub.Prelude.{
  ◌≡◌, refl, String, List, [], ◌∷◌, Option, none, some, ℕ, zero, suc, string_eq, HasEq, ◌==◌,
  Bool-cases, inl, inr,
}
use feathub.Dict.{contains, get, insert, keys, get-insert, eq_self}
use feathub.Errors.{ok}
use feathub.Flink.Descriptors.{
  Descriptor, feature_table, derived_view, sliding_view, sql_view, other_descriptor, name_of,
}
use feathub.Flink.Builder.Steps.{BuilderState, Step}
use feathub.Flink.Builder.{
  Calls, joined_tables, create_views, construct, get_table, from_cache, create_temporary_view,
  skips, keep_built, built,
}
use feathub.Flink.Builder.Reference.{
  Builds, BuildsNamed, from_source, from_derived, from_sliding, from_sql, no_names, a_name, a_view,
  Consistent, AllBuilt-insert, AllBuilt-get, Sound, Sound-continue, Sound-lift,
}

module _ (calls : Calls) where
  open calls use {Table}

  module _ ⦃same : HasEq Descriptor⦄ where
    module _ (build : Descriptor → Step Table Table)
        (sound : (d : Descriptor) (s : BuilderState Table)
          → Consistent calls s
          → Sound calls (Builds calls d) (build d s)) where
      joined_tables-Sound :
          (names : List String) (s : BuilderState Table)
          → Consistent calls s
          → Sound calls (BuildsNamed calls names) (joined_tables calls build names s)
      unfolding joined_tables
      joined_tables-Sound [] s h = (no_names, h)
      joined_tables-Sound (name ∷ names) s h =
          Sound-continue calls (λ d. calls.get_features name ≡ ok d) _ _ _
            (Sound-lift calls _ (calls.get_features name) s h (λ d e. e))
            (λ d s1 e h1. Sound-continue calls (Builds calls d) _ _ _ (sound d s1 h1) (λ x s2 b h2.
              Sound-continue calls (BuildsNamed calls names) _ _ _ (joined_tables-Sound names s2 h2)
                (λ rest s3 bs h3. (a_name name names d x rest e b bs, h3))))

      create_view-Sound :
          (name : String) (d : Descriptor) (x : Table) (s : BuilderState Table)
          → calls.get_features name ≡ ok d
          → Builds calls d x
          → Consistent calls s
          → Sound calls (λ done. Unit {0}) (create_temporary_view calls name x s)
      create_view-Sound name d x s e b h =
          elim (Bool-cases (contains name (keys s.temporary_views))) [
            | inl taken ↦ rw taken h
            | inr free ↦ rw free (tt, (h.0, a_view name d x s.temporary_views e b (h.1)))
          ]

      create_views-Sound :
          (names : List String) (s : BuilderState Table)
          → Consistent calls s
          → Sound calls (λ done. Unit {0}) (create_views calls build names s)
      unfolding create_views
      create_views-Sound [] s h = (tt, h)
      create_views-Sound (name ∷ names) s h = elim (Bool-cases (skips calls s name)) [
        | inl skip ↦ rw skip (create_views-Sound names s h)
        | inr new ↦ rw new (
            Sound-continue calls (λ done. Unit {0}) _ _ _
              (Sound-continue calls (λ d. calls.get_features name ≡ ok d) _ _ _
                (Sound-lift calls _ (calls.get_features name) s h (λ d e. e))
                (λ d s1 e h1.
                  Sound-continue calls (Builds calls d) _ _ _ (sound d s1 h1)
                    (λ x s2 b h2. create_view-Sound name d x s2 e b h2)))
              (λ done s3 u h3. create_views-Sound names s3 h3))
      ]

      construct-Sound :
          (d : Descriptor) (s : BuilderState Table)
          → Consistent calls s
          → Sound calls (Builds calls d) (construct calls build d s)
      unfolding construct
      construct-Sound (feature_table t) s h = Sound-lift calls _ _ s h (from_source t)
      construct-Sound (derived_view v source) s h =
          Sound-continue calls (Builds calls source) _ _ _ (sound source s h) (λ st s1 b h1.
            Sound-continue calls _ _ _ _ (joined_tables-Sound _ s1 h1) (λ joined s2 bs h2.
              Sound-lift calls _ _ s2 h2 (λ x e. from_derived v source st joined x b bs e)))
      construct-Sound (sliding_view v source) s h =
          Sound-continue calls (Builds calls source) _ _ _ (sound source s h)
            (λ st s1 b h1. Sound-lift calls _ _ s1 h1 (λ x e. from_sliding v source st x b e))
      construct-Sound (sql_view v) s h =
          Sound-continue calls _ _ _ _ (create_views-Sound calls.registered s h) (λ done s1 u h1.
            Sound-lift calls _ _ s1 h1 (λ x e. from_sql v s1.temporary_views x (h1.1) e))
      construct-Sound (other_descriptor o) s h = h

      built-Sound :
          (d : Descriptor) (x : Table) (s : BuilderState Table)
          → get (name_of d) s.built_tables ≡ some (d, x)
          → Builds calls d x
          → Consistent calls s
          → Sound calls (Builds calls d) (built calls (name_of d) s)
      built-Sound d x s e b h = rw (e, built) (b, h)

      -- The write to the cache, and the read of what it wrote.
      store-Sound :
          (d : Descriptor) (x : Table) (s : BuilderState Table)
          → Builds calls d x
          → Consistent calls s
          → Sound calls (Builds calls d) (keep_built calls d x s)
      store-Sound d x s b h =
          let found : get (name_of d) (insert (name_of d) (d, x) s.built_tables) ≡ some (d, x) =
            rw (get-insert (name_of d) (name_of d) (d, x) s.built_tables, eq_self (name_of d))
              refl in
          elim (Bool-cases (contains (name_of d) s.tables_being_built)) [
            | inl marked ↦ rw marked (
                built-Sound d x _ found b
                  (AllBuilt-insert calls (name_of d) d x s.built_tables b (h.0), h.1))
            | inr absent ↦
                rw absent (AllBuilt-insert calls (name_of d) d x s.built_tables b (h.0), h.1)
          ]

      -- What the cache returns, or the new table, is the descriptor's own.
      from_cache-Sound :
          (d : Descriptor) (s : BuilderState Table) (cached : Option (Descriptor × Table))
          → get (name_of d) s.built_tables ≡ cached
          → Consistent calls s
          → Sound calls (Builds calls d) (from_cache calls build d cached s)
      from_cache-Sound d s (some (old, t)) e h = elim (Bool-cases (d == old)) [
        | inl equal ↦ rw equal (
          rw ((same.eqb_iff d old).0 equal) (AllBuilt-get calls (name_of d) s.built_tables (h.0) e),
          h,
        )
        | inr differ ↦ rw differ h
      ]
      from_cache-Sound d s none e h =
          Sound-continue calls _ _ _ _ (construct-Sound d _ h)
            (λ t s1 b h1. store-Sound d t s1 b h1)

    -- From a state whose cached tables and temporary views are each the table of its descriptor, a
    -- call of get_table that returns gives the table of its descriptor, and returning or raising it
    -- leaves such a state.
    pub get_table-Sound :
        (n : ℕ) (d : Descriptor) (s : BuilderState Table)
        → Consistent calls s
        → Sound calls (Builds calls d) (get_table calls n d s)
    unfolding get_table
    get_table-Sound zero d s h = h
    get_table-Sound (suc n) d s h =
        from_cache-Sound (get_table calls n) (get_table-Sound n) d s _ refl h
