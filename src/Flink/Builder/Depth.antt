-- ===== src/Flink/Builder/Depth.antt =====
-- Which exceptions a builder raises of its own, and what a call leaves of the sets of names.
use feathub.Prelude.{
  ◌≡◌, refl, true, false, String, List, [], ◌∷◌, Option, none, some, ℕ, zero, suc, string_eq, HasEq,
  ◌==◌, Bool-cases, inl, inr, arith, ◌<◌, ◌∙◌,
}
use feathub.Dict.{contains, get, insert, keys, get-insert, eq_self}
use feathub.Common.Actions.{continue_with, Post, Post-continue, Post-lift, Post-mono}
use feathub.Errors.{Error, Result, ok, err}
use feathub.LocalProcessor.Dependent.Inputs.{contains-append_new}
use feathub.Flink.Descriptors.{
  SqlView, Descriptor, feature_table, derived_view, sliding_view, sql_view, other_descriptor,
  name_of,
}
use feathub.Flink.Builder.Steps.{BuilderState, Step}
use feathub.Flink.Builder.{
  Calls, joined_tables, create_views, construct, get_table, from_cache, create_temporary_view,
  skips, keep_built, built, mark,
}
use feathub.Flink.Builder.Names.{or-false, apart, marked_lem, contains-unmarked, marked-unmarked}
use feathub.Flink.Builder.Ranked.{
  Below, IsRanked, RaisesOnly, Kept, Kept-refl, Kept-trans, Under, Under-Kept, idle_lem,
  Under-lower, Under-marked,
}

module _ (calls : Calls) where
  open calls use {Table}

  module _ ⦃same : HasEq Descriptor⦄ (Met : Descriptor → Type 0) (rank : Descriptor → ℕ)
      (Raised : Error → Type 0) where
    abbrev Safe : {A : Type 0} → BuilderState Table → Result A × BuilderState Table → Type 0
    Safe s r = Post (λ a q. Kept calls s q) (λ e q. Raised e) r

    Safe-mono :
        {A : Type 0} (s q : BuilderState Table) (r : Result A × BuilderState Table)
        → Kept calls s q
        → Safe q r
        → Safe s r
    Safe-mono s q r h k =
        Post-mono _ _ _ _ r k (λ a p kept. Kept-trans calls s q p h kept) (λ e p raised. raised)

    Safe-continue :
        {A B : Type 0} (s : BuilderState Table) (r : Result A × BuilderState Table)
        (f : A → Step Table B)
        → Safe s r
        → ((a : A) (q : BuilderState Table) → Kept calls s q → Safe q (f a q))
        → Safe s (continue_with r f)
    Safe-continue s r f h after =
        Post-continue _ _ _ r f h (λ a q kept. Safe-mono s q (f a q) kept (after a q kept))

    Safe-lift :
        {A B : Type 0} (r : Result A) (s : BuilderState Table) (f : A → Step Table B)
        → ((e : Error) → r ≡ err e → Raised e)
        → ((a : A) → r ≡ ok a → Safe s (f a s))
        → Safe s (continue_with (r, s) f)
    Safe-lift (ok a) s f g h = h a refl
    Safe-lift (err e) s f g h = g e refl

    -- What the building of a descriptor leaves: it has also not given a view the descriptor's name.
    abbrev pub Done : Descriptor → BuilderState Table → BuilderState Table → Type 0
    Done d s r =
        Kept calls s r
        × (contains (name_of d) (keys r.temporary_views)
            ≡ contains (name_of d) (keys s.temporary_views))

    module _ (ranked : IsRanked calls Met rank) (only : RaisesOnly calls Raised)
        (build : Descriptor → Step Table Table) (bound : ℕ)
        (builds : (d : Descriptor) (s : BuilderState Table)
          → Below calls Met rank bound d
          → Under calls Met rank bound s
          → Post (λ t r. Done d s r) (λ e r. Raised e) (build d s)) where
      build-Safe :
          (d : Descriptor) (s : BuilderState Table)
          → Below calls Met rank bound d
          → Under calls Met rank bound s
          → Safe s (build d s)
      build-Safe d s h u =
          Post-mono _ _ _ _ (build d s) (builds d s h u) (λ t r done. done.0) (λ e r raised. raised)

      joined_tables-Safe :
          (names : List String) (s : BuilderState Table)
          → ((name : String) (d : Descriptor)
              → contains name names ≡ true
              → calls.get_features name ≡ ok d
              → Below calls Met rank bound d)
          → Under calls Met rank bound s
          → Safe s (joined_tables calls build names s)
      unfolding joined_tables contains
      joined_tables-Safe [] s below u = Kept-refl calls s
      joined_tables-Safe (name ∷ names) s below u =
          Safe-lift (calls.get_features name) s _ (only.of_registry name) (λ d e.
            Safe-continue s (build d s) _
              (build-Safe d s (below name d (rw (eq_self name) refl) e) u)
              (λ t q kept.
                Safe-continue q (joined_tables calls build names q) _
                  (joined_tables-Safe names q (λ other f h. below other f (ground (arith, h)))
                    (Under-Kept calls Met rank bound s q kept u))
                  (λ rest p more. Kept-refl calls p)))

      create_view-Safe :
          (name : String) (d : Descriptor) (x : Table) (s q : BuilderState Table)
          → contains name (keys s.temporary_views) ≡ false
          → contains name s.tables_being_built ≡ false
          → name_of d ≡ name
          → Done d s q
          → Safe s (create_temporary_view calls name x q)
      unfolding contains keys
      create_view-Safe name d x s q fresh idle named (kept, view) =
          let free : contains name (keys q.temporary_views) ≡ false = (rw named at view) ∙ fresh in
          rw free (
            kept.0,
            λ k h. elim (Bool-cases (name == k)) [
              | inl equal ↦ absurd (apart _ _ _ idle h ((string_eq.eqb_iff name k).0 equal))
              | inr differ ↦ rw differ (kept.1 k h)
            ],
          )

      create_views-Safe :
          (names : List String) (v : SqlView) (s : BuilderState Table)
          → bound ≡ rank (sql_view v)
          → Met (sql_view v)
          → ((name : String) → contains name names ≡ true → contains name calls.registered ≡ true)
          → contains v.name s.tables_being_built ≡ true
          → Under calls Met rank bound s
          → Safe s (create_views calls build names s)
      unfolding create_views contains
      create_views-Safe [] v s b met among busy u = Kept-refl calls s
      create_views-Safe (name ∷ names) v s b met among busy u =
          elim (Bool-cases (skips calls s name)) [
            | inl skip ↦ rw skip (
                create_views-Safe names v s b met (λ other h. among other (ground (arith, h))) busy
                  u)
            | inr new ↦ rw new (
                Safe-continue s _ _
                  (Safe-lift (calls.get_features name) s _ (only.of_registry name) (λ d e.
                    Post-continue _ _ _ (build d s) _
                      (builds d s
                        (rw b (
                          ranked.in_registry v name d met (among name (rw (eq_self name) refl))
                            (apart _ _ _ ((or-false _ _ new).1) busy) e))
                        u)
                      (λ t q done.
                        create_view-Safe name d t s q ((or-false _ _ new).0) ((or-false _ _ new).1)
                          (ranked.keyed name d e) done)))
                  (λ made q kept.
                    create_views-Safe names v q b met (λ other h. among other (ground (arith, h)))
                      (kept.0 (v.name) ∙ busy) (Under-Kept calls Met rank bound s q kept u)))
          ]

      construct-Safe :
          (d : Descriptor) (s : BuilderState Table)
          → bound ≡ rank d
          → Met d
          → contains (name_of d) s.tables_being_built ≡ true
          → Under calls Met rank bound s
          → Safe s (construct calls build d s)
      unfolding construct
      construct-Safe (feature_table t) s b met busy u =
          Post-lift _ _ (calls.get_table_from_source t) s (λ a e. Kept-refl calls s)
            (only.of_source t)
      construct-Safe (derived_view v source) s b met busy u =
          Safe-continue s (build source s) _
            (build-Safe source s (rw b (ranked.derived_source v source met)) u)
            (λ t q kept.
              Safe-continue q (joined_tables calls build _ q) _
                (joined_tables-Safe _ q
                  (λ name d among e. rw b (ranked.joined v source name d met among e))
                  (Under-Kept calls Met rank bound s q kept u))
                (λ joined p more.
                  Post-lift _ _ (calls.derive v source t joined) p (λ a e. Kept-refl calls p)
                    (only.of_derive v source t joined)))
      construct-Safe (sliding_view v source) s b met busy u =
          Safe-continue s (build source s) _
            (build-Safe source s (rw b (ranked.sliding_source v source met)) u)
            (λ t q kept.
              Post-lift _ _ (calls.slide v t) q (λ a e. Kept-refl calls q) (only.of_slide v t))
      construct-Safe (sql_view v) s b met busy u =
          Safe-continue s (create_views calls build calls.registered s) _
            (create_views-Safe calls.registered v s b met (λ name h. h) busy u)
            (λ done q kept.
              Post-lift _ _ (calls.sql_query q.temporary_views v) q (λ a e. Kept-refl calls q)
                (only.of_query q.temporary_views v))
      construct-Safe (other_descriptor o) s b met busy u = only.of_builder

      -- The end of the building: the name is no longer being built.
      keep_built-Done :
          (d : Descriptor) (t : Table) (s q : BuilderState Table)
          → contains (name_of d) s.tables_being_built ≡ false
          → Kept calls (mark calls (name_of d) s).1 q
          → Post (λ x r. Done d s r) (λ e r. Raised e) (keep_built calls d t q)
      unfolding contains
      keep_built-Done d t s q idle (names, views) =
          let n = name_of d in
          let busy : contains n q.tables_being_built ≡ true =
            names n ∙ marked_lem n s.tables_being_built in
          let found : get n (insert n (d, t) q.built_tables) ≡ some (d, t) =
            rw (get-insert n n (d, t) q.built_tables, eq_self n) refl in
          rw (busy, found, built)
            (
              (
                λ k.
                    (rw
                      (
                        contains-unmarked k n q.tables_being_built,
                        names k,
                        contains-append_new k n s.tables_being_built,
                      )
                      (marked-unmarked k n s.tables_being_built idle)),
                λ k h. views k (rw (contains-append_new k n s.tables_being_built, h) refl),
              ),
              views n (marked_lem n s.tables_being_built),
            )

      from_cache-Done :
          (d : Descriptor) (s : BuilderState Table) (cached : Option (Descriptor × Table))
          → bound ≡ rank d
          → Met d
          → Under calls Met rank (suc bound) s
          → Post (λ t r. Done d s r) (λ e r. Raised e) (from_cache calls build d cached s)
      from_cache-Done d s (some (old, t)) b met u = elim (Bool-cases (d == old)) [
        | inl equal ↦ rw equal (Kept-refl calls s, refl)
        | inr differ ↦ rw differ only.of_builder
      ]
      from_cache-Done d s none b met u =
          let marked = (mark calls (name_of d) s).1 in
          let idle = idle_lem calls Met rank d s met (Under-lower calls Met rank d bound s b u) in
          Post-continue (λ t q. Kept calls marked q) _ _ (construct calls build d marked) _
            (construct-Safe d marked b met (marked_lem (name_of d) s.tables_being_built)
              (Under-marked calls Met rank ranked d bound s marked refl b met u))
            (λ t q kept. keep_built-Done d t s q idle kept)

    -- With descriptors of lower ranks and other names wherever one is built for another, from a state
    -- in which no descriptor of the same or a lower rank has a name that is being built, a depth above
    -- the rank is enough: every exception is one of the calls, or a FeathubException. A call that
    -- returns leaves the same names being built, and has made no temporary view with one of them or with
    -- the descriptor's.
    pub get_table-Done :
        (ranked : IsRanked calls Met rank) (only : RaisesOnly calls Raised) (n : ℕ) (d : Descriptor)
        (s : BuilderState Table)
        → Met d
        → rank d < n
        → Under calls Met rank (suc (rank d)) s
        → Post (λ t r. Done d s r) (λ e r. Raised e) (get_table calls n d s)
    unfolding get_table
    get_table-Done ranked only zero d s met h u = absurd (omega (arith, h))
    get_table-Done ranked only (suc n) d s met h u =
        from_cache-Done ranked only (get_table calls n) (rank d)
          (λ e q lower under.
            get_table-Done ranked only n e q (lower.0) (omega (arith, lower.1))
              (λ k f busy low. under k f busy (low.0, omega (arith, low.1, lower.1))))
          d s _ refl met u
