-- ===== src/Flink/Builder/Build/Cleared.antt =====
-- What build leaves of the cache.
use feathub.Prelude.{
  string_eq, ◌≡◌, refl, Bool, true, false, String, Option, none, some, ℕ, HasEq, if◌then◌else◌, [],
}
use feathub.Prelude.Int.{ℤ}
use feathub.Dict.{contains, is_subset}
use feathub.Common.Actions.{lift, Post-mono}
use feathub.Errors.{Result, ok, err, feathub_exception}
use feathub.LocalProcessor.OverWindow.{event_time_attribute}
use feathub.Flink.Descriptors.{Descriptor}
use feathub.Flink.Builder.{Calls, State, get_table}
use feathub.Flink.Builder.Reference.{Builds, Consistent, Sound, Sound-continue, Sound-lift}
use feathub.Flink.Builder.Sound.{get_table-Sound}
use feathub.Flink.Builder.Build.{
  Operations, Keys, data_frame, descriptor, key_table, filter_table_by_keys, bounded_by,
  range_table_by_time, ranged, build_table, finish, build, timestamp_field_of,
}

module _ (calls : Calls) (operations : Operations (calls.Table)) ⦃same : HasEq Descriptor⦄ where
  open calls use {Table}

  abbrev Any : Table → Type 0
  Any t = Unit {0}

  abbrev Keeps : Result Table × State calls → Type 0
  Keeps r = Sound calls Any r

  Keeps-if :
      (b : Bool) (x y : Result Table) (s : State calls)
      → Consistent calls s
      → Keeps ((if b then lift x else lift y) s)
  Keeps-if true x y s h = Sound-lift calls _ x s h (λ t e. tt)
  Keeps-if false x y s h = Sound-lift calls _ y s h (λ t e. tt)

  Keeps-get_table :
      (n : ℕ) (d : Descriptor) (s : State calls)
      → Consistent calls s
      → Keeps (get_table calls n d s)
  Keeps-get_table n d s h =
      Post-mono (λ t q. Builds calls d t × Consistent calls q) (λ t q. Any t × Consistent calls q)
        (λ e q. Consistent calls q) (λ e q. Consistent calls q) (get_table calls n d s)
        (get_table-Sound calls n d s h) (λ t q done. (tt, done.1)) (λ e q k. k)

  Keeps-key_table :
      (n : ℕ) (ks : Keys calls operations) (s : State calls)
      → Consistent calls s
      → Keeps (key_table calls operations n ks s)
  Keeps-key_table n (data_frame df) s h = (tt, h)
  Keeps-key_table n (descriptor d) s h = Keeps-get_table n d s h

  Keeps-filter :
      (n : ℕ) (ks : Option (Keys calls operations)) (t : Table) (s : State calls)
      → Consistent calls s
      → Keeps (filter_table_by_keys calls operations n ks t s)
  unfolding filter_table_by_keys
  Keeps-filter n none t s h = (tt, h)
  Keeps-filter n (some ks) t s h =
      Sound-continue calls Any Any _ _ (Keeps-key_table n ks s h) (λ key q u k.
        Keeps-if (is_subset (operations.field_names key) (operations.field_names t))
          (operations.join_table_on_key key t (operations.field_names key)) (err feathub_exception)
          q k)

  Keeps-bounded :
      (filter : ℤ → Table → Result Table) (time : Option ℤ) (t : Table) (s : State calls)
      → Consistent calls s
      → Keeps (bounded_by calls operations filter time t s)
  Keeps-bounded filter none t s h = (tt, h)
  Keeps-bounded filter (some at) t s h = Sound-lift calls Any (filter at t) s h (λ x e. tt)

  Keeps-range :
      (start end : Option ℤ) (t : Table) (s : State calls)
      → Consistent calls s
      → Keeps (range_table_by_time calls operations start end t s)
  unfolding range_table_by_time
  Keeps-range start end t s h =
      Sound-continue calls Any Any _ _ (Keeps-bounded operations.filter_from start t s h)
        (λ later q u k. Keeps-bounded operations.filter_before end later q k)

  Keeps-ranged :
      (field : Option String) (start end : Option ℤ) (t : Table) (s : State calls)
      → Consistent calls s
      → Keeps (ranged calls operations field start end t s)
  Keeps-ranged field none none t s h = (tt, h)
  Keeps-ranged (some field) none (some end) t s h = Keeps-range none (some end) t s h
  Keeps-ranged (some field) (some start) end t s h = Keeps-range (some start) end t s h
  Keeps-ranged none none (some end) t s h = h
  Keeps-ranged none (some start) end t s h = h

  Keeps-build_table :
      (n : ℕ) (unresolved : Bool) (d : Descriptor) (ks : Option (Keys calls operations))
      (start end : Option ℤ) (s : State calls)
      → Consistent calls s
      → Keeps (build_table calls operations n unresolved d ks start end s)
  unfolding build_table
  Keeps-build_table n true d ks start end s h = h
  Keeps-build_table n false d ks start end s h =
      Sound-continue calls Any Any _ _ (Keeps-get_table n d s h) (λ t q u k.
        Sound-continue calls Any Any _ _ (Keeps-filter n ks t q k) (λ filtered p v l.
          Sound-continue calls Any Any _ _
            (Keeps-ranged (timestamp_field_of d) start end filtered p l)
            (λ last o w m.
              Keeps-if (contains event_time_attribute (operations.field_names last))
                (operations.drop_columns event_time_attribute last) (ok last) o m)))

  Consistent-finish :
      (clear : Bool) (r : Result Table × State calls)
      → Keeps r
      → Consistent calls (finish calls operations clear r).1
        × (clear ≡ true → (finish calls operations clear r).1.built_tables ≡ [])
  Consistent-finish true (ok t, s) h = ((tt, h.1.1), λ e. refl)
  Consistent-finish true (err e, s) h = ((tt, h.1), λ e. refl)
  Consistent-finish false (ok t, s) h = (h.1, λ e. cc)
  Consistent-finish false (err e, s) h = (h, λ e. cc)

  -- From a consistent state, build leaves one whether it returns or raises, and with
  -- clear_built_tables it leaves an empty cache.
  pub build-Consistent :
      (n : ℕ) (clear unresolved : Bool) (d : Descriptor) (ks : Option (Keys calls operations))
      (start end : Option ℤ) (s : State calls)
      → Consistent calls s
      → Consistent calls (build calls operations n clear unresolved d ks start end s).1
        × (clear ≡ true
            → (build calls operations n clear unresolved d ks start end s).1.built_tables ≡ [])
  unfolding build
  build-Consistent n clear unresolved d ks start end s h =
      Consistent-finish clear (build_table calls operations n unresolved d ks start end s)
        (Keeps-build_table n unresolved d ks start end s h)
