-- ===== src/Flink/Builder/Again.antt =====
-- A second call for the same descriptor.
use feathub.Prelude.{
  ◌≡◌, refl, sym, ap, ◌∙◌, Option, none, some, ℕ, zero, suc, string_eq, HasEq, ◌==◌, Bool-cases,
  inl, inr,
}
use feathub.Dict.{contains, get, insert, get-insert, eq_self}
use feathub.Common.Actions.{Post, Post-continue}
use feathub.Errors.{Result, ok, err}
use feathub.Flink.Descriptors.{Descriptor, name_of}
use feathub.Flink.Builder.Steps.{BuilderState, Step}
use feathub.Flink.Builder.{Calls, construct, get_table, from_cache, keep_built, built, mark}

module _ (calls : Calls) ⦃same : HasEq Descriptor⦄ where
  open calls use {Table}

  -- The table is in the cache, for this descriptor.
  abbrev Cached : Descriptor → Result Table × BuilderState Table → Type 0
  Cached d r = Post (λ x s. get (name_of d) s.built_tables ≡ some (d, x)) (λ e s. Unit {0}) r

  Post-any :
      {A : Type 0} (r : Result A × BuilderState Table) → Post (λ x s. Unit {0}) (λ e s. Unit {0}) r
  Post-any (ok a, s) = tt
  Post-any (err e, s) = tt

  keep_built-Cached :
      (d : Descriptor) (x : Table) (s : BuilderState Table) → Cached d (keep_built calls d x s)
  keep_built-Cached d x s =
      let found : get (name_of d) (insert (name_of d) (d, x) s.built_tables) ≡ some (d, x) =
        rw (get-insert (name_of d) (name_of d) (d, x) s.built_tables, eq_self (name_of d)) refl in
      elim (Bool-cases (contains (name_of d) s.tables_being_built)) [
        | inl busy ↦ rw (busy, found, built) found
        | inr idle ↦ rw idle tt
      ]

  from_cache-Cached :
      (build : Descriptor → Step Table Table) (d : Descriptor) (s : BuilderState Table)
      (cached : Option (Descriptor × Table))
      → get (name_of d) s.built_tables ≡ cached
      → Cached d (from_cache calls build d cached s)
  from_cache-Cached build d s none e =
      Post-continue _ _ _ (construct calls build d (mark calls (name_of d) s).1) _ (Post-any _)
        (λ x q h. keep_built-Cached d x q)
  from_cache-Cached build d s (some (old, x)) e = elim (Bool-cases (d == old)) [
    | inl equal ↦ rw equal (e ∙ ap (λ o. some (o, x)) (sym ((same.eqb_iff d old).0 equal)))
    | inr differ ↦ rw differ tt
  ]

  get_table-Cached :
      (n : ℕ) (d : Descriptor) (s : BuilderState Table) → Cached d (get_table calls n d s)
  unfolding get_table
  get_table-Cached zero d s = tt
  get_table-Cached (suc n) d s = from_cache-Cached (get_table calls n) d s _ refl

  -- After a call of get_table has returned a table, a second call for an equal descriptor returns the
  -- same table and changes nothing.
  pub get_table-again :
      (n m : ℕ) (d : Descriptor) (s r : BuilderState Table) (x : Table)
      → get_table calls n d s ≡ (ok x, r)
      → get_table calls (suc m) d r ≡ (ok x, r)
  unfolding get_table
  get_table-again n m d s r x h =
      let found : get (name_of d) r.built_tables ≡ some (d, x) =
        (let c = get_table-Cached n d s in rw h at c) in
      rw (found, eq_self d) refl
