-- ===== src/Registry.antt =====
-- registries/local_registry.py: the registry that keeps descriptors in memory.
pub mod MySql
pub mod Deleted
pub mod Built
mod Tests
use feathub.Prelude.{
  Bool, true, false, String, List, [], ◌∷◌, Option, none, some, ◌==◌, string_eq, if◌then◌else◌, map,
}
use feathub.Dict.{get, insert, remove, keys, contains}
use feathub.Errors.{Result, ok, err, feathub_exception, runtime_error, ◌>>=◌}

-- The original descriptor and the resolved one.
abbrev pub Tables : Type 0 → Type 0
Tables D = List (String × (D × D))

-- What a registry uses of a TableDescriptor: its name, and `build`, which may build other descriptors
-- in the registry.
pub record Descriptors (D : Type 0) : Type 0 where
  pub name_of : D → String
  pub build : D → Bool → Tables D → Result D × Tables D

module _ {D : Type 0} (ds : Descriptors D) where
  abbrev pub add_result : D → Result (List D) → Result (List D)
  add_result d (ok rs) = ok (d ∷ rs)
  add_result d (err e) = err e

  -- The entry of a descriptor that was built, and then the rest of the loop.
  abbrev pub after_build :
      D → (Tables D → Result (List D) × Tables D) → Result D × Tables D → Result (List D) × Tables D
  after_build d more (err e, tables) = (err e, tables)
  after_build d more (ok r, tables) =
      let rest = more (insert (ds.name_of d) (d, r) tables) in (add_result r rest.0, rest.1)

  unfoldable pub build_features : List D → Bool → Tables D → Result (List D) × Tables D
  build_features [] force_update tables = (ok [], tables)
  build_features (d ∷ rest) force_update tables =
      if ds.name_of d == ""
      then (err feathub_exception, tables)
      else after_build d (build_features rest force_update) (ds.build d force_update tables)

  abbrev pub all_true : Result (List D) → List D → Result (List Bool)
  all_true (ok rs) descriptors = ok (map (λ d. true) descriptors)
  all_true (err e) descriptors = err e

  unfoldable pub register_features : List D → Bool → Tables D → Result (List Bool) × Tables D
  register_features descriptors force_update tables =
      let (rs, tables') = build_features descriptors force_update tables in
      (all_true rs descriptors, tables')

  unfoldable pub get_features : String → Bool → Tables D → Result D
  get_features name is_resolved tables = elim (get name tables) [
    | none ↦ err runtime_error
    | some entry ↦ ok (if is_resolved then entry.1 else entry.0)
  ]

  unfoldable pub delete_features : String → Tables D → Bool × Tables D
  delete_features name tables =
      if contains name (keys tables) then (true, remove name tables) else (false, tables)

  unfoldable pub clear_features : Tables D → Tables D
  clear_features tables = []
