-- ===== src/Registry/Built.antt =====
-- What the registry in memory returns after build_features.
use feathub.Prelude.{
  ◌≡◌, refl, sym, Bool, true, false, ◌||◌, String, List, [], ◌∷◌, some, ◌==◌, string_eq, Bool-cases,
  inl, inr, map,
}
use feathub.Dict.{get, insert, contains, eq_self, get-insert}
use feathub.Errors.{Result, ok, err, ok-injective, raised_lem}
use feathub.Registry.{Tables, Descriptors, build_features, after_build, add_result, get_features}

not_either : (a b : Bool) → (a || b) ≡ false → (a ≡ false) × (b ≡ false)
not_either false b h = (refl, h)
not_either true b h = cc

-- The build of a descriptor changes no entry that the registry has.
module _ {D : Type 0} (ds : Descriptors D)
    (keeps : (d : D) (force_update : Bool) (tables : Tables D) (n : String) (entry : D × D)
      → get n tables ≡ some entry
      → get n ((ds.build d force_update tables).1) ≡ some entry) where
  abbrev pub AllDistinct : List D → Type 0
  AllDistinct [] = Unit {0}
  AllDistinct (d ∷ rest) =
      (contains (ds.name_of d) (map ds.name_of rest) ≡ false) × AllDistinct rest

  -- The registry returns each descriptor, resolved and as it was given.
  abbrev pub AllReturned : List D → List D → Tables D → Type 0
  AllReturned [] [] tables = Unit {0}
  AllReturned (d ∷ rest) (r ∷ rs) tables =
      (get_features ds (ds.name_of d) true tables ≡ ok r)
      × (get_features ds (ds.name_of d) false tables ≡ ok d)
      × AllReturned rest rs tables
  AllReturned _ _ tables = ⊥

  after_build_keeps :
      (d : D) (more : Tables D → Result (List D) × Tables D) (b : Result D × Tables D) (n : String)
      (entry : D × D)
      → (ds.name_of d == n) ≡ false
      → ((tables : Tables D) → get n tables ≡ some entry → get n (more tables).1 ≡ some entry)
      → get n b.1 ≡ some entry
      → get n (after_build ds d more b).1 ≡ some entry
  after_build_keeps d more (err e, tables) n entry differ k h = h
  after_build_keeps d more (ok r, tables) n entry differ k h =
      k (insert (ds.name_of d) (d, r) tables)
        (rw (get-insert (ds.name_of d) n (d, r) tables, differ) h)

  build_features_keeps :
      (descriptors : List D) (force_update : Bool) (tables : Tables D) (n : String) (entry : D × D)
      → contains n (map ds.name_of descriptors) ≡ false
      → get n tables ≡ some entry
      → get n (build_features ds descriptors force_update tables).1 ≡ some entry
  unfolding build_features contains
  build_features_keeps [] force_update tables n entry absent h = h
  build_features_keeps (d ∷ rest) force_update tables n entry absent h =
      let (differ, more) = not_either _ _ absent in
      elim (Bool-cases (ds.name_of d == "")) [
        | inl empty ↦ rw empty h
        | inr named ↦ rw named (
            after_build_keeps d (build_features ds rest force_update)
              (ds.build d force_update tables) n entry differ
              (λ t k. build_features_keeps rest force_update t n entry more k)
              (keeps d force_update tables n entry h))
      ]

  after_build-AllReturned :
      (d : D) (rest : List D) (force_update : Bool) (b : Result D × Tables D) (rs : List D)
      → contains (ds.name_of d) (map ds.name_of rest) ≡ false
      → ((tables : Tables D) (rs : List D)
          → (build_features ds rest force_update tables).0 ≡ ok rs
          → AllReturned rest rs (build_features ds rest force_update tables).1)
      → (after_build ds d (build_features ds rest force_update) b).0 ≡ ok rs
      → AllReturned (d ∷ rest) rs (after_build ds d (build_features ds rest force_update) b).1
  unfolding get_features
  after_build-AllReturned d rest force_update (err e, tables) rs absent k h = absurd (raised_lem h)
  after_build-AllReturned d rest force_update (ok r, tables) rs absent k h =
      let (rs', h1, h2) = rest_ok (build_features ds rest force_update with_d).0 h in
      let stored : get (ds.name_of d) with_d ≡ some (d, r) =
        rw (get-insert (ds.name_of d) (ds.name_of d) (d, r) tables, eq_self (ds.name_of d)) refl in
      let there =
        build_features_keeps rest force_update with_d (ds.name_of d) (d, r) absent stored in
      rw (sym h2) (rw (get_features, there) refl, rw (get_features, there) refl, k with_d rs' h1)
    where
      with_d : Tables D
      with_d = insert (ds.name_of d) (d, r) tables

      rest_ok :
          (q : Result (List D))
          → add_result ds r q ≡ ok rs
          → (rs' : List D) × (q ≡ ok rs') × ((r ∷ rs') ≡ rs)
      rest_ok (ok rs') h = (rs', refl, ok-injective h)
      rest_ok (err e) h = absurd (raised_lem h)

  -- If the build of a descriptor changes no entry that the registry has, and no two descriptors have
  -- the same name, then once build_features has returned, get_features returns for the name of each
  -- descriptor the one that build_features returned for it, and unresolved the descriptor itself.
  pub build_features-AllReturned :
      (descriptors : List D) (force_update : Bool) (tables : Tables D) (rs : List D)
      → AllDistinct descriptors
      → (build_features ds descriptors force_update tables).0 ≡ ok rs
      → AllReturned descriptors rs (build_features ds descriptors force_update tables).1
  unfolding build_features
  build_features-AllReturned [] force_update tables rs distinct h = rw (sym (ok-injective h)) tt
  build_features-AllReturned (d ∷ rest) force_update tables rs (absent, distinct) h =
      elim (Bool-cases (ds.name_of d == "")) [
        | inl empty ↦ absurd (raised_lem (rw empty at h))
        | inr named ↦ rw named (
            after_build-AllReturned d rest force_update (ds.build d force_update tables) rs absent
              (λ t us k. build_features-AllReturned rest force_update t us distinct k)
              (rw named at h))
      ]
