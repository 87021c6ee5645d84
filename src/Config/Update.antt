-- ===== src/Config/Update.antt =====
-- What a configuration holds once its definitions are read.
use feathub.Prelude.{
  ◌≡◌, refl, sym, ◌∙◌, ap, Bool, true, false, String, List, [], ◌∷◌, Option, some, HasEq, ◌==◌,
  string_eq, Bool-cases, inl, inr,
}
use feathub.Dict.{get, insert, keys, contains, eq_self, get-insert}
use feathub.Dict.Remove.{contains-insert}
use feathub.Errors.{ok, err, feathub_configuration_exception, guard, bind-eq-ok, ok-injective}
use feathub.Config.{
  Values, ConfigDef, validate, has_type, value_of, update_config_value, update_config_values,
  get_value, known,
}

module _ {T V : Type 0} ⦃e : HasEq V⦄ (py : Values T V) (props : List (String × Option V)) where
  -- The value of a definition: that of the properties or the default, of its type and valid.
  pub record IsRead (values : List (String × Option V)) (d : ConfigDef T V) : Type 0 where
    pub read : get_value py values d.name ≡ ok (value_of py props d)
    pub typed : has_type py d.value_type (value_of py props d) ≡ true
    pub valid : validate py d.validator (value_of py props d) ≡ ok tt

  abbrev pub AllRead : List (String × Option V) → List (ConfigDef T V) → Type 0
  AllRead values [] = Unit {0}
  AllRead values (d ∷ ds) = IsRead values d × AllRead values ds

  record Updated (values values' : List (String × Option V)) (d : ConfigDef T V) : Type 0 where
    fresh : contains d.name (keys values) ≡ false
    typed : has_type py d.value_type (value_of py props d) ≡ true
    valid : validate py d.validator (value_of py props d) ≡ ok tt
    written : values' ≡ insert d.name (value_of py props d) values

  update_config_value-Updated :
      (values values' : List (String × Option V)) (d : ConfigDef T V)
      → update_config_value py props values d ≡ ok values'
      → Updated values values' d
  unfolding update_config_value
  update_config_value-Updated values values' d h =
      elim (Bool-cases (contains d.name (keys values))) [
        | inl there ↦ absurd (raised (rw there at h))
        | inr absent ↦
            let (u, h1, h2) =
              bind-eq-ok
                (guard (has_type py d.value_type (value_of py props d))
                  feathub_configuration_exception)
                _ (rw absent at h) in
            let (w, h3, h4) = bind-eq-ok (validate py d.validator (value_of py props d)) _ h2 in
            record {
              fresh = absent;
              typed = passed (has_type py d.value_type (value_of py props d)) u h1;
              valid = h3;
              written = sym (ok-injective h4);
            }
      ]
    where
      raised : err feathub_configuration_exception ≡ ok values' → ⊥
      raised k = cc

      passed : (t : Bool) (u : Unit {0}) → guard t feathub_configuration_exception ≡ ok u → t ≡ true
      passed true u k = refl
      passed false u k = cc

  fresh_differs :
      (n key : String) (ks : List String)
      → contains n ks ≡ false
      → contains key ks ≡ true
      → (n == key) ≡ false
  fresh_differs n key ks h k = elim (Bool-cases (n == key)) [
    | inl same ↦ absurd (conflict (sym (rw ((string_eq.eqb_iff n key).0 same) at h) ∙ k))
    | inr differ ↦ differ
  ]
    where
      conflict : false ≡ true → ⊥
      conflict h = cc

  Updated-keeps :
      (values values' : List (String × Option V)) (d : ConfigDef T V) (key : String)
      → contains key (keys values) ≡ true
      → Updated values values' d
      → (contains key (keys values') ≡ true) × (get key values' ≡ get key values)
  Updated-keeps values values' d key there u =
      let apart = fresh_differs d.name key (keys values) u.fresh there in
      (
        rw u.written (rw (contains-insert d.name key (value_of py props d) values, apart) there),
        rw u.written (rw (get-insert d.name key (value_of py props d) values, apart) refl),
      )

  Updated-reads :
      (values values' : List (String × Option V)) (d : ConfigDef T V)
      → Updated values values' d
      → (contains d.name (keys values') ≡ true) × (get d.name values' ≡ some (value_of py props d))
  Updated-reads values values' d u = (
    rw u.written
        (rw (contains-insert d.name d.name (value_of py props d) values, eq_self d.name) refl),
    rw u.written (rw (get-insert d.name d.name (value_of py props d) values, eq_self d.name) refl),
  )

  -- A key that is there keeps its value.
  update_keeps :
      (ds : List (ConfigDef T V)) (values values' : List (String × Option V)) (key : String)
      → contains key (keys values) ≡ true
      → update_config_values py props values ds ≡ ok values'
      → get key values' ≡ get key values
  unfolding update_config_values
  update_keeps [] values values' key there h = ap (get key) (sym (ok-injective h))
  update_keeps (d ∷ ds) values values' key there h =
      let (middle, h1, h2) = bind-eq-ok (update_config_value py props values d) _ h in
      let (there', same) =
        Updated-keeps values middle d key there (update_config_value-Updated values middle d h1) in
      update_keeps ds middle values' key there' h2 ∙ same

  -- When update_config_values raises no exception, the configuration returns for every definition the
  -- value of the properties, or the default, which is of the type of the definition and valid.
  pub update_config_values-AllRead :
      (ds : List (ConfigDef T V)) (values values' : List (String × Option V))
      → update_config_values py props values ds ≡ ok values'
      → AllRead values' ds
  unfolding update_config_values get_value
  update_config_values-AllRead [] values values' h = tt
  update_config_values-AllRead (d ∷ ds) values values' h =
      let (middle, h1, h2) = bind-eq-ok (update_config_value py props values d) _ h in
      let u = update_config_value-Updated values middle d h1 in
      let (there, reads) = Updated-reads values middle d u in
      (
        record {
          read = ap (known py) (update_keeps ds middle values' d.name there h2 ∙ reads);
          typed = u.typed;
          valid = u.valid;
        },
        update_config_values-AllRead ds middle values' h2,
      )

  -- Reading more definitions without an exception never replaces a value that the configuration has.
  pub get_value-update_config_values :
      (ds : List (ConfigDef T V)) (values values' : List (String × Option V)) (key : String)
      → contains key (keys values) ≡ true
      → update_config_values py props values ds ≡ ok values'
      → get_value py values' key ≡ get_value py values key
  unfolding get_value
  get_value-update_config_values ds values values' key there h =
      ap (known py) (update_keeps ds values values' key there h)
