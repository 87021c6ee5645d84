-- ===== src/Config.antt =====
-- common/config.py and common/validators.py: the values of a configuration and their checks.
pub mod Update
mod Tests
use feathub.Prelude.{
  Bool, true, false, ◌&&◌, ◌||◌, not, String, List, [], ◌∷◌, Option, none, some, HasEq, ◌==◌,
  string_eq, option_eq, if◌then◌else◌,
}
use feathub.Dict.{get, insert, keys, contains}
use feathub.Errors.{
  Result, ok, err, feathub_configuration_exception, type_error, guard, ◌>>=◌, ◌>>◌,
}

-- The types and comparisons of Python's values: `isinstance`, the conversion of an int where a float
-- is asked for, `<` and `==`, and the elements of a collection. None is `none`.
pub record Values (T V : Type 0) : Type 0 where
  pub is_instance : V → T → Bool
  pub is_float : T → Bool
  pub is_int : V → Bool
  pub to_float : V → V
  pub lt : V → V → Result Bool
  pub eq : V → V → Result Bool
  pub elements : V → Result (List (Option V))

pub data Validator (V : Type 0) : Type 0 where
  not_none : Validator V
  in_list : List (Option V) → Validator V
  is_subset : List (Option V) → Validator V
  comparable : V → Bool → Bool → Validator V

-- lt, lt_eq, gt and gt_eq of common/validators.py
module _ {V : Type 0} where
  abbrev pub lt : V → Validator V
  lt bound = comparable bound false false

  abbrev pub lt_eq : V → Validator V
  lt_eq bound = comparable bound false true

  abbrev pub gt : V → Validator V
  gt bound = comparable bound true false

  abbrev pub gt_eq : V → Validator V
  gt_eq bound = comparable bound true true

pub record ConfigDef (T V : Type 0) : Type 0 where
  pub name : String
  pub value_type : T
  pub default_value : Option V
  pub validator : Option (Validator V)

module _ {T V : Type 0} ⦃e : HasEq V⦄ (py : Values T V) where
  abbrev pub invalid : Result (Unit {0})
  invalid = err feathub_configuration_exception

  abbrev pub ensure_in_list : List (Option V) → Option V → Result (Unit {0})
  ensure_in_list allowed v = guard (contains v allowed) feathub_configuration_exception

  abbrev pub ensure_all : List (Option V) → List (Option V) → Result (Unit {0})
  ensure_all allowed [] = ok tt
  ensure_all allowed (v ∷ vs) = ensure_in_list allowed v >> ensure_all allowed vs

  abbrev pub beyond : Bool → V → V → Result Bool
  beyond true bound v = py.lt v bound
  beyond false bound v = py.lt bound v

  abbrev pub ensure_bound : Bool → V → V → Result (Unit {0})
  ensure_bound true bound v = ok tt
  ensure_bound false bound v = do b ← py.eq bound v; guard (not b) feathub_configuration_exception

  -- ensure_valid of the classes of validators
  unfoldable pub ensure_valid : Validator V → Option V → Result (Unit {0})
  ensure_valid not_none none = invalid
  ensure_valid not_none (some v) = ok tt
  ensure_valid (in_list allowed) v = ensure_in_list allowed v
  ensure_valid (is_subset allowed) none = err type_error
  ensure_valid (is_subset allowed) (some v) = do vs ← py.elements v; ensure_all allowed vs
  ensure_valid (comparable bound is_greater_than inclusive) none = invalid
  ensure_valid (comparable bound is_greater_than inclusive) (some v) = do
    b ← beyond is_greater_than bound v
    if b then invalid else ensure_bound inclusive bound v

  abbrev pub validate : Option (Validator V) → Option V → Result (Unit {0})
  validate none v = ok tt
  validate (some validator) v = ensure_valid validator v

  -- `self.original_props.get(config_def.name, config_def.default_value)`
  abbrev pub prop_or_default : Option (Option V) → Option V → Option V
  prop_or_default none default_value = default_value
  prop_or_default (some v) default_value = v

  abbrev pub convert : T → Option V → Option V
  convert t none = none
  convert t (some v) = if py.is_float t && py.is_int v then some (py.to_float v) else some v

  abbrev pub has_type : T → Option V → Bool
  has_type t none = true
  has_type t (some v) = py.is_instance v t

  -- The value of one definition.
  unfoldable pub value_of : List (String × Option V) → ConfigDef T V → Option V
  value_of props d = convert d.value_type (prop_or_default (get d.name props) d.default_value)

  -- A round of the loop of update_config_values.
  unfoldable pub update_config_value :
      List (String × Option V)
      → List (String × Option V)
      → ConfigDef T V
      → Result (List (String × Option V))
  update_config_value props values d =
      if contains d.name (keys values)
      then err feathub_configuration_exception
      else (guard (has_type d.value_type (value_of props d)) feathub_configuration_exception
          >> (validate d.validator (value_of props d)
              >> ok (insert d.name (value_of props d) values)))

  unfoldable pub update_config_values :
      List (String × Option V)
      → List (String × Option V)
      → List (ConfigDef T V)
      → Result (List (String × Option V))
  update_config_values props values [] = ok values
  update_config_values props values (d ∷ ds) = do
    values' ← update_config_value props values d
    update_config_values props values' ds

  abbrev pub known : Option (Option V) → Result (Option V)
  known none = err feathub_configuration_exception
  known (some v) = ok v

  -- BaseConfig.get
  unfoldable pub get_value : List (String × Option V) → String → Result (Option V)
  get_value values key = known (get key values)
