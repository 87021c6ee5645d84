-- ===== src/Config/Tests.antt =====
-- A small configuration, and the theorems at it.
use feathub.Prelude.{
  ◌≡◌, refl, ℕ, true, false, String, List, [], ◌∷◌, Option, none, some, string_eq, nat_eq,
  option_eq, ltb, nat_beq,
}
use feathub.Dict.{get, insert, keys, contains}
use feathub.Errors.{ok, err, type_error, feathub_configuration_exception}
use feathub.Config.{
  Values, ConfigDef, not_none, gt, ensure_valid, value_of, update_config_value,
  update_config_values, get_value,
}
use feathub.Config.Update.{get_value-update_config_values}

-- Numbers, and the type of the numbers below its bound.
abbrev numbers : Values ℕ ℕ
numbers = record {
  is_instance = λ v t. ltb v t;
  is_float = λ t. false;
  is_int = λ v. true;
  to_float = λ v. v;
  lt = λ a b. ok (ltb a b);
  eq = λ a b. ok (nat_beq a b);
  elements = λ v. err type_error;
}

abbrev port : ConfigDef ℕ ℕ
port = record {
  name = "port";
  value_type = 65536;
  default_value = some 3306;
  validator = some (gt 0);
}

abbrev host : ConfigDef ℕ ℕ
host = record { name = "host"; value_type = 256; default_value = none; validator = some not_none }

abbrev props : List (String × Option ℕ)
props = ("host", some 10) ∷ []

abbrev values : List (String × Option ℕ)
values = ("host", some 10) ∷ ("port", some 3306) ∷ []

update_run : update_config_values numbers props [] (host ∷ port ∷ []) ≡ ok values
unfolding update_config_values update_config_value value_of ensure_valid get insert keys contains
update_run = refl

missing_run : update_config_values numbers [] [] (host ∷ []) ≡ err feathub_configuration_exception
unfolding update_config_values update_config_value value_of ensure_valid get insert keys contains
missing_run = refl

port_run : update_config_values numbers props (("host", some 10) ∷ []) (port ∷ []) ≡ ok values
unfolding update_config_values update_config_value value_of ensure_valid get insert keys contains
port_run = refl

get_value-update_config_values_example :
    get_value numbers values "host" ≡ get_value numbers (("host", some 10) ∷ []) "host"
unfolding contains keys
get_value-update_config_values_example =
    get_value-update_config_values numbers props (port ∷ []) (("host", some 10) ∷ []) values "host"
      refl port_run
