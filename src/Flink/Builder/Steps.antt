-- ===== src/Flink/Builder/Steps.antt =====
-- The state of a builder and the calls that read and change it.
use feathub.Prelude.{String, List}
use feathub.Errors.{Result}
use feathub.Flink.Descriptors.{Descriptor}

-- The fields of FlinkTableBuilder, and the temporary views of its `t_env`. A set of names is a list.
pub record BuilderState (Table : Type 0) : Type 0 where
  pub built_tables : List (String × (Descriptor × Table))
  pub tables_being_built : List String
  pub temporary_views : List (String × Table)

module _ (Table : Type 0) where
  abbrev pub Step : Type 0 → Type 0
  Step A = BuilderState Table → Result A × BuilderState Table
