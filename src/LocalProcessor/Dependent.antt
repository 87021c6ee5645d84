-- ===== src/LocalProcessor/Dependent.antt =====
-- _get_dependent_features of processors/local/local_processor.py: the features of a view, each after
-- its inputs.
pub mod Inputs
mod Tests
use feathub.Prelude.{Bool, List, [], ◌∷◌, ◌++◌, if◌then◌else◌, HasEq}
use feathub.Dict.{contains}

module _ {F : Type 0} ⦃e : HasEq F⦄ where
  -- `if feature not in dependent_features: dependent_features.append(feature)`
  abbrev pub append_new : F → List F → List F
  append_new f fs = if contains f fs then fs else fs ++ f ∷ []

  unfoldable pub append_all : List F → List F → List F
  append_all [] fs = fs
  append_all (f ∷ more) fs = append_all more (append_new f fs)

  module _ (input_features : F → List F) where
    unfoldable pub add_dependent : List F → List F → List F
    add_dependent [] fs = fs
    add_dependent (f ∷ more) fs =
        add_dependent more (append_new f (append_all (input_features f) fs))

    unfoldable pub get_dependent_features : List F → List F
    get_dependent_features features = add_dependent features []
