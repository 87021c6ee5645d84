-- ===== src/LocalProcessor/Dependent/Tests.antt =====
-- Features by number: 2 has the inputs 5 and 1, and 5 has the input 7.
use feathub.Prelude.{◌≡◌, refl, ℕ, List, [], ◌∷◌, nat_eq, ◌==◌, if◌then◌else◌, ◌||◌}
use feathub.Dict.{contains}
use feathub.LocalProcessor.Dependent.{append_all, add_dependent, get_dependent_features}
use feathub.LocalProcessor.Dependent.Inputs.{
  IsDistinct, all_inputs, get_dependent_features-IsDistinct,
}

abbrev inputs : ℕ → List ℕ
inputs n = if n == 2 then 5 ∷ 1 ∷ [] else if n == 5 then 7 ∷ [] else []

abbrev features : List ℕ
features = 1 ∷ 2 ∷ 3 ∷ []

dependent_run : get_dependent_features inputs features ≡ 1 ∷ 5 ∷ 2 ∷ 3 ∷ []
unfolding get_dependent_features add_dependent append_all contains
dependent_run = refl

-- An input of an input is not among them unless it is a feature, and then it comes late.
late_run : get_dependent_features inputs (2 ∷ 5 ∷ []) ≡ 5 ∷ 1 ∷ 2 ∷ 7 ∷ []
unfolding get_dependent_features add_dependent append_all contains
late_run = refl

get_dependent_features-IsDistinct_example :
    IsDistinct (get_dependent_features inputs features)
    × ((x : ℕ)
        → contains x (get_dependent_features inputs features)
          ≡ (contains x features || contains x (all_inputs inputs features)))
get_dependent_features-IsDistinct_example = get_dependent_features-IsDistinct inputs features
