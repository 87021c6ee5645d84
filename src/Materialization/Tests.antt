-- ===== src/Materialization/Tests.antt =====
-- Two operations on a list of texts; the second has a time to live, which is not supported.
use feathub.Prelude.{◌≡◌, refl, ℕ, true, List, [], ◌∷◌, ◌++◌, Option, none, some, String}
use feathub.Errors.{Result, ok, err, runtime_error}
use feathub.Materialization.{
  MaterializationDescriptor, Outcome, add_operation, execute, materialize_one, materialize_features,
}
use feathub.Materialization.Executed.{Left, execute-Left}

abbrev operation : String → Option ℕ → MaterializationDescriptor String String ℕ ℕ
operation source ttl = record {
  feature_descriptor = source;
  sink = "store";
  ttl = ttl;
  start_datetime = none;
  end_datetime = none;
  allow_overwrite = true;
}

abbrev resolve : String → List String → List String × Result String
resolve source stored = (stored, ok source)

abbrev read : String → Option ℕ → Option ℕ → List String → Result String
read source start end stored = ok source

abbrev write : String → String → String → List String → Outcome (List String)
write source df sink stored = (stored ++ df ∷ [], ok tt)

abbrev group : List (MaterializationDescriptor String String ℕ ℕ)
group = operation "a" none ∷ operation "b" (some 5) ∷ []

execute_run :
    execute (materialize_features resolve read write) group []
    ≡ (group, (("a" ∷ []), err runtime_error))
unfolding execute materialize_features materialize_one
execute_run = refl

add_run : add_operation (operation "b" (some 5)) (operation "a" none ∷ []) ≡ group
unfolding add_operation
add_run = refl

execute-Left_example :
    Left resolve read write group [] (execute (materialize_features resolve read write) group [])
execute-Left_example = execute-Left resolve read write group []
