-- ===== src/Dsl/Cases.antt =====
-- Which result a case gives.
use feathub.Prelude.{◌≡◌, refl, true, false, List, [], ◌∷◌, ◌++◌, some}
use feathub.Errors.{Result, ok}
use feathub.Dsl.Local.{Python, eval_case}

module _ {V : Type 0} (py : Python V) where
  -- The conditions before the one that holds, with their results.
  abbrev pub AllFalse : List (Result V × Result V) → Type 0
  AllFalse [] = Unit {0}
  AllFalse ((c, r) ∷ cs) = ((v : V) × (c ≡ ok v) × (py.as_bool v ≡ some false)) × AllFalse cs

  abbrev pub firsts : List (Result V × Result V) → List (Result V)
  firsts [] = []
  firsts ((c, r) ∷ cs) = c ∷ firsts cs

  abbrev pub seconds : List (Result V × Result V) → List (Result V)
  seconds [] = []
  seconds ((c, r) ∷ cs) = r ∷ seconds cs

  -- The first condition that is true decides: neither the results before it, nor what comes after it,
  -- nor the default matters, whether or not they raise.
  pub eval_case-first :
      (before : List (Result V × Result V)) (v : V) (r : Result V) (cs rs : List (Result V))
      (default : Result V)
      → AllFalse before
      → py.as_bool v ≡ some true
      → eval_case py (firsts before ++ ok v ∷ cs) (seconds before ++ r ∷ rs) default ≡ r
  unfolding eval_case
  eval_case-first [] v r cs rs default h k = rw k refl
  eval_case-first ((c, r') ∷ before) v r cs rs default ((u, e, f), h) k =
      rw (e, f) (eval_case-first before v r cs rs default h k)

  -- If every condition is false, the default is the result.
  pub eval_case-default :
      (cases : List (Result V × Result V)) (default : Result V)
      → AllFalse cases
      → eval_case py (firsts cases) (seconds cases) default ≡ default
  unfolding eval_case
  eval_case-default [] default h = refl
  eval_case-default ((c, r) ∷ cases) default ((u, e, f), h) =
      rw (e, f) (eval_case-default cases default h)
