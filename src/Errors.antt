-- ===== src/Errors.antt =====
-- common/exceptions.py, the built-in exceptions that the code raises or meets, and the result of code
-- that may raise. The text of a message is not kept.
use feathub.Prelude.{if◌then◌else◌, ◌≡◌, refl, ap, not_true, Bool, true, false, List, [], ◌∷◌}

pub data Error : Type 0 where
  feathub_exception feathub_configuration_exception feathub_type_exception : Error
  feathub_transformation_exception feathub_expression_exception : Error
  runtime_error not_implemented_error key_error type_error value_error : Error
  zero_division_error index_error attribute_error stop_iteration : Error
  recursion_error validation_error : Error

-- What a call returns, or the class of the exception that it raises.
pub data Result {ℓ} (A : Type ℓ) : Type ℓ where
  ok : A → Result A
  err : Error → Result A

module _ {ℓ κ} {T : Type ℓ} {U : Type κ} where
  infixl 5 ◌>>=◌
  abbrev pub ◌>>=◌ : Result T → (T → Result U) → Result U
  call >>= rest = elim call [ err raised ↦ err raised | ok value ↦ rest value ]

  -- What a chain of two calls returned, its parts returned.
  pub bind-eq-ok :
      (call : Result T) (rest : T → Result U) {u : U}
      → (call >>= rest) ≡ ok u
      → (t : T) × (call ≡ ok t) × (rest t ≡ ok u)
  bind-eq-ok (err raised) rest h = cc
  bind-eq-ok (ok value) rest h = (value, refl, h)

module _ {ℓ κ} {T : Type ℓ} {U : Type κ} where
  -- `[f(x) for x in xs]`
  abbrev pub traverse : (T → Result U) → List T → Result (List U)
  traverse f [] = ok []
  traverse f (x ∷ xs) = do y ← f x; ys ← traverse f xs; ok (y ∷ ys)

infixl 5 ◌>>◌
abbrev pub ◌>>◌ {ℓ} : {U : Type ℓ} → Result (Unit {0}) → Result U → Result U
first >> second = first >>= (λ done. second)

-- `if not test: raise ...`
abbrev pub guard : Bool → Error → Result (Unit {0})
guard test raised = if test then ok tt else err raised

pub ok-injective {ℓ} : {A : Type ℓ} {a b : A} → ok a ≡ ok b → a ≡ b
ok-injective h = cc

-- A chain that returned passed its guard.
pub guard-bind {ℓ} :
    {U : Type ℓ} (test : Bool) (raised : Error) (rest : Unit {0} → Result U) {u : U}
    → (guard test raised >>= rest) ≡ ok u
    → (test ≡ true) × (rest tt ≡ ok u)
guard-bind true raised rest h = (refl, h)
guard-bind false raised rest h = cc

pub seq-ok {ℓ} :
    {U : Type ℓ} (first : Result (Unit {0})) (second : Result U) {u : U}
    → (first >> second) ≡ ok u
    → (first ≡ ok tt) × (second ≡ ok u)
seq-ok (ok done) second h = (refl, h)
seq-ok (err raised) second h = cc

-- An exception is no result.
pub raised_lem : {A : Type 0} {e : Error} {a : A} → err e ≡ ok a → ⊥
raised_lem h = not_true (ap is_ok h)
  where
    is_ok : {B : Type 0} → Result B → Bool
    is_ok (ok b) = true
    is_ok (err raised) = false
