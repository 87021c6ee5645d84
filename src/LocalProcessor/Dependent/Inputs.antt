-- ===== src/LocalProcessor/Dependent/Inputs.antt =====
-- The order and the elements of the dependent features.
use feathub.Prelude.{
  ◌≡◌, refl, Bool, true, false, ◌||◌, List, [], ◌∷◌, ◌++◌, if◌then◌else◌, HasEq, ◌==◌, arith,
}
use feathub.Dict.{contains}
use feathub.LocalProcessor.Dependent.{append_new, append_all, add_dependent, get_dependent_features}

module _ {F : Type 0} ⦃e : HasEq F⦄ where
  -- No element stands twice.
  abbrev pub IsDistinct : List F → Type 0
  IsDistinct [] = Unit {0}
  IsDistinct (x ∷ xs) = (contains x xs ≡ false) × IsDistinct xs

  contains-append :
      (x : F) (xs ys : List F) → contains x (xs ++ ys) ≡ (contains x xs || contains x ys)
  unfolding contains
  contains-append x [] ys = refl
  contains-append x (y ∷ xs) ys = ground (arith, contains-append x xs ys)

  pub contains-append_new :
      (x f : F) (fs : List F) → contains x (append_new f fs) ≡ (contains x fs || f == x)
  unfolding contains
  contains-append_new x f fs = ground (arith, contains-append x fs (f ∷ []), e.eqb_iff f x)

  IsDistinct-snoc :
      (f : F) (fs : List F) → IsDistinct fs → contains f fs ≡ false → IsDistinct (fs ++ f ∷ [])
  unfolding contains
  IsDistinct-snoc f [] d n = (refl, tt)
  IsDistinct-snoc f (x ∷ fs) (c, d) n = (
    ground (arith, contains-append x fs (f ∷ []), e.eqb_iff f x, e.eqb_iff x f),
    IsDistinct-snoc f fs d (ground arith),
  )

  IsDistinct-append_new : (f : F) (fs : List F) → IsDistinct fs → IsDistinct (append_new f fs)
  IsDistinct-append_new f fs d = go (contains f fs) refl
    where
      go : (b : Bool) → contains f fs ≡ b → IsDistinct (if b then fs else fs ++ f ∷ [])
      go true h = d
      go false h = IsDistinct-snoc f fs d h

  IsDistinct-append_all : (gs fs : List F) → IsDistinct fs → IsDistinct (append_all gs fs)
  unfolding append_all
  IsDistinct-append_all [] fs d = d
  IsDistinct-append_all (g ∷ gs) fs d =
      IsDistinct-append_all gs (append_new g fs) (IsDistinct-append_new g fs d)

  contains-append_all :
      (x : F) (gs fs : List F) → contains x (append_all gs fs) ≡ (contains x fs || contains x gs)
  unfolding append_all contains
  contains-append_all x [] fs = ground arith
  contains-append_all x (g ∷ gs) fs =
      ground (arith, contains-append_all x gs (append_new g fs), contains-append_new x g fs)

  module _ (input_features : F → List F) where
    abbrev pub all_inputs : List F → List F
    all_inputs [] = []
    all_inputs (f ∷ fs) = input_features f ++ all_inputs fs

    contains-add_dependent :
        (x : F) (more fs : List F)
        → contains x (add_dependent input_features more fs)
          ≡ (contains x fs || (contains x more || contains x (all_inputs more)))
    unfolding add_dependent contains
    contains-add_dependent x [] fs = ground arith
    contains-add_dependent x (f ∷ more) fs = ground (
      arith,
      contains-add_dependent x more (append_new f (append_all (input_features f) fs)),
      contains-append_new x f (append_all (input_features f) fs),
      contains-append_all x (input_features f) fs,
      contains-append x (input_features f) (all_inputs more),
    )

    IsDistinct-add_dependent :
        (more fs : List F) → IsDistinct fs → IsDistinct (add_dependent input_features more fs)
    unfolding add_dependent
    IsDistinct-add_dependent [] fs d = d
    IsDistinct-add_dependent (f ∷ more) fs d =
        IsDistinct-add_dependent more (append_new f (append_all (input_features f) fs)) (
          IsDistinct-append_new f (append_all (input_features f) fs)
            (IsDistinct-append_all (input_features f) fs d))

    -- The dependent features of a view are its features and their inputs, each once.
    pub get_dependent_features-IsDistinct :
        (features : List F)
        → IsDistinct (get_dependent_features input_features features)
          × ((x : F)
              → contains x (get_dependent_features input_features features)
                ≡ (contains x features || contains x (all_inputs features)))
    unfolding get_dependent_features contains
    get_dependent_features-IsDistinct features =
        (IsDistinct-add_dependent features [] tt, λ x. contains-add_dependent x features [])
