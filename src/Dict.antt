-- ===== src/Dict.antt =====
-- Python's `dict`: an association list in the order of insertion. A write to a key that is there
-- keeps its place. Also the tests `in` and `issubset` on lists of names.
pub mod Remove
use feathub.Prelude.{
  ◌≡◌, refl, Bool, true, false, ◌&&◌, ◌||◌, Option, none, some, List, [], ◌∷◌, arith, HasEq, ◌==◌,
  if◌then◌else◌,
}

module _ {ℓ} {K : Type ℓ} ⦃e : HasEq K⦄ where
  unfoldable pub contains : K → List K → Bool
  contains k [] = false
  contains k (x ∷ xs) = x == k || contains k xs

  -- `set(xs).issubset(ys)`
  unfoldable pub is_subset : List K → List K → Bool
  unfolding contains
  is_subset [] ys = true
  is_subset (x ∷ xs) ys = contains x ys && is_subset xs ys

  pub eq_self : (k : K) → (k == k) ≡ true
  eq_self k = (e.eqb_iff k k).1 refl

module _ {ℓ κ} {K : Type ℓ} ⦃e : HasEq K⦄ {V : Type κ} where
  unfoldable pub get : K → List (K × V) → Option V
  get k [] = none
  get k ((j, v) ∷ d) = if j == k then some v else get k d

  unfoldable pub insert : K → V → List (K × V) → List (K × V)
  insert k v [] = (k, v) ∷ []
  insert k v ((j, w) ∷ d) = if j == k then (j, v) ∷ d else (j, w) ∷ insert k v d

  unfoldable pub remove : K → List (K × V) → List (K × V)
  remove k [] = []
  remove k ((j, w) ∷ d) = if j == k then d else (j, w) ∷ remove k d

  unfoldable pub keys : List (K × V) → List K
  keys [] = []
  keys ((j, w) ∷ d) = j ∷ keys d

  unfoldable pub values : List (K × V) → List V
  values [] = []
  values ((j, w) ∷ d) = w ∷ values d

  -- no key stands twice
  abbrev pub IsFunctional : List (K × V) → Type 0
  IsFunctional [] = Unit {0}
  IsFunctional ((j, w) ∷ d) = (contains j (keys d) ≡ false) × IsFunctional d

  pub get-insert :
      (k j : K) (v : V) (d : List (K × V))
      → get j (insert k v d) ≡ (if k == j then some v else get j d)
  unfolding get insert
  get-insert k j v [] = refl
  get-insert k j v ((i, w) ∷ d) =
      ground (arith, e.eqb_iff k j, e.eqb_iff i k, e.eqb_iff i j, get-insert k j v d)
