-- ===== src/Views/Derived/DefaultName.antt =====
-- The name that a feature without one gets.
use feathub.Prelude.{
  ◌≡◌, refl, sym, ◌∙◌, Bool, true, false, String, List, [], ◌∷◌, some, Option, ℕ, zero, suc, ◌+◌,
  ◌≤◌, ◌<◌, length, string_eq, ◌==◌, if◌then◌else◌, arith, ◌⊎◌, inl, inr, ◌≢◌,
}
use feathub.Dict.{contains}
use feathub.Views.Derived.{default_name_from, get_default_feature_name}

delete : String → List String → List String
delete x [] = []
delete x (y ∷ ys) = if y == x then ys else y ∷ delete x ys

length-delete :
    (x : String) (xs : List String) → contains x xs ≡ true → length (delete x xs) + 1 ≡ length xs
unfolding contains delete
length-delete x [] h = cc
length-delete x (y ∷ ys) h = ground (arith, length-delete x ys)

contains-delete :
    (x y : String) (xs : List String)
    → x ≢ y
    → contains y xs ≡ true
    → contains y (delete x xs) ≡ true
unfolding contains delete
contains-delete x y [] n h = cc
contains-delete x y (z ∷ zs) n h =
    ground (arith, contains-delete x y zs n, string_eq.eqb_iff z x, string_eq.eqb_iff z y)

-- The text of a number up to `n` is that of no other.
abbrev pub IsInjective : (ℕ → String) → ℕ → Type 0
IsInjective name_at n = (i j : ℕ) → i ≤ n → j ≤ n → name_at i ≡ name_at j → i ≡ j

module _ (name_at : ℕ → String) where
  pigeonhole :
      (m n : ℕ) (xs : List String)
      → IsInjective name_at m
      → n ≤ m + 1
      → ((j : ℕ) → j < n → contains (name_at j) xs ≡ true)
      → n ≤ length xs
  pigeonhole m zero xs inj le h = omega arith
  pigeonhole m (suc n) xs inj le h =
      let fewer = length-delete (name_at n) xs (h n (omega arith)) in
      let ih = pigeonhole m n (delete (name_at n) xs) inj (omega arith) (λ j lt.
        contains-delete (name_at n) (name_at j) xs
          (λ e. differ n j lt (inj n j (omega arith) (omega arith) e)) (h j (omega arith))) in
      omega arith
    where
      differ : (n j : ℕ) → j < n → n ≢ j
      differ n j lt e = omega arith

  -- From `index` on, the loop finds the first name that is not there, or all names of its turns are.
  abbrev Found : List String → ℕ → ℕ → Option String → Type 0
  Found disallowed index end found =
      ((i : ℕ) × (found ≡ some (name_at i))
        × (i < end)
        × (contains (name_at i) disallowed ≡ false)
        × ((j : ℕ) → index ≤ j → j < i → contains (name_at j) disallowed ≡ true))
      ⊎ ((j : ℕ) → index ≤ j → j < end → contains (name_at j) disallowed ≡ true)

  from : (i j : ℕ) → i ≤ j → (i ≡ j) ⊎ (i + 1 ≤ j)
  from i j le = ground arith

  loop :
      (disallowed : List String) (fuel index : ℕ)
      → Found disallowed index (index + fuel) (default_name_from name_at disallowed fuel index)
  unfolding default_name_from
  loop disallowed zero index = inr (λ j h k. absurd (omega arith))
  loop disallowed (suc fuel) index =
      step (contains (name_at index) disallowed) refl (loop disallowed fuel (index + 1))
    where
      first :
          (b : Bool) (j : ℕ)
          → contains (name_at index) disallowed ≡ b
          → (index ≡ j) ⊎ (index + 1 ≤ j)
          → ((index + 1 ≤ j) → contains (name_at j) disallowed ≡ true)
          → b ≡ true
          → contains (name_at j) disallowed ≡ true
      first b j e (inl same) later h = rw (sym same) (e ∙ h)
      first b j e (inr le) later h = later le

      step :
          (b : Bool) {rest : Option String}
          → contains (name_at index) disallowed ≡ b
          → Found disallowed (index + 1) (index + 1 + fuel) rest
          → Found disallowed index (index + suc fuel) (if b then rest else some (name_at index))
      step true e (inl (i, found, lt, free, taken)) = inl (
        i,
        found,
        omega arith,
        free,
        λ j le lt'. first true j e (from index j le) (λ le'. taken j le' lt') refl,
      )
      step true e (inr all) =
          inr (λ j le lt. first true j e (from index j le) (λ le'. all j le' (omega arith)) refl)
      step false e found = inl (index, refl, omega arith, e, λ j le lt. absurd (omega arith))

  -- The default name of a feature is the first of `_0`, `_1`, `_2` and so on that is no name yet; its
  -- number is at most the number of names.
  pub get_default_feature_name-IsFirst :
      (disallowed : List String)
      → IsInjective name_at (length disallowed)
      → (i : ℕ) × (get_default_feature_name name_at disallowed ≡ some (name_at i))
        × (i ≤ length disallowed)
        × (contains (name_at i) disallowed ≡ false)
        × ((j : ℕ) → j < i → contains (name_at j) disallowed ≡ true)
  unfolding get_default_feature_name
  get_default_feature_name-IsFirst disallowed inj =
      elim (loop disallowed (length disallowed + 1) 0) [
        | inl (i, found, lt, free, taken) ↦
            (i, found, omega arith, free, λ j lt'. taken j (omega arith) lt')
        | inr all ↦
            let full =
              pigeonhole (length disallowed) (length disallowed + 1) disallowed inj (omega arith)
                (λ j lt. all j (omega arith) (omega arith)) in
            absurd (omega arith)
      ]
