-- ===== src/Dict/Remove.antt =====
-- What a dictionary holds after a key is written or removed.
use feathub.Prelude.{
  ◌≡◌, refl, sym, false, ◌||◌, none, List, [], ◌∷◌, arith, HasEq, ◌==◌, Bool-cases, inl, inr,
}
use feathub.Dict.{contains, get, insert, remove, keys, IsFunctional}

module _ {ℓ κ} {K : Type ℓ} ⦃e : HasEq K⦄ {V : Type κ} where
  pub get_absent : (k : K) (d : List (K × V)) → contains k (keys d) ≡ false → get k d ≡ none
  unfolding contains keys get
  get_absent k [] h = refl
  get_absent k ((j, w) ∷ d) h = ground (arith, get_absent k d)

  pub contains-insert :
      (k j : K) (v : V) (d : List (K × V))
      → contains j (keys (insert k v d)) ≡ (k == j || contains j (keys d))
  unfolding contains keys insert
  contains-insert k j v [] = refl
  contains-insert k j v ((i, w) ∷ d) =
      ground (arith, e.eqb_iff i k, e.eqb_iff k j, e.eqb_iff i j, contains-insert k j v d)

  pub insert-IsFunctional :
      (k : K) (v : V) (d : List (K × V)) → IsFunctional d → IsFunctional (insert k v d)
  unfolding contains keys insert
  insert-IsFunctional k v [] h = (refl, tt)
  insert-IsFunctional k v ((j, w) ∷ d) (h, f) = elim (Bool-cases (j == k)) [
    | inl same ↦ rw same (h, f)
    | inr differ ↦ rw differ (
      ground (arith, contains-insert k j v d, e.eqb_iff k j, e.eqb_iff j k),
      insert-IsFunctional k v d f,
    )
  ]

  pub get_removed : (k : K) (d : List (K × V)) → IsFunctional d → get k (remove k d) ≡ none
  unfolding contains keys get remove
  get_removed k [] h = refl
  get_removed k ((j, w) ∷ d) (h, f) = elim (Bool-cases (j == k)) [
    | inl same ↦ rw same (get_absent k d (rw (sym ((e.eqb_iff j k).0 same)) h))
    | inr differ ↦ rw (differ, differ) (get_removed k d f)
  ]
