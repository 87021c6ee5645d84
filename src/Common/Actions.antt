-- ===== src/Common/Actions.antt =====
-- Methods that change a state and may raise: an exception keeps the changes that were made before it.
-- A postcondition says what holds if the method returns and if it raises.
use feathub.Prelude.{◌≡◌, refl, ap}
use feathub.Errors.{Error, Result, ok, err, raised_lem}

module _ {S : Type 0} where
  abbrev pub lift : {A : Type 0} → Result A → S → Result A × S
  lift r s = (r, s)

  abbrev pub put : {A : Type 0} → A → S → Result A × S
  put a s = (ok a, s)

  abbrev pub fail : {A : Type 0} → Error → S → Result A × S
  fail e s = (err e, s)

  abbrev pub read : {A : Type 0} → (S → A) → S → Result A × S
  read f s = (ok (f s), s)

  abbrev pub continue_with : {A B : Type 0} → Result A × S → (A → S → Result B × S) → Result B × S
  continue_with (ok a, s) f = f a s
  continue_with (err e, s) f = (err e, s)

  infixl 5 ◌>>=◌
  abbrev pub ◌>>=◌ : {A B : Type 0} → (S → Result A × S) → (A → S → Result B × S) → S → Result B × S
  m >>= f = λ s. continue_with (m s) f

  abbrev pub Post : {A : Type 0} → (A → S → Type 0) → (Error → S → Type 0) → Result A × S → Type 0
  Post P E (ok a, s) = P a s
  Post P E (err e, s) = E e s

  pub Post-continue :
      {A B : Type 0} (P : A → S → Type 0) (Q : B → S → Type 0) (E : Error → S → Type 0)
      (r : Result A × S) (f : A → S → Result B × S)
      → Post P E r
      → ((a : A) (s : S) → P a s → Post Q E (f a s))
      → Post Q E (continue_with r f)
  Post-continue P Q E (ok a, s) f p after = after a s p
  Post-continue P Q E (err e, s) f p after = p

  pub Post-mono :
      {A : Type 0} (P Q : A → S → Type 0) (E F : Error → S → Type 0) (r : Result A × S)
      → Post P E r
      → ((a : A) (s : S) → P a s → Q a s)
      → ((e : Error) (s : S) → E e s → F e s)
      → Post Q F r
  Post-mono P Q E F (ok a, s) p f g = f a s p
  Post-mono P Q E F (err e, s) p f g = g e s p

  -- A result that changes no state.
  pub Post-lift :
      {A : Type 0} (P : A → S → Type 0) (E : Error → S → Type 0) (r : Result A) (s : S)
      → ((a : A) → r ≡ ok a → P a s)
      → ((e : Error) → r ≡ err e → E e s)
      → Post P E (r, s)
  Post-lift P E (ok a) s f g = f a refl
  Post-lift P E (err e) s f g = g e refl

  -- What a chain of two methods returned, its parts returned.
  pub continue-eq-ok :
      {A B : Type 0} (r : Result A × S) (f : A → S → Result B × S) {b : B} {last : S}
      → continue_with r f ≡ (ok b, last)
      → (a : A) × (s : S) × (r ≡ (ok a, s)) × (f a s ≡ (ok b, last))
  continue-eq-ok (ok a, s) f h = (a, s, refl, h)
  continue-eq-ok (err e, s) f h = absurd (raised_lem (ap (λ p. p.0) h))
