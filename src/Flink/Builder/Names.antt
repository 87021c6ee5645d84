-- ===== src/Flink/Builder/Names.antt =====
-- A set of names as a list: what adding a name and removing it again leaves.
use feathub.Prelude.{
  ◌≡◌, ◌≢◌, refl, sym, ap, Bool, true, false, ◌&&◌, ◌||◌, not, String, List, [], ◌∷◌, string_eq,
  ◌==◌, Bool-cases, inl, inr, not_true, arith, keep, ◌∙◌,
}
use feathub.Dict.{contains, eq_self}
use feathub.LocalProcessor.Dependent.{append_new}
use feathub.LocalProcessor.Dependent.Inputs.{contains-append_new}

pub or-false : (a b : Bool) → (a || b) ≡ false → (a ≡ false) × (b ≡ false)
or-false a b h = ground arith

pub apart :
    (a b : String) (names : List String)
    → contains a names ≡ false
    → contains b names ≡ true
    → a ≢ b
apart a b names h k e = not_true (sym h ∙ ap (λ x. contains x names) e ∙ k)

pub marked_lem : (n : String) (names : List String) → contains n (append_new n names) ≡ true
marked_lem n names = rw (contains-append_new n n names, eq_self n) (or_true (contains n names))
  where
    or_true : (b : Bool) → (b || true) ≡ true
    or_true true = refl
    or_true false = refl

pub marked_only :
    (k n : String) (names : List String)
    → contains k names ≡ false
    → contains k (append_new n names) ≡ true
    → n ≡ k
marked_only k n names h busy =
    (string_eq.eqb_iff n k).0 (rw (contains-append_new k n names, h) at busy)

pub contains-unmarked :
    (k n : String) (names : List String)
    → contains k (keep (λ other. not (other == n)) names) ≡ (contains k names && not (k == n))
unfolding contains
contains-unmarked k n [] = refl
contains-unmarked k n (x ∷ names) = ground (
  arith,
  string_eq.eqb_iff x n,
  string_eq.eqb_iff k n,
  string_eq.eqb_iff x k,
  contains-unmarked k n names,
)

-- A name that is marked and then taken away again was not there before.
pub marked-unmarked :
    (k n : String) (names : List String)
    → contains n names ≡ false
    → ((contains k names || n == k) && not (k == n)) ≡ contains k names
marked-unmarked k n names h = elim (Bool-cases (n == k)) [
  | inl equal ↦
      rw (equal, (string_eq.eqb_iff k n).1 (sym ((string_eq.eqb_iff n k).0 equal)))
        (and_false _ ∙ sym (rw (sym ((string_eq.eqb_iff n k).0 equal)) h))
  | inr differ ↦ ground (arith, string_eq.eqb_iff n k, string_eq.eqb_iff k n)
]
  where
    and_false : (b : Bool) → (b && false) ≡ false
    and_false true = refl
    and_false false = refl
