-- ===== src/Views/Names.antt =====
-- Lists of names without repetition.
use feathub.Prelude.{
  ◌≡◌, refl, Bool, true, false, not, ◌&&◌, String, List, [], ◌∷◌, string_eq, arith, if◌then◌else◌,
}
use feathub.Dict.{contains, eq_self}
use feathub.Errors.{Result, ok, err, feathub_exception}
use feathub.Views.{Feature, feature_names, check_names}
use feathub.Views.FeatureView.{from_keys, new_names}

-- No name stands twice.
abbrev pub IsDistinct : List String → Type 0
IsDistinct [] = Unit {0}
IsDistinct (x ∷ xs) = (contains x xs ≡ false) × IsDistinct xs

contains-new_names :
    (v : String) (seen xs : List String)
    → contains v (new_names seen xs) ≡ (contains v xs && not (contains v seen))
unfolding contains
contains-new_names v seen [] = refl
contains-new_names v seen (x ∷ xs) =
    ground (
      arith,
      contains-new_names v seen xs,
      contains-new_names v (x ∷ seen) xs,
      string_eq.eqb_iff x v,
    )

fresh : (x : String) (seen xs : List String) → contains x (new_names (x ∷ seen) xs) ≡ false
unfolding contains
fresh x seen xs = ground (arith, contains-new_names x (x ∷ seen) xs, string_eq.eqb_iff x x)

new_names-IsDistinct : (seen xs : List String) → IsDistinct (new_names seen xs)
new_names-IsDistinct seen [] = tt
new_names-IsDistinct seen (x ∷ xs) =
    go (contains x seen) (new_names-IsDistinct seen xs) (new_names-IsDistinct (x ∷ seen) xs)
      (fresh x seen xs)
  where
    go :
        (b : Bool)
        → IsDistinct (new_names seen xs)
        → IsDistinct (new_names (x ∷ seen) xs)
        → contains x (new_names (x ∷ seen) xs) ≡ false
        → IsDistinct (if b then new_names seen xs else x ∷ new_names (x ∷ seen) xs)
    go true h k e = h
    go false h k e = (e, k)

-- `list(OrderedDict.fromkeys(xs))` has the elements of the list, each once.
pub contains-from_keys : (v : String) (xs : List String) → contains v (from_keys xs) ≡ contains v xs
unfolding contains from_keys
contains-from_keys v xs = ground (arith, contains-new_names v [] xs)

pub from_keys-IsDistinct : (xs : List String) → IsDistinct (from_keys xs)
unfolding from_keys
from_keys-IsDistinct xs = new_names-IsDistinct [] xs

-- What a step of the loop over the names passed.
new_name :
    (there : Bool) {rest : Result (Unit {0})}
    → (if there then err feathub_exception else rest) ≡ ok tt
    → (there ≡ false) × (rest ≡ ok tt)
new_name true h = cc
new_name false h = (refl, h)

check_names-fresh :
    (v : String) (names : List String) (fs : List Feature)
    → check_names names fs ≡ ok tt
    → contains v names ≡ true
    → contains v (feature_names fs) ≡ false
unfolding check_names contains
check_names-fresh v names [] h m = refl
check_names-fresh v names (f ∷ fs) h m = ground (
  arith,
  check_names-fresh v (f.name ∷ names) fs,
  string_eq.eqb_iff f.name v,
  new_name (contains f.name names) h,
)

-- A view whose constructor returned has no two features of a name.
pub check_names-IsDistinct :
    (names : List String) (fs : List Feature)
    → check_names names fs ≡ ok tt
    → IsDistinct (feature_names fs)
unfolding check_names contains
check_names-IsDistinct names [] h = tt
check_names-IsDistinct names (f ∷ fs) h =
    let (new, rest) = new_name (contains f.name names) h in
    (
      check_names-fresh f.name (f.name ∷ names) fs rest (head f.name names),
      check_names-IsDistinct (f.name ∷ names) fs rest,
    )
  where
    head : (v : String) (names : List String) → contains v (v ∷ names) ≡ true
    head v names = rw (eq_self v) refl
