-- ===== src/Dsl/Precision/Order.antt =====
-- The order in which _get_higher_precision_type sees the types.
use mathlib.Core.List.{Permᴰ}
use feathub.Prelude.{◌≡◌, refl, sym, ◌∙◌, ap, ℕ, List, arith, some}
use feathub.Errors.{Result, ok, err, ◌>>=◌}
use feathub.Types.{DType, primitive_type, vector_type, map_type}
use feathub.Dsl.Precision.{rank, higher, fold_higher, get_higher_precision_type}

rank-injective : (a b : DType) (n : ℕ) → rank a ≡ some n → rank b ≡ some n → a ≡ b
unfolding rank
rank-injective (primitive_type a) (primitive_type b) n h k = ground arith
rank-injective (primitive_type a) (vector_type b) n h k = cc
rank-injective (primitive_type a) (map_type b c) n h k = cc
rank-injective (vector_type a) b n h k = cc
rank-injective (map_type a c) b n h k = cc

higher_comm : (a b : DType) → higher a b ≡ higher b a
unfolding higher
higher_comm a b = ground (arith, rank-injective a b)

higher_assoc :
    (r a b : DType) → (higher r a >>= (λ x. higher x b)) ≡ (higher r b >>= (λ x. higher x a))
unfolding higher
higher_assoc r a b = ground (arith, rank-injective a b)

bind_cong :
    (call : Result DType) {f g : DType → Result DType}
    → ((t : DType) → f t ≡ g t)
    → (call >>= f) ≡ (call >>= g)
bind_cong (ok t) h = h t
bind_cong (err e) h = refl

bind_assoc :
    (call : Result DType) (f g : DType → Result DType)
    → (call >>= (λ x. f x >>= g)) ≡ ((call >>= f) >>= g)
bind_assoc (ok t) f g = refl
bind_assoc (err e) f g = refl

fold_higher-Perm :
    {ts us : List DType} → Permᴰ ts us → (r : DType) → fold_higher r ts ≡ fold_higher r us
unfolding fold_higher
fold_higher-Perm Permᴰ.nil r = refl
fold_higher-Perm (Permᴰ.cons {b = b} e p) r = rw e (bind_cong (higher r b) (fold_higher-Perm p))
fold_higher-Perm (Permᴰ.swap {a = a} {b = b} {l = l} e f) r =
    rw (sym e, sym f)
      (bind_assoc (higher r a) (λ x. higher x b) (λ x. fold_higher x l)
        ∙ ap (λ c. c >>= (λ x. fold_higher x l)) (higher_assoc r a b)
        ∙ sym (bind_assoc (higher r b) (λ x. higher x a) (λ x. fold_higher x l)))
fold_higher-Perm (Permᴰ.trans p q) r = fold_higher-Perm p r ∙ fold_higher-Perm q r

-- The higher precision type of several types does not depend on their order.
pub get_higher_precision_type-Perm :
    {ts us : List DType} → Permᴰ ts us → get_higher_precision_type ts ≡ get_higher_precision_type us
unfolding get_higher_precision_type fold_higher
get_higher_precision_type-Perm Permᴰ.nil = refl
get_higher_precision_type-Perm (Permᴰ.cons {b = b} e p) = rw e (fold_higher-Perm p b)
get_higher_precision_type-Perm (Permᴰ.swap {a = a} {b = b} {l = l} e f) =
    rw (sym e, sym f) (ap (λ c. c >>= (λ x. fold_higher x l)) (higher_comm a b))
get_higher_precision_type-Perm (Permᴰ.trans p q) =
    get_higher_precision_type-Perm p ∙ get_higher_precision_type-Perm q
