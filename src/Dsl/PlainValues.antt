-- ===== src/Dsl/PlainValues.antt =====
-- A small kind of values, at which the tests of the other modules run.
use feathub.Prelude.{
  ℕ, Bool, true, false, Option, none, some, nat_eq, ◌==◌, leb, ltb, ◌+◌, ◌*◌, HasEq, ◌≡◌, ◌↔◌,
  arith, nat_beq,
}
use feathub.Prelude.Int.{ℤ, pos}
use feathub.Errors.{Result, ok, err, type_error, zero_division_error}
use feathub.Common.Time.{TimeValue, int_time}
use feathub.Common.PlainDates.{plain_dates}
use feathub.Dsl.Local.{Python}

-- None, the booleans and some numbers.
pub data Value : Type 0 where
  nothing : Value
  truth_value : Bool → Value
  number : ℕ → Value

abbrev pub number_op : (ℕ → ℕ → Value) → Value → Value → Result Value
number_op f (number a) (number b) = ok (f a b)
number_op f _ _ = err type_error

abbrev pub undefined : Value → Value → Result Value
undefined a b = err type_error

abbrev pub unsupported : Value → Result Value
unsupported a = err type_error

abbrev pub truth_of : Value → Result Bool
truth_of nothing = ok false
truth_of (truth_value b) = ok b
truth_of (number n) = ok (ltb 0 n)

abbrev pub is_nothing : Value → Bool
is_nothing nothing = true
is_nothing _ = false

abbrev pub bool_of : Value → Option Bool
bool_of (truth_value b) = some b
bool_of _ = none

abbrev pub time_of : Value → TimeValue ℤ
time_of (number n) = int_time (pos n)
time_of _ = int_time (pos 0)

abbrev pub python : Python Value
python = record {
  none_value = nothing;
  bool_value = truth_value;
  int_value = λ n. nothing;
  str_value = λ s. nothing;
  dict_value = λ d. err type_error;
  is_none = is_nothing;
  as_bool = bool_of;
  as_str = λ v. none;
  as_nan = λ v. none;
  truth = truth_of;
  neg = unsupported;
  add = number_op (λ a b. number (a + b));
  sub = undefined;
  mul = number_op (λ a b. number (a * b));
  truediv = λ a b. err zero_division_error;
  lt = number_op (λ a b. truth_value (ltb a b));
  le = number_op (λ a b. truth_value (leb a b));
  gt = number_op (λ a b. truth_value (ltb b a));
  ge = number_op (λ a b. truth_value (leb b a));
  eq = number_op (λ a b. truth_value (a == b));
  ne = undefined;
  is_in = λ a b. err type_error;
  item = undefined;
  len = unsupported;
  lower = unsupported;
  lower_text = λ s. s;
  encode = λ s. nothing;
  str = λ v. err type_error;
  int = λ v. ok v;
  float = unsupported;
  join = λ v ss. err type_error;
  json_dumps = unsupported;
  strptime = unsupported;
  dt = plain_dates;
  as_time = time_of;
  format_of = λ v. err type_error;
  int_of_timestamp = λ t. nothing;
}

abbrev pub bool_beq : Bool → Bool → Bool
bool_beq true b = b
bool_beq false true = false
bool_beq false false = true

abbrev pub value_beq : Value → Value → Bool
value_beq nothing nothing = true
value_beq (truth_value a) (truth_value b) = bool_beq a b
value_beq (number a) (number b) = nat_beq a b
value_beq _ _ = false

pub value_beq_iff : (a b : Value) → (value_beq a b ≡ true) ↔ (a ≡ b)
value_beq_iff a b = (λ h. ground arith, λ h. ground arith)

instance abbrev pub value_eq : HasEq Value
value_eq = record { eqb = value_beq; eqb_iff = value_beq_iff }
