-- ===== src/Numbers.antt =====
-- numbers.c: comparison, arithmetic and power of MOO numbers. An int64_t in a register is its residue
-- modulo 2 ^ 64, and int arithmetic wraps around, as the machine's does.
pub mod Modular
pub mod Power
pub mod Exact
mod Tests
use wp_lambdamoo.Prelude.{
  ℕ, zero, suc, ◌+◌, ◌-◌, ◌*◌, ◌/◌, ◌%◌, ◌^◌, ◌≤◌, ◌<◌, ◌≡◌, refl, sym, ap, ◌∙◌, ◌≢◌, ◌↔◌, ◌⊎◌, inl,
  inr, Bool, true, false, not, ◌&&◌, ◌||◌, Option, none, some, List, [], ◌∷◌, ◌++◌, map,
  append_assoc, append-nil, arith, ltb, leb, ◌==◌, if◌then◌else◌, ltb→lt, lt→ltb, leb→le, ==_iff,
  ==-refl, Bool-cases, Option-cases, every, every_at, length, get_elem?, set, take, drop,
  length-append, length-take, length-drop, take-append-drop, drop-append, take-append, All, ℤ, pos,
  negsuc, pos_part, neg_part, sub_ℕ, ◌+ℤ◌, ◌-ℤ◌, ◌*ℤ◌, ◌≤ℤ◌, leb_ℤ, ltb_ℤ, ◌==ℤ◌, ==ℤ_iff, ==ℤ-refl,
  drop-nil, take-nil, pred_pos, pred_negsuc, suc-ne-zero, take_all, drop_all, succ_pos, sub_pos,
  drop-drop, or-eq-false, ==ℤ-sym, or_right, clash,
}
use wp_lambdamoo.Var.{
  Num, Var, int, float, err, e_type, e_div, e_float, VarType, type_int, type_obj, type_str,
  type_err, type_list, type_clear, type_none, type_catch, type_finally, type_float, type_waif,
  type_of,
}

-- The number of values of a register.
abbrev pub word : ℕ
word = 2 ^ 64

abbrev pub residue : Num → ℕ
residue (pos n) = n % word
residue (negsuc n) = word - 1 - n % word

abbrev pub signed : ℕ → Num
signed u = if ltb u (2 ^ 63) then pos u else negsuc (word - 1 - u)

-- The operations on doubles, and IS_REAL; `fpow` is none where pow sets errno, and
-- `fnum_of` the double that the union of a value of another type reads as.
pub record Reals : Type 0 where
  pub flt : ℕ → ℕ → Bool
  pub is_zero : ℕ → Bool
  pub is_real : ℕ → Bool
  pub fadd : ℕ → ℕ → ℕ
  pub fsubtract : ℕ → ℕ → ℕ
  pub fmultiply : ℕ → ℕ → ℕ
  pub fdivide : ℕ → ℕ → ℕ
  pub fmodulus : ℕ → ℕ → ℕ
  pub fpow : ℕ → ℕ → Option ℕ
  pub of_num : Num → ℕ
  pub fnum_of : Var → ℕ

unfoldable pub compare_integers : Num → Num → Num
compare_integers a b = if ltb_ℤ a b then negsuc 0 else if ltb_ℤ b a then pos 1 else pos 0

-- The loop of `do_power` on 64-bit words; `none` is out of fuel.
unfoldable pub power_loop : ℕ → ℕ → ℕ → ℕ → Option ℕ
power_loop zero b r a = if b == 0 then some r else none
power_loop (suc fuel) b r a =
    let rest = power_loop fuel (b / 2) (if b % 2 == 1 then r * a % word else r) (a * a % word) in
    if b == 0 then some r else rest

-- `a / b` and `a % b` of C, which truncate; a division whose quotient is out of range traps.
abbrev pub truncated : Bool → ℕ → Num
truncated minus n = if minus then pos 0 -ℤ pos n else pos n

abbrev pub is_negative : Num → Bool
is_negative (pos n) = false
is_negative (negsuc n) = true

abbrev pub xor : Bool → Bool → Bool
xor true b = not b
xor false b = b

abbrev pub magnitude : Num → ℕ
magnitude a = pos_part a + neg_part a

-- `none` is a trap: the quotient 2 ^ 63 does not fit. The divisor is not 0.
unfoldable pub num_divide : Num → Num → Option Num
num_divide a b =
    if (a ==ℤ negsuc (2 ^ 63 - 1)) && (b ==ℤ negsuc 0)
    then none
    else some (truncated (xor (is_negative a) (is_negative b)) (magnitude a / magnitude b))

unfoldable pub num_modulus : Num → Num → Option Num
num_modulus a b =
    if (a ==ℤ negsuc (2 ^ 63 - 1)) && (b ==ℤ negsuc 0)
    then none
    else some (truncated (is_negative a) (magnitude a % magnitude b))

-- The number of a type's tag.
abbrev pub type_code : VarType → ℕ
type_code type_int = 0
type_code type_obj = 1
type_code type_str = 2
type_code type_err = 3
type_code type_list = 4
type_code type_clear = 5
type_code type_none = 6
type_code type_catch = 7
type_code type_finally = 8
type_code type_float = 9
type_code type_waif = 10

abbrev pub same_type : Var → Var → Bool
same_type a b = type_code (type_of a) == type_code (type_of b)

module _ (fl : Reals) where
  abbrev pub real : ℕ → Var
  real d = if fl.is_real d then float d else err e_float

  -- SIMPLE_BINARY
  unfoldable pub simple_binary : (ℕ → ℕ → ℕ) → (ℕ → ℕ → ℕ) → Var → Var → Var
  simple_binary iop fop (int a) (int b) = int (signed (iop (residue a) (residue b) % word))
  simple_binary iop fop (float a) (float b) = real (fop a b)
  simple_binary iop fop a b =
      if same_type a b then real (fop (fl.fnum_of a) (fl.fnum_of b)) else err e_type

  unfoldable pub do_add : Var → Var → Var
  unfolding simple_binary
  do_add = simple_binary (λ a b. a + b) fl.fadd

  unfoldable pub do_subtract : Var → Var → Var
  unfolding simple_binary
  do_subtract = simple_binary (λ a b. a + (word - b)) fl.fsubtract

  unfoldable pub do_multiply : Var → Var → Var
  unfolding simple_binary
  do_multiply = simple_binary (λ a b. a * b) fl.fmultiply

  abbrev pub order_of : Bool → Bool → Num
  order_of less greater = if less then negsuc 0 else if greater then pos 1 else pos 0

  unfoldable pub compare_numbers : Var → Var → Var
  compare_numbers (int a) (int b) = int (order_of (ltb_ℤ a b) (ltb_ℤ b a))
  compare_numbers (float a) (float b) = int (order_of (fl.flt a b) (fl.flt b a))
  compare_numbers a b =
      if same_type a b
      then int
          (order_of (fl.flt (fl.fnum_of a) (fl.fnum_of b)) (fl.flt (fl.fnum_of b) (fl.fnum_of a)))
      else err e_type

  -- DIVISION_OP; `none` is a trap of the machine.
  unfoldable pub division_op : (Num → Num → Option Num) → (ℕ → ℕ → ℕ) → Var → Var → Option Var
  division_op iop fop (int a) (int b) =
      if b ==ℤ pos 0
      then some (err e_div)
      else elim (iop a b) [ none ↦ none | some q ↦ some (int q) ]
  division_op iop fop (float a) (float b) =
      some (if fl.is_zero b then err e_div else real (fop a b))
  division_op iop fop a b = some (if same_type a b then err e_div else err e_type)

  unfoldable pub do_divide : Var → Var → Option Var
  unfolding division_op
  do_divide = division_op num_divide fl.fdivide

  unfoldable pub do_modulus : Var → Var → Option Var
  unfolding division_op
  do_modulus = division_op num_modulus fl.fmodulus

  -- The power of an integer: a negative exponent by cases on the base.
  unfoldable pub num_power : Num → Num → Option Var
  num_power a (negsuc n) =
      if a ==ℤ negsuc 0
      then some (int (if n % 2 == 0 then pos 1 else negsuc 0))
      else if a ==ℤ pos 0
      then some (err e_div)
      else if a ==ℤ pos 1
      then some (int (pos 1))
      else some (int (pos 0))
  num_power a (pos b) = elim (power_loop 64 b 1 (residue a)) [
    | none ↦ none
    | some r ↦ some (int (signed r))
  ]

  abbrev pub float_power : ℕ → ℕ → Var
  float_power a d = elim (fl.fpow a d) [ none ↦ err e_float | some p ↦ real p ]

  unfoldable pub do_power : Var → Var → Option Var
  unfolding num_power
  do_power (int a) (int b) = num_power a b
  do_power (float a) (int b) = some (float_power a (fl.of_num b))
  do_power (float a) (float b) = some (float_power a b)
  do_power _ _ = some (err e_type)
