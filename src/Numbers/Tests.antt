-- ===== src/Numbers/Tests.antt =====
-- Runs of the arithmetic of numbers.c, and the theorems at concrete numbers.
use wp_lambdamoo.Prelude.{
  ◌+◌, ◌-◌, ◌*◌, ◌/◌, ◌%◌, ◌^◌, ◌≡◌, refl, true, some, arith, ltb, ◌==◌, pos, negsuc, pos_part,
}
use wp_lambdamoo.Var.{int}
use wp_lambdamoo.Numbers.{
  Reals, word, residue, signed, do_add, do_subtract, do_power, do_divide, do_modulus,
}
use wp_lambdamoo.Numbers.Power.{do_power_wraps}

abbrev some_reals : Reals
some_reals = record {
  flt = λ a b. ltb a b;
  is_zero = λ a. a == 0;
  is_real = λ a. true;
  fadd = λ a b. a + b;
  fsubtract = λ a b. a - b;
  fmultiply = λ a b. a * b;
  fdivide = λ a b. a / b;
  fmodulus = λ a b. a % b;
  fpow = λ a b. some (a ^ b);
  of_num = pos_part;
  fnum_of = λ v. 0;
}

cube : do_power some_reals (int (negsuc 2)) (int (pos 3)) ≡ some (int (negsuc 26))
unfolding do_power wp_lambdamoo.Numbers.power_loop
cube = refl

do_power_wraps_example :
    do_power some_reals (int (negsuc 2)) (int (pos 3))
    ≡ some (int (signed (residue (negsuc 2) ^ 3 % word)))
do_power_wraps_example = do_power_wraps some_reals (negsuc 2) 3 (omega arith)

-- The two signs are the wrong way round: (-1) ^ -1 is -1 and (-1) ^ -2 is 1.
minus_one_inverted :
    (do_power some_reals (int (negsuc 0)) (int (negsuc 0)) ≡ some (int (pos 1)))
    × (do_power some_reals (int (negsuc 0)) (int (negsuc 1)) ≡ some (int (negsuc 0)))
unfolding do_power
minus_one_inverted = (ground arith, ground arith)
