-- ===== src/Numbers/Power.antt =====
-- do_power of numbers.c on integers.
use native.Mathlib.Nat.{pow-zero, pow-suc}
use wp_lambdamoo.Prelude.{
  ℕ, zero, suc, ◌+◌, ◌*◌, ◌/◌, ◌%◌, ◌^◌, ◌<◌, ◌≡◌, sym, ap, ◌∙◌, inl, inr, Option, none, some,
  arith, ◌==◌, ==_iff, Bool-cases, pos,
}
use wp_lambdamoo.Var.{Num, Var, int}
use wp_lambdamoo.Numbers.{Reals, word, residue, signed, power_loop, num_power, do_power}
use wp_lambdamoo.Numbers.Modular.{mod-mul_left, mod-mul_right, pow-mod, pow_square}

-- One round keeps r * a ^ b.
round_even : (b r a : ℕ) → b % 2 ≡ 0 → r * (a * a % word) ^ (b / 2) % word ≡ r * a ^ b % word
round_even b r a e =
    let half : b ≡ b / 2 + b / 2 = omega arith in
    sym (mod-mul_right word r ((a * a % word) ^ (b / 2)))
    ∙ ap (λ z. r * z % word) (pow-mod word (a * a) (b / 2))
    ∙ mod-mul_right word r ((a * a) ^ (b / 2))
    ∙ ap (λ z. r * z % word) (pow_square a (b / 2))
    ∙ ap (λ z. r * a ^ z % word) (sym half)

round_odd :
    (b r a : ℕ) → b % 2 ≡ 1 → (r * a % word) * (a * a % word) ^ (b / 2) % word ≡ r * a ^ b % word
round_odd b r a e =
    let half : b ≡ suc (b / 2 + b / 2) = omega arith in
    mod-mul_left word (r * a) ((a * a % word) ^ (b / 2))
    ∙ sym (mod-mul_right word (r * a) ((a * a % word) ^ (b / 2)))
    ∙ ap (λ z. r * a * z % word) (pow-mod word (a * a) (b / 2))
    ∙ mod-mul_right word (r * a) ((a * a) ^ (b / 2))
    ∙ ap (λ z. r * a * z % word) (pow_square a (b / 2))
    ∙ ap (λ z. z % word) (one_more r a (a ^ (b / 2 + b / 2)))
    ∙ ap (λ z. r * z % word) (sym (pow-suc a (b / 2 + b / 2)))
    ∙ ap (λ z. r * a ^ z % word) (sym half)
  where
    one_more : (r a p : ℕ) → r * a * p ≡ r * (p * a)
    one_more r a p = grind arith

halved : (b fuel : ℕ) → b < 2 ^ suc fuel → b / 2 < 2 ^ fuel
halved b fuel h = let e = pow-suc 2 fuel in omega arith

mod_small : (r : ℕ) → r < word → r % word ≡ r
mod_small r h = omega arith

ended : (b r a : ℕ) → b ≡ 0 → r < word → some r ≡ some (r * a ^ b % word)
ended b r a e hr =
    ap some (
      sym (mod_small r hr)
      ∙ ap (λ z. z % word) (times_one r a)
      ∙ ap (λ z. r * a ^ z % word) (sym e))
  where
    times_one : (r a : ℕ) → r ≡ r * a ^ 0
    times_one r a = rw (pow-zero a) (omega arith)

power_run :
    (fuel b r a : ℕ) → b < 2 ^ fuel → r < word → power_loop fuel b r a ≡ some (r * a ^ b % word)
unfolding power_loop
power_run zero b r a h hr = let e : b ≡ 0 = omega arith in rw ((==_iff b 0).1 e) (ended b r a e hr)
power_run (suc fuel) b r a h hr = elim (Bool-cases (b == 0)) [
  | inl end ↦ rw end (ended b r a ((==_iff b 0).0 end) hr)
  | inr more ↦
      let less : b / 2 < 2 ^ fuel = halved b fuel h in
      elim (Bool-cases (b % 2 == 1)) [
        | inl odd ↦
            rw (more, odd, power_run fuel (b / 2) (r * a % word) (a * a % word) less (omega arith))
              (ap some (round_odd b r a ((==_iff (b % 2) 1).0 odd)))
        | inr even ↦
            rw (more, even, power_run fuel (b / 2) r (a * a % word) less hr)
              (ap some (round_even b r a (ground arith)))
      ]
]

-- For an exponent that is not negative, `do_power` ends within 64 rounds with the power modulo 2 ^ 64,
-- read as a signed number.
pub do_power_wraps :
    (fl : Reals) (a : Num) (b : ℕ)
    → b < 2 ^ 63
    → do_power fl (int a) (int (pos b)) ≡ some (int (signed (residue a ^ b % word)))
unfolding do_power num_power
do_power_wraps fl a b h = ap signed_result (run ∙ ap some (ap (λ z. z % word) one_times))
  where
    signed_result : Option ℕ → Option Var
    signed_result none = none
    signed_result (some r) = some (int (signed r))

    one_times : 1 * residue a ^ b ≡ residue a ^ b
    one_times = omega arith

    run : power_loop 64 b 1 (residue a) ≡ some (1 * residue a ^ b % word)
    run = power_run 64 b 1 (residue a) (omega arith) (omega arith)
