-- ===== src/Numbers/Exact.antt =====
-- The int operations of numbers.c where their result fits, and where a division traps.
use wp_lambdamoo.Prelude.{
  ◌+◌, ◌-◌, ◌/◌, ◌%◌, ◌^◌, ◌≤◌, ◌<◌, ◌≡◌, refl, ap, ◌↔◌, inl, inr, Bool, true, false, ◌&&◌, Option,
  none, some, arith, if◌then◌else◌, Bool-cases, pos, negsuc, pos_part, neg_part, ◌+ℤ◌, ◌-ℤ◌, ◌==ℤ◌,
  ==ℤ_iff, clash,
}
use wp_lambdamoo.Var.{Num, Var, int, err, e_div}
use wp_lambdamoo.Numbers.{
  Reals, word, residue, signed, do_add, do_subtract, do_divide, do_modulus, num_divide, num_modulus,
  truncated, xor, is_negative, magnitude,
}

-- The integers of 64 bits.
abbrev pub InNum : Num → Type 0
InNum a = (pos_part a < 2 ^ 63) × (neg_part a ≤ 2 ^ 63)

sum_exact :
    (a b : Num)
    → InNum a
    → InNum b
    → InNum (a +ℤ b)
    → signed ((residue a + residue b) % word) ≡ a +ℤ b
unfolding ◌+ℤ◌
sum_exact (pos a) (pos b) ha hb h = ground arith
sum_exact (pos a) (negsuc b) ha hb h = ground arith
sum_exact (negsuc a) (pos b) ha hb h = ground arith
sum_exact (negsuc a) (negsuc b) ha hb h = ground arith

-- The sum of two ints is the exact one wherever that has 64 bits.
pub do_add_exact :
    (fl : Reals) (a b : Num)
    → InNum a
    → InNum b
    → InNum (a +ℤ b)
    → do_add fl (int a) (int b) ≡ int (a +ℤ b)
unfolding do_add
do_add_exact fl a b ha hb h = ap int (sum_exact a b ha hb h)

difference_exact :
    (a b : Num)
    → InNum a
    → InNum b
    → InNum (a -ℤ b)
    → signed ((residue a + (word - residue b)) % word) ≡ a -ℤ b
unfolding ◌-ℤ◌
difference_exact (pos a) (pos b) ha hb h = ground arith
difference_exact (pos a) (negsuc b) ha hb h = ground arith
difference_exact (negsuc a) (pos b) ha hb h = ground arith
difference_exact (negsuc a) (negsuc b) ha hb h = ground arith

-- So is the difference.
pub do_subtract_exact :
    (fl : Reals) (a b : Num)
    → InNum a
    → InNum b
    → InNum (a -ℤ b)
    → do_subtract fl (int a) (int b) ≡ int (a -ℤ b)
unfolding do_subtract
do_subtract_exact fl a b ha hb h = ap int (difference_exact a b ha hb h)

abbrev guarded : Bool → Bool → Num → Option Var
guarded is_zero traps q =
    if is_zero
    then some (err e_div)
    else elim (if traps then none else some q) as (λ x. Option Var) [
      | none ↦ none
      | some r ↦ some (int r)
    ]

guarded-none : (is_zero traps : Bool) (q : Num) → guarded is_zero traps q ≡ none → traps ≡ true
guarded-none true t q e = cc
guarded-none false true q e = refl
guarded-none false false q e = cc

smallest_by :
    (a b : Num)
    → ((a ==ℤ negsuc (2 ^ 63 - 1)) && (b ==ℤ negsuc 0)) ≡ true
    → (a ≡ negsuc (2 ^ 63 - 1)) × (b ≡ negsuc 0)
smallest_by a b e = elim (Bool-cases (a ==ℤ negsuc (2 ^ 63 - 1))) [
  | inl x ↦ ((==ℤ_iff a (negsuc (2 ^ 63 - 1))).0 x, (==ℤ_iff b (negsuc 0)).0 (rw x at e))
  | inr x ↦ absurd (clash (rw x at e) refl)
]

guarded_iff :
    (a b q : Num)
    → (guarded (b ==ℤ pos 0) ((a ==ℤ negsuc (2 ^ 63 - 1)) && (b ==ℤ negsuc 0)) q ≡ none)
      ↔ ((a ≡ negsuc (2 ^ 63 - 1)) × (b ≡ negsuc 0))
guarded_iff a b q =
    (λ e. smallest_by a b (guarded-none (b ==ℤ pos 0) _ q e), λ r. rw (r.0, r.1) (ground arith))

-- do_divide and do_modulus of ints give an int or E_DIV, but for the smallest int by -1: there both trap.
pub do_divide_traps :
    (fl : Reals) (a b : Num)
    → ((do_divide fl (int a) (int b) ≡ none) ↔ ((a ≡ negsuc (2 ^ 63 - 1)) × (b ≡ negsuc 0)))
      × ((do_modulus fl (int a) (int b) ≡ none) ↔ ((a ≡ negsuc (2 ^ 63 - 1)) × (b ≡ negsuc 0)))
unfolding do_divide do_modulus num_divide num_modulus
do_divide_traps fl a b = (
  guarded_iff a b (truncated (xor (is_negative a) (is_negative b)) (magnitude a / magnitude b)),
  guarded_iff a b (truncated (is_negative a) (magnitude a % magnitude b)),
)
