-- ===== src/Numbers/Modular.antt =====
-- Products and powers modulo a number.
use native.Mathlib.Nat.{add-mul-mod_self_left, mod-add-div, pow-zero, pow-suc}
use wp_lambdamoo.Prelude.{ℕ, zero, suc, ◌+◌, ◌*◌, ◌/◌, ◌%◌, ◌^◌, ◌≡◌, sym, ap, ◌∙◌, arith}

pub mod-mul_left : (m x y : ℕ) → (x % m) * y % m ≡ x * y % m
mod-mul_left m x y =
    let split : (x % m) * y + m * ((x / m) * y) ≡ x * y =
      sym (grind_split m x y) ∙ ap (λ z. z * y) (mod-add-div x m) in
    sym (add-mul-mod_self_left ((x % m) * y) m ((x / m) * y)) ∙ ap (λ z. z % m) split
  where
    grind_split : (m x y : ℕ) → (x % m + m * (x / m)) * y ≡ (x % m) * y + m * ((x / m) * y)
    grind_split m x y = grind arith

pub mod-mul_right : (m x y : ℕ) → x * (y % m) % m ≡ x * y % m
mod-mul_right m x y = grind (arith, mod-mul_left m y x)

pub pow-mod : (m x k : ℕ) → (x % m) ^ k % m ≡ x ^ k % m
pow-mod m x zero = rw (pow-zero (x % m), pow-zero x)
pow-mod m x (suc k) =
    rw
      (
        pow-suc (x % m) k,
        pow-suc x k,
        sym (mod-mul_left m ((x % m) ^ k) (x % m)),
        pow-mod m x k,
        mod-mul_left m (x ^ k) (x % m),
      )
      (mod-mul_right m (x ^ k) x)

pub pow_square : (a k : ℕ) → (a * a) ^ k ≡ a ^ (k + k)
pow_square a zero = grind (arith, pow-zero (a * a), pow-zero a)
pow_square a (suc k) =
    grind (arith, pow_square a k, pow-suc (a * a) k, pow-suc a (k + k), pow-suc a (suc (k + k)))
