-- ===== src/Utf/Bytes.antt =====
-- What `put_utf` writes, byte by byte, as sums: its `|` never meets a set bit.
use Prim.Native.Nat.{bit_or}
use wp_lambdamoo.Prelude.{
  ℕ, ◌+◌, ◌≤◌, ◌<◌, ◌≡◌, refl, ◌⊎◌, true, some, List, [], ◌∷◌, arith, ◌==◌, ==_iff, every, every_at,
}
use wp_lambdamoo.Utf.{put_utf, low_bits, shr}

or_table_80 : every (λ x. bit_or 0x80 x == 0x80 + x) 64 ≡ true
unfolding every
or_table_80 = refl

or_table_c0 : every (λ x. bit_or 0xc0 x == 0xc0 + x) 32 ≡ true
unfolding every
or_table_c0 = refl

or_table_e0 : every (λ x. bit_or 0xe0 x == 0xe0 + x) 16 ≡ true
unfolding every
or_table_e0 = refl

or_table_f0 : every (λ x. bit_or 0xf0 x == 0xf0 + x) 8 ≡ true
unfolding every
or_table_f0 = refl

pub or_80 : (x : ℕ) → x < 64 → bit_or 0x80 x ≡ 0x80 + x
or_80 x h = (==_iff _ _).0 (every_at _ 64 or_table_80 x h)

pub or_c0 : (x : ℕ) → x < 32 → bit_or 0xc0 x ≡ 0xc0 + x
or_c0 x h = (==_iff _ _).0 (every_at _ 32 or_table_c0 x h)

pub or_e0 : (x : ℕ) → x < 16 → bit_or 0xe0 x ≡ 0xe0 + x
or_e0 x h = (==_iff _ _).0 (every_at _ 16 or_table_e0 x h)

pub or_f0 : (x : ℕ) → x < 8 → bit_or 0xf0 x ≡ 0xf0 + x
or_f0 x h = (==_iff _ _).0 (every_at _ 8 or_table_f0 x h)

-- The four forms of `put_utf`.
pub put_utf_one : (v : ℕ) → v ≤ 0x7f → put_utf v ≡ some (v ∷ [])
unfolding put_utf
put_utf_one v h = ground arith

pub put_utf_two :
    (v : ℕ)
    → 0x7f < v
    → v ≤ 0x7ff
    → put_utf v ≡ some ((0xc0 + shr v 6) ∷ (0x80 + low_bits v 6) ∷ [])
unfolding put_utf
put_utf_two v h h' = ground (arith, or_80 (low_bits v 6), or_c0 (shr v 6))

pub put_utf_three :
    (v : ℕ)
    → 0x7ff < v
    → v ≤ 0xffff
    → ((v < 0xd800) ⊎ (0xdfff < v))
    → put_utf v
      ≡ some ((0xe0 + shr v 12) ∷ (0x80 + low_bits (shr v 6) 6) ∷ (0x80 + low_bits v 6) ∷ [])
unfolding put_utf
put_utf_three v h h' s =
    ground (arith, or_80 (low_bits v 6), or_80 (low_bits (shr v 6) 6), or_e0 (shr v 12))

pub put_utf_four :
    (v : ℕ)
    → 0xffff < v
    → v ≤ 0x10ffff
    → put_utf v
      ≡ some (
          (0xf0 + shr v 18)
          ∷ (0x80 + low_bits (shr v 12) 6)
          ∷ (0x80 + low_bits (shr v 6) 6)
          ∷ (0x80 + low_bits v 6)
          ∷ [])
unfolding put_utf
put_utf_four v h h' = ground (
  arith,
  or_80 (low_bits v 6),
  or_80 (low_bits (shr v 6) 6),
  or_80 (low_bits (shr v 12) 6),
  or_f0 (shr v 18),
)

-- `put_utf` succeeds on scalar values only.
pub put_utf_scalar :
    (v : ℕ) (bs : List ℕ) → put_utf v ≡ some bs → (v ≤ 0x10ffff) × ((v < 0xd800) ⊎ (0xdfff < v))
unfolding put_utf
put_utf_scalar v bs h = (ground arith, ground arith)
