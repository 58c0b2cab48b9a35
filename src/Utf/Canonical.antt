-- ===== src/Utf/Canonical.antt =====
-- `get_utf` accepts the shortest form of a character and nothing else.
use mathlib.Core.Option
use wp_lambdamoo.Prelude.{
  ℕ, ◌+◌, ◌-◌, ◌*◌, ◌%◌, ◌^◌, ◌≤◌, ◌<◌, ◌≡◌, refl, ◌≢◌, ◌↔◌, ◌⊎◌, none, some, List, [], ◌∷◌, ◌++◌,
  arith, All,
}
use wp_lambdamoo.Utf.{get_utf, put_utf, low_bits, shr, invalid_rune}
use wp_lambdamoo.Utf.Bytes.{or_80, or_c0, or_e0, or_f0}

abbrev pub IsByte : ℕ → Type 0
IsByte c = c < 0x100

-- A Unicode scalar value.
abbrev pub IsScalar : ℕ → Type 0
IsScalar v = (v ≤ 0x10ffff) × ((v < 0xd800) ⊎ (0xdfff < v))

-- `put_utf` returns -1 exactly on the unsigned ints that are no scalar value.
pub put_utf_fails_iff :
    (v : ℕ) → v < 2 ^ 32 → (put_utf v ≡ none) ↔ (((0xd800 ≤ v) × (v ≤ 0xdfff)) ⊎ (0x10ffff < v))
unfolding put_utf
put_utf_fails_iff v h = (λ e. ground arith, λ e. ground arith)

-- get_utf returns a Unicode scalar value for every string of bytes.
pub get_utf-IsScalar : (s : List ℕ) → All IsByte s → IsScalar (get_utf s).0
unfolding get_utf
get_utf-IsScalar [] h = ground arith
get_utf-IsScalar (a ∷ []) h = ground arith
get_utf-IsScalar (a ∷ b ∷ []) h = ground arith
get_utf-IsScalar (a ∷ b ∷ c ∷ []) h = ground arith
get_utf-IsScalar (a ∷ b ∷ c ∷ d ∷ s) h = ground arith

-- The other direction of each length: from the bytes' bits to what `put_utf` writes.
abbrev value2 : ℕ → ℕ → ℕ
value2 a b = low_bits a 5 * 64 + (b + 0x100 - 0x80) % 0x100

abbrev value3 : ℕ → ℕ → ℕ → ℕ
value3 a b c = (low_bits a 4 * 64 + (b + 0x100 - 0x80) % 0x100) * 64 + (c + 0x100 - 0x80) % 0x100

abbrev value4 : ℕ → ℕ → ℕ → ℕ → ℕ
value4 a b c d =
    ((low_bits a 3 * 64 + (b + 0x100 - 0x80) % 0x100) * 64 + (c + 0x100 - 0x80) % 0x100) * 64
    + (d + 0x100 - 0x80) % 0x100

-- A continuation byte.
abbrev IsCont : ℕ → Type 0
IsCont b = (0x80 ≤ b) × (b < 0xc0)

put_utf2 :
    (a b : ℕ)
    → 0xc0 ≤ a
    → a ≤ 0xdf
    → IsCont b
    → 0x7f < value2 a b
    → put_utf (value2 a b) ≡ some (a ∷ b ∷ [])
unfolding put_utf
put_utf2 a b ha ha' hb h =
    ground (arith, or_80 (low_bits (value2 a b) 6), or_c0 (shr (value2 a b) 6))

put_utf3 :
    (a b c : ℕ)
    → 0xe0 ≤ a
    → a ≤ 0xef
    → IsCont b
    → IsCont c
    → 0x7ff < value3 a b c
    → ((value3 a b c < 0xd800) ⊎ (0xdfff < value3 a b c))
    → put_utf (value3 a b c) ≡ some (a ∷ b ∷ c ∷ [])
unfolding put_utf
put_utf3 a b c ha ha' hb hc h h' = ground (
  arith,
  or_80 (low_bits (value3 a b c) 6),
  or_80 (low_bits (shr (value3 a b c) 6) 6),
  or_e0 (shr (value3 a b c) 12),
)

put_utf4 :
    (a b c d : ℕ)
    → 0xf0 ≤ a
    → a ≤ 0xf7
    → IsCont b
    → IsCont c
    → IsCont d
    → 0xffff < value4 a b c d
    → value4 a b c d ≤ 0x10ffff
    → put_utf (value4 a b c d) ≡ some (a ∷ b ∷ c ∷ d ∷ [])
unfolding put_utf
put_utf4 a b c d ha ha' hb hc hd h h' = ground (
  arith,
  or_80 (low_bits (value4 a b c d) 6),
  or_80 (low_bits (shr (value4 a b c d) 6) 6),
  or_80 (low_bits (shr (value4 a b c d) 12) 6),
  or_f0 (shr (value4 a b c d) 18),
)

put_utf1 : (a : ℕ) → a ≤ 0x7f → put_utf a ≡ some (a ∷ [])
unfolding put_utf
put_utf1 a h = ground arith

-- If a non-empty string of bytes is read as `v`, not as the replacement character, then it begins
-- with what `put_utf` writes for `v`, and the read stops behind that.
pub put_utf-get_utf :
    (s rest : List ℕ) (v : ℕ)
    → All IsByte s
    → s ≢ []
    → get_utf s ≡ (v, rest)
    → v ≢ invalid_rune
    → Option.map (λ bs. bs ++ rest) (put_utf v) ≡ some s
unfolding get_utf
put_utf-get_utf [] rest v h n e ne = absurd (n refl)
put_utf-get_utf (a ∷ []) rest v h n e ne = ground (arith, put_utf1 a)
put_utf-get_utf (a ∷ b ∷ []) rest v h n e ne = ground (arith, put_utf1 a, put_utf2 a b)
put_utf-get_utf (a ∷ b ∷ c ∷ []) rest v h n e ne =
    ground (arith, put_utf1 a, put_utf2 a b, put_utf3 a b c)
put_utf-get_utf (a ∷ b ∷ c ∷ d ∷ s) rest v h n e ne =
    ground (arith, put_utf1 a, put_utf2 a b, put_utf3 a b c, put_utf4 a b c d)
