-- ===== src/Strings/Strtol.antt =====
-- The conversions of C's integers, and strtol of the C library to the base 10.
use wp_lambdamoo.Prelude.{
  ℕ, zero, suc, ◌+◌, ◌-◌, ◌*◌, ◌%◌, ◌^◌, Bool, false, ◌&&◌, ◌||◌, List, [], ◌∷◌, ltb, leb, ◌==◌,
  if◌then◌else◌, ℤ, pos, negsuc,
}

-- The low `w` bits of an integer, and the signed integer that they are.
abbrev pub bits_of : ℕ → ℤ → ℕ
bits_of w (pos n) = n % 2 ^ w
bits_of w (negsuc n) = 2 ^ w - 1 - n % 2 ^ w

abbrev pub signed_of : ℕ → ℕ → ℤ
signed_of w m = if ltb m (2 ^ (w - 1)) then pos m else negsuc (2 ^ w - 1 - m)

-- Conversions to short, int and unsigned.
abbrev pub to_short : ℤ → ℤ
to_short x = signed_of 16 (bits_of 16 x)

abbrev pub to_int : ℤ → ℤ
to_int x = signed_of 32 (bits_of 32 x)

abbrev pub to_unsigned : ℤ → ℕ
to_unsigned x = bits_of 32 x

abbrev pub isspace : ℕ → Bool
isspace c = (c == b' ') || (leb 9 c && leb c 13)

abbrev pub isdigit : ℕ → Bool
isdigit c = leb b'0' c && leb c b'9'

unfoldable pub skip_isspace : List ℕ → List ℕ
skip_isspace [] = []
skip_isspace (c ∷ s) = let rest = skip_isspace s in if isspace c then rest else c ∷ s

-- The digits at the head of a string after `acc`, and what follows them.
unfoldable pub scan_digits : ℕ → List ℕ → ℕ × List ℕ
scan_digits acc [] = (acc, [])
scan_digits acc (c ∷ s) =
    let rest = scan_digits (acc * 10 + (c - b'0')) s in if isdigit c then rest else (acc, c ∷ s)

abbrev pub starts_digit : List ℕ → Bool
starts_digit [] = false
starts_digit (c ∷ s) = isdigit c

-- LONG_MAX and LONG_MIN where the digits exceed a long.
abbrev pub clamp_pos : ℕ → ℤ
clamp_pos n = if ltb n (2 ^ 63) then pos n else pos (2 ^ 63 - 1)

abbrev pub clamp_neg : ℕ → ℤ
clamp_neg zero = pos 0
clamp_neg (suc n) = if ltb n (2 ^ 63) then negsuc n else negsuc (2 ^ 63 - 1)

-- A string without a number gives 0 and is left as it is.
abbrev pub strtol_signed : List ℕ → (ℕ → ℤ) → List ℕ → ℤ × List ℕ
strtol_signed s clamp t =
    let scanned = scan_digits 0 t in
    if starts_digit t then (clamp scanned.0, scanned.1) else (pos 0, s)

abbrev pub strtol_from : List ℕ → List ℕ → ℤ × List ℕ
strtol_from s [] = (pos 0, s)
strtol_from s (c ∷ t) =
    if c == b'-'
    then strtol_signed s clamp_neg t
    else if c == b'+'
    then strtol_signed s clamp_pos t
    else strtol_signed s clamp_pos (c ∷ t)

unfoldable pub strtol : List ℕ → ℤ × List ℕ
unfolding skip_isspace scan_digits
strtol s = strtol_from s (skip_isspace s)
