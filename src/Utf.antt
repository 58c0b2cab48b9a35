-- ===== src/Utf.antt =====
-- utf.c: UTF-8 characters read from and written to NUL-terminated byte strings.
pub mod Bytes
pub mod Client
pub mod Overrun
mod Tests
pub mod RoundTrip
pub mod Canonical
pub mod Text
-- A C string is the list of the bytes before its terminator; a read at the end gives the terminator.
use Prim.Native.Nat.{bit_or}
use wp_lambdamoo.Prelude.{
  ℕ, zero, suc, ◌+◌, ◌-◌, ◌*◌, ◌/◌, ◌%◌, ◌^◌, Bool, ◌&&◌, ◌||◌, List, [], ◌∷◌, Option, none, some,
  ltb, leb, ◌==◌, if◌then◌else◌, length, ℤ, pos, ◌-ℤ◌, ◌==ℤ◌,
}

-- INVALID_RUNE
abbrev pub invalid_rune : ℕ
invalid_rune = 0xfffd

-- x & (2 ^ k - 1) and x >> k
abbrev pub low_bits : ℕ → ℕ → ℕ
low_bits x k = x % 2 ^ k

abbrev pub shr : ℕ → ℕ → ℕ
shr x k = x / 2 ^ k

-- `*p`
abbrev pub deref : List ℕ → ℕ
deref [] = 0
deref (c ∷ p) = c

-- What the macro GET_CONT leaves: the value so far and the rest of the string, or the place of the
-- byte that made it jump to `bad_cont`.
pub data Scan : Type 0 where
  cont : ℕ → List ℕ → Scan
  bad_cont : List ℕ → Scan

-- GET_CONT; `c -= 0x80` wraps in an unsigned char.
abbrev pub get_cont : ℕ → List ℕ → Scan
get_cont v [] = bad_cont []
get_cont v (c ∷ p) =
    let d = (c + 0x100 - 0x80) % 0x100 in
    if ltb 0x3f d then bad_cont (c ∷ p) else cont (v * 64 + d) p

abbrev pub then_scan : Scan → (ℕ → List ℕ → Scan) → Scan
then_scan (cont v p) k = k v p
then_scan (bad_cont p) k = bad_cont p

-- The label `done`, reached directly or through `bad_cont`, after the range test `bad` on `v`.
abbrev pub finish : (ℕ → Bool) → Scan → ℕ × List ℕ
finish bad (cont v p) = (if bad v then invalid_rune else v, p)
finish bad (bad_cont p) = (invalid_rune, p)

abbrev pub bad2 : ℕ → Bool
bad2 v = leb v 0x7f

abbrev pub bad3 : ℕ → Bool
bad3 v = leb v 0x7ff || (leb 0xd800 v && leb v 0xdfff)

abbrev pub bad4 : ℕ → Bool
bad4 v = leb v 0xffff || ltb 0x10ffff v

abbrev pub scan2 : ℕ → List ℕ → Scan
scan2 v p = then_scan (get_cont v p) get_cont

abbrev pub scan3 : ℕ → List ℕ → Scan
scan3 v p = then_scan (scan2 v p) get_cont

unfoldable pub get_utf : List ℕ → ℕ × List ℕ
get_utf [] = (0, [])
get_utf (c ∷ p) =
    if leb c 0x7f
    then (c, p)
    else if leb c 0xbf
    then (invalid_rune, p)
    else if leb c 0xdf
    then finish bad2 (get_cont (low_bits c 5) p)
    else if leb c 0xef
    then finish bad3 (scan2 (low_bits c 4) p)
    else if leb c 0xf7
    then finish bad4 (scan3 (low_bits c 3) p)
    else (invalid_rune, p)

-- The bytes that are written, or -1. `v` is an unsigned int: `v - 0xd800` wraps at 2 ^ 32.
unfoldable pub put_utf : ℕ → Option (List ℕ)
put_utf v =
    if leb v 0x7f
    then some (v ∷ [])
    else if leb v 0x7ff
    then some (bit_or 0xc0 (shr v 6) ∷ bit_or 0x80 (low_bits v 6) ∷ [])
    else if leb v 0xffff
    then (if leb ((v + 2 ^ 32 - 0xd800) % 2 ^ 32) (0xdfff - 0xd800)
        then none
        else some (
            bit_or 0xe0 (shr v 12)
            ∷ bit_or 0x80 (low_bits (shr v 6) 6)
            ∷ bit_or 0x80 (low_bits v 6)
            ∷ []))
    else if leb v 0x10ffff
    then some (
        bit_or 0xf0 (shr v 18)
        ∷ bit_or 0x80 (low_bits (shr v 12) 6)
        ∷ bit_or 0x80 (low_bits (shr v 6) 6)
        ∷ bit_or 0x80 (low_bits v 6)
        ∷ [])
    else none

-- The string that is left after the loop of `skip_utf`; the fuel is the number of bytes.
unfoldable pub skip_rest : ℕ → List ℕ → ℤ → List ℕ
skip_rest zero s i = s
skip_rest (suc fuel) s i =
    let rest = skip_rest fuel (get_utf s).1 (i -ℤ pos 1) in
    if (deref s == 0) || (i ==ℤ pos 0) then s else rest

-- `s - s0`
unfoldable pub skip_utf : List ℕ → ℤ → ℕ
unfolding skip_rest
skip_utf s0 i = length s0 - length (skip_rest (length s0) s0 i)

unfoldable pub strlen_loop : ℕ → List ℕ → ℕ → ℕ
strlen_loop zero s i = i
strlen_loop (suc fuel) s i =
    let rest = strlen_loop fuel (get_utf s).1 (i + 1) in if (get_utf s).0 == 0 then i else rest

unfoldable pub strlen_utf : List ℕ → ℕ
unfolding strlen_loop
strlen_utf s = strlen_loop (suc (length s)) s 0

unfoldable pub clearance_utf : ℕ → ℕ
clearance_utf c =
    if leb c 0x7f
    then 1
    else if leb c 0xbf
    then 1
    else if leb c 0xdf
    then 2
    else if leb c 0xef
    then 3
    else if leb c 0xf7
    then 4
    else 1
