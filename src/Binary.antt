-- ===== src/Binary.antt =====
-- utils.c: the printable form of raw bytes, in which "~xx" stands for the byte with that hex number.
pub mod RoundTrip
mod Tests
use Prim.Native.Nat.{bit_or}
use wp_lambdamoo.Prelude.{
  ℕ, zero, suc, ◌+◌, ◌-◌, ◌*◌, ◌/◌, ◌%◌, ◌^◌, ◌≤◌, ◌<◌, ◌≡◌, refl, sym, ap, ◌∙◌, ◌≢◌, ◌↔◌, ◌⊎◌, inl,
  inr, Bool, true, false, not, ◌&&◌, ◌||◌, Option, none, some, List, [], ◌∷◌, ◌++◌, map,
  append_assoc, append-nil, arith, ltb, leb, ◌==◌, if◌then◌else◌, ltb→lt, lt→ltb, leb→le, ==_iff,
  ==-refl, Bool-cases, Option-cases, every, every_at, length, get_elem?, set, take, drop,
  length-append, length-take, length-drop, take-append-drop, drop-append, take-append, All, ℤ, pos,
  negsuc, pos_part, neg_part, sub_ℕ, ◌+ℤ◌, ◌-ℤ◌, ◌*ℤ◌, ◌≤ℤ◌, leb_ℤ, ltb_ℤ, ◌==ℤ◌, ==ℤ_iff, ==ℤ-refl,
  drop-nil, take-nil, pred_pos, pred_negsuc, suc-ne-zero, take_all, drop_all, succ_pos, sub_pos,
  drop-drop, or-eq-false, ==ℤ-sym, or_right, clash,
}

-- The digit that `%02x` prints.
abbrev pub hex_digit : ℕ → ℕ
hex_digit n = if ltb n 10 then 0x30 + n else 0x61 + (n - 10)

unfoldable pub raw_bytes_to_binary : List ℕ → List ℕ
raw_bytes_to_binary [] = []
raw_bytes_to_binary (c ∷ buffer) =
    let rest = raw_bytes_to_binary buffer in
    if leb 32 c && ltb c 126
    then c ∷ rest
    else b'~' ∷ hex_digit (c / 16) ∷ hex_digit (c % 16) ∷ rest

-- One round of the inner loop: the digit behind `cc`, which is a char and so drops what is above it.
-- `none` is the return of 0. The terminator is no digit, so the loop does not run past it.
abbrev pub hex_value : ℕ → ℕ → Option ℕ
hex_value cc byte =
    let c = bit_or byte 0x20 in
    if leb 0x30 c && leb c 0x39
    then some ((cc * 16 + (c - 0x30)) % 0x100)
    else if leb 0x61 c && leb c 0x66
    then some ((cc * 16 + (c - 0x61 + 10)) % 0x100)
    else none

abbrev pub and_then {ℓ κ} : {A : Type ℓ} {B : Type κ} → Option A → (A → Option B) → Option B
and_then none f = none
and_then (some a) f = f a

unfoldable pub binary_to_raw_bytes : List ℕ → Option (List ℕ)
binary_to_raw_bytes [] = some []
binary_to_raw_bytes (c ∷ []) = if c == b'~' then none else some (c ∷ [])
binary_to_raw_bytes (c ∷ h ∷ []) =
    let rest = binary_to_raw_bytes (h ∷ []) in
    if c == b'~' then none else and_then rest (λ r. some (c ∷ r))
binary_to_raw_bytes (c ∷ h ∷ l ∷ ptr) =
    let rest = binary_to_raw_bytes (h ∷ l ∷ ptr) in
    let behind = binary_to_raw_bytes ptr in
    if c == b'~'
    then and_then (hex_value 0 h)
        (λ hi. and_then (hex_value hi l) (λ cc. and_then behind (λ r. some (cc ∷ r))))
    else and_then rest (λ r. some (c ∷ r))
