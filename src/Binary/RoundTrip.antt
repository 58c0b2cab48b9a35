-- ===== src/Binary/RoundTrip.antt =====
-- What raw_bytes_to_binary and binary_to_raw_bytes of utils.c do to each other's results.
use Prim.Native.Nat.{bit_or}
use wp_lambdamoo.Prelude.{
  ℕ, ◌+◌, ◌*◌, ◌/◌, ◌%◌, ◌≤◌, ◌<◌, ◌≡◌, refl, ap, inl, inr, true, false, ◌&&◌, some, List, [], ◌∷◌,
  arith, ltb, leb, ◌==◌, ==_iff, Bool-cases, every, every_at, All,
}
use wp_lambdamoo.Binary.{hex_digit, hex_value, and_then, raw_bytes_to_binary, binary_to_raw_bytes}

-- Both digits of a byte, read back.
digit_table : every (λ n. bit_or (hex_digit n) 0x20 == hex_digit n) 16 ≡ true
unfolding every
digit_table = refl

digit_or : (n : ℕ) → n < 16 → bit_or (hex_digit n) 0x20 ≡ hex_digit n
digit_or n h = (==_iff _ _).0 (every_at _ 16 digit_table n h)

hex_value-hex_digit :
    (cc n : ℕ) → cc < 16 → n < 16 → hex_value cc (hex_digit n) ≡ some (cc * 16 + n)
hex_value-hex_digit cc n hc hn = rw (digit_or n hn) (ground arith)

-- A byte's form reads back in front of anything.
read_escape :
    (c : ℕ) (ptr : List ℕ)
    → c < 0x100
    → binary_to_raw_bytes (b'~' ∷ hex_digit (c / 16) ∷ hex_digit (c % 16) ∷ ptr)
      ≡ and_then (binary_to_raw_bytes ptr) (λ r. some (c ∷ r))
unfolding binary_to_raw_bytes
read_escape c ptr h =
    rw
      (
        hex_value-hex_digit 0 (c / 16) (omega arith) (omega arith),
        hex_value-hex_digit (0 * 16 + c / 16) (c % 16) (omega arith) (omega arith),
      )
      (ap (λ b. and_then (binary_to_raw_bytes ptr) (λ r. some (b ∷ r))) (omega arith))

plain : (c : ℕ) → c < 126 → (c == b'~') ≡ false
plain c h = ground arith

read_plain :
    (c : ℕ) (ptr : List ℕ)
    → c < 126
    → binary_to_raw_bytes (c ∷ ptr) ≡ and_then (binary_to_raw_bytes ptr) (λ r. some (c ∷ r))
unfolding binary_to_raw_bytes
read_plain c [] h = ground arith
read_plain c (d ∷ []) h = rw (plain c h)
read_plain c (d ∷ e ∷ ptr) h = rw (plain c h)

-- Every buffer of bytes reads back.
pub binary_to_raw_bytes-raw_bytes_to_binary :
    (buffer : List ℕ)
    → All (λ c. c < 0x100) buffer
    → binary_to_raw_bytes (raw_bytes_to_binary buffer) ≡ some buffer
unfolding raw_bytes_to_binary
binary_to_raw_bytes-raw_bytes_to_binary [] h = unfold binary_to_raw_bytes in refl
binary_to_raw_bytes-raw_bytes_to_binary (c ∷ buffer) (hc, h) =
    let ih = binary_to_raw_bytes-raw_bytes_to_binary buffer h in
    elim (Bool-cases (leb 32 c && ltb c 126)) [
      | inl printable ↦ rw (printable, read_plain c (raw_bytes_to_binary buffer) (ground arith), ih)
      | inr other ↦ rw (other, read_escape c (raw_bytes_to_binary buffer) hc, ih)
    ]

digit_printable : (n : ℕ) → n < 16 → (32 ≤ hex_digit n) × (hex_digit n ≤ 126)
digit_printable n h = ground arith

-- The form has printable ASCII characters alone, so it is a C string without line ends.
pub raw_bytes_to_binary_printable :
    (buffer : List ℕ)
    → All (λ c. c < 0x100) buffer
    → All (λ c. (32 ≤ c) × (c ≤ 126)) (raw_bytes_to_binary buffer)
unfolding raw_bytes_to_binary
raw_bytes_to_binary_printable [] h = tt
raw_bytes_to_binary_printable (c ∷ buffer) (hc, h) =
    let ih = raw_bytes_to_binary_printable buffer h in
    elim (Bool-cases (leb 32 c && ltb c 126)) [
      | inl printable ↦ rw printable ((ground arith, ih))
      | inr other ↦ rw other (
          (
            omega arith,
            (digit_printable (c / 16) (omega arith), (digit_printable (c % 16) (omega arith), ih)),
          ))
    ]
