-- ===== src/Binary/Tests.antt =====
-- Runs of the printable form of bytes, and the theorems at one buffer.
use wp_lambdamoo.Prelude.{ℕ, ◌≡◌, refl, none, some, List, [], ◌∷◌, arith}
use wp_lambdamoo.Binary.{raw_bytes_to_binary, binary_to_raw_bytes}
use wp_lambdamoo.Binary.RoundTrip.{binary_to_raw_bytes-raw_bytes_to_binary}

abbrev packet : List ℕ
packet = 0x41 ∷ 0x7e ∷ 0xff ∷ 0x0a ∷ []

form :
    raw_bytes_to_binary packet
    ≡ 0x41 ∷ b'~' ∷ 0x37 ∷ 0x65 ∷ b'~' ∷ 0x66 ∷ 0x66 ∷ b'~' ∷ 0x30 ∷ 0x61 ∷ []
unfolding raw_bytes_to_binary
form = refl

-- A tilde at the end, and a tilde in front of control characters that `| 0x20` makes digits.
cut_off : binary_to_raw_bytes (b'~' ∷ []) ≡ none
unfolding binary_to_raw_bytes
cut_off = refl

controls : binary_to_raw_bytes (b'~' ∷ 0x11 ∷ 0x12 ∷ []) ≡ some (0x12 ∷ [])
unfolding binary_to_raw_bytes
controls = refl

binary_to_raw_bytes-raw_bytes_to_binary_example :
    binary_to_raw_bytes (raw_bytes_to_binary packet) ≡ some packet
binary_to_raw_bytes-raw_bytes_to_binary_example =
    binary_to_raw_bytes-raw_bytes_to_binary packet (omega arith)
