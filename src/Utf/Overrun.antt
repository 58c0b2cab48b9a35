-- ===== src/Utf/Overrun.antt =====
-- The client reader beside the string reader.
use native.Mathlib.Decide.{dec_le}
use wp_lambdamoo.Prelude.{
  ℕ, ◌+◌, ◌-◌, ◌*◌, ◌≤◌, ◌<◌, ◌≡◌, refl, ◌∙◌, ◌≢◌, ◌⊎◌, some, List, ◌∷◌, ◌++◌, arith, pos,
}
use wp_lambdamoo.Utf.{get_utf, put_utf, invalid_rune, low_bits, shr}
use wp_lambdamoo.Utf.Bytes.{put_utf_one, put_utf_two, put_utf_three, put_utf_four, put_utf_scalar}
use wp_lambdamoo.Utf.Client.{Call, eof, cont, get_cont, dispatch, get_utf_call}

-- A continuation byte adds its six bits.
get_cont_step :
    (v x : ℕ) (p : List ℕ) → x < 64 → get_cont (pos v) ((0x80 + x) ∷ p) ≡ cont (pos (v * 64 + x)) p
unfolding get_cont
get_cont_step v x p h = ground arith

-- An ASCII byte passes the test too, and is subtracted.
get_cont_ascii :
    (v b : ℕ) (p : List ℕ)
    → b < 0x80
    → 0x80 ≤ v * 64 + b
    → get_cont (pos v) (b ∷ p) ≡ cont (pos (v * 64 + b - 0x80)) p
unfolding get_cont
get_cont_ascii v b p h h' = ground arith

-- The call with its `get_cont` shut.
get_utf_call_start : (c : ℕ) (p : List ℕ) → get_utf_call (c ∷ p) eof ≡ dispatch c p
unfolding get_utf_call
get_utf_call_start c p = refl

abbrev read : ℕ → List ℕ → Call
read v p = record { value = pos v; state = eof; rest = p }

dispatch1 : (c : ℕ) (p : List ℕ) → c ≤ 0x7f → dispatch c p ≡ read c p
dispatch1 c p h = ground arith

dispatch2 :
    (v x y : ℕ) (p : List ℕ)
    → x < 32
    → y < 64
    → x * 64 + y ≡ v
    → 0x7f < v
    → dispatch (0xc0 + x) ((0x80 + y) ∷ p) ≡ read v p
dispatch2 v x y p hx hy e h =
    let bits : low_bits (0xc0 + x) 5 ≡ x = omega arith in
    rw (bits, get_cont_step x y p hy, e) (ground arith)

dispatch3 :
    (v x y z : ℕ) (p : List ℕ)
    → x < 16
    → y < 64
    → z < 64
    → (x * 64 + y) * 64 + z ≡ v
    → 0x7ff < v
    → ((v < 0xd800) ⊎ (0xdfff < v))
    → dispatch (0xe0 + x) ((0x80 + y) ∷ (0x80 + z) ∷ p) ≡ read v p
dispatch3 v x y z p hx hy hz e h s =
    let bits : low_bits (0xe0 + x) 4 ≡ x = omega arith in
    rw (bits, get_cont_step x y ((0x80 + z) ∷ p) hy, get_cont_step (x * 64 + y) z p hz, e)
      (ground arith)

dispatch4 :
    (v x y z t : ℕ) (p : List ℕ)
    → x < 8
    → y < 64
    → z < 64
    → t < 64
    → ((x * 64 + y) * 64 + z) * 64 + t ≡ v
    → 0xffff < v
    → v ≤ 0x10ffff
    → dispatch (0xf0 + x) ((0x80 + y) ∷ (0x80 + z) ∷ (0x80 + t) ∷ p) ≡ read v p
dispatch4 v x y z t p hx hy hz ht e h h' =
    let bits : low_bits (0xf0 + x) 3 ≡ x = omega arith in
    rw
      (
        bits,
        get_cont_step x y ((0x80 + z) ∷ (0x80 + t) ∷ p) hy,
        get_cont_step (x * 64 + y) z ((0x80 + t) ∷ p) hz,
        get_cont_step ((x * 64 + y) * 64 + z) t p ht,
        e,
      )
      (ground arith)

-- Where the bytes are known and dispatched, they are read.
call_of :
    (v c : ℕ) (bs p rest : List ℕ)
    → put_utf v ≡ some bs
    → put_utf v ≡ some (c ∷ p)
    → dispatch c (p ++ rest) ≡ read v rest
    → get_utf_call (bs ++ rest) eof ≡ read v rest
call_of v c bs p rest h e d =
    let same : bs ≡ c ∷ p = cc in rw same (get_utf_call_start c (p ++ rest) ∙ d)

-- What `put_utf` wrote is read back from a client too, and nothing is left in `state`.
pub get_utf_call-put_utf :
    (v : ℕ) (bs rest : List ℕ)
    → put_utf v ≡ some bs
    → get_utf_call (bs ++ rest) eof ≡ record { value = pos v; state = eof; rest = rest }
get_utf_call-put_utf v bs rest h =
    let (top, range) = put_utf_scalar v bs h in
    elim (dec_le v 0x7f) [
      | yes a ↦ call_of v _ bs _ rest h (put_utf_one v a) (dispatch1 v rest a)
      | no a ↦ elim (dec_le v 0x7ff) [
        | yes b ↦ call_of v _ bs _ rest h (put_utf_two v (omega arith) b) (
            dispatch2 v (shr v 6) (low_bits v 6) rest (omega arith) (omega arith) (omega arith)
              (omega arith))
        | no b ↦ elim (dec_le v 0xffff) [
          | yes c ↦ call_of v _ bs _ rest h (put_utf_three v (omega arith) c range) (
              dispatch3 v (shr v 12) (low_bits (shr v 6) 6) (low_bits v 6) rest (omega arith)
                (omega arith) (omega arith) (omega arith) (omega arith) range)
          | no c ↦ call_of v _ bs _ rest h (put_utf_four v (omega arith) top) (
              dispatch4 v (shr v 18) (low_bits (shr v 12) 6) (low_bits (shr v 6) 6) (low_bits v 6)
                rest (omega arith) (omega arith) (omega arith) (omega arith) (omega arith)
                (omega arith) top)
        ]
      ]
    ]

-- A lead byte 0xc4 to 0xdf with an ASCII byte behind it: the string reader reports an invalid
-- character and stops before the ASCII byte; the client reader swallows that byte, leaves `state`
-- empty and returns a character that is not the replacement character.
pub get_utf_call_swallows :
    (a b : ℕ) (p : List ℕ)
    → 0xc4 ≤ a
    → a ≤ 0xdf
    → b ≤ 0x7f
    → (get_utf (a ∷ b ∷ p) ≡ (invalid_rune, b ∷ p))
      × (get_utf_call (a ∷ b ∷ p) eof
          ≡ record { value = pos ((a - 0xc0) * 64 + b - 0x80); state = eof; rest = p })
      × ((a - 0xc0) * 64 + b - 0x80 ≢ invalid_rune)
unfolding get_utf
get_utf_call_swallows a b p h h' hb =
    let e : low_bits a 5 ≡ a - 0xc0 = omega arith in
    (
      ground arith,
      rw (get_utf_call_start, e, get_cont_ascii (a - 0xc0) b p (omega arith) (omega arith))
          (ground arith),
      omega arith,
    )
