-- ===== src/Utf/Text.antt =====
-- Strings as sequences of characters: what the counting and skipping routines do on valid UTF-8.
use wp_lambdamoo.Prelude.{
  ℕ, zero, suc, ◌+◌, ◌≤◌, ◌<◌, ◌≡◌, refl, ap, false, Option, none, some, List, [], ◌∷◌, ◌++◌,
  append_assoc, arith, ◌==◌, length, take, drop, length-append, take-append-drop, All, pos, negsuc,
  drop-nil, pred_pos, pred_negsuc, suc-ne-zero,
}
use wp_lambdamoo.Utf.{
  get_utf, put_utf, shr, deref, skip_rest, skip_utf, strlen_loop, strlen_utf, clearance_utf,
}
use wp_lambdamoo.Utf.Bytes.{or_c0, or_e0, or_f0}
use wp_lambdamoo.Utf.RoundTrip.{get_utf-put_utf}
use wp_lambdamoo.Utf.Canonical.{IsScalar}

-- A character of a C string: a scalar value other than the terminator.
abbrev pub IsChar : ℕ → Type 0
IsChar v = (0 < v) × IsScalar v

abbrev or_empty : Option (List ℕ) → List ℕ
or_empty none = []
or_empty (some bs) = bs

unfoldable pub utf8 : ℕ → List ℕ
utf8 v = or_empty (put_utf v)

unfoldable pub encode : List ℕ → List ℕ
encode [] = []
encode (v ∷ vs) = utf8 v ++ encode vs

pub encode_cons : (v : ℕ) (vs : List ℕ) → encode (v ∷ vs) ≡ utf8 v ++ encode vs
unfolding encode
encode_cons v vs = refl

pub put_utf-IsChar : (v : ℕ) → IsChar v → put_utf v ≡ some (utf8 v)
unfolding utf8 put_utf
put_utf-IsChar v h = ground arith

pub get_utf-utf8 : (v : ℕ) (rest : List ℕ) → IsChar v → get_utf (utf8 v ++ rest) ≡ (v, rest)
get_utf-utf8 v rest h = get_utf-put_utf v (utf8 v) rest (put_utf-IsChar v h)

-- A character takes one to four bytes, and its first byte says how many.
pub clearance-utf8 :
    (v : ℕ) (rest : List ℕ)
    → IsChar v
    → (clearance_utf (deref (utf8 v ++ rest)) ≡ length (utf8 v))
      × (1 ≤ length (utf8 v))
      × (length (utf8 v) ≤ 4)
      × (0 < deref (utf8 v ++ rest))
unfolding utf8 put_utf clearance_utf
clearance-utf8 v rest h = ground (arith, or_c0 (shr v 6), or_e0 (shr v 12), or_f0 (shr v 18))

pub encode-append : (vs ws : List ℕ) → encode (vs ++ ws) ≡ encode vs ++ encode ws
unfolding encode
encode-append [] ws = refl
encode-append (v ∷ vs) ws = simp (append_assoc, encode-append vs ws)

pub encode-take-drop : (n : ℕ) (vs : List ℕ) → encode (take n vs) ++ encode (drop n vs) ≡ encode vs
encode-take-drop n vs = rw (← encode-append, take-append-drop)

-- Each character of a text takes at least one byte.
pub size_facts : (v : ℕ) (vs : List ℕ) → IsChar v → length (encode vs) < length (encode (v ∷ vs))
unfolding encode
size_facts v vs h = omega (arith, clearance-utf8 v [] h, length-append (utf8 v) (encode vs))

deref-encode : (v : ℕ) (vs : List ℕ) → IsChar v → (deref (encode (v ∷ vs)) == 0) ≡ false
unfolding encode
deref-encode v vs h = ground (arith, clearance-utf8 v (encode vs) h)

pub get_utf-encode : (v : ℕ) (vs : List ℕ) → IsChar v → get_utf (encode (v ∷ vs)) ≡ (v, encode vs)
unfolding encode
get_utf-encode v vs h = get_utf-utf8 v (encode vs) h

-- With fuel for every byte the loop of `skip_utf` leaves the text behind its first `n` characters.
pub skip_rest-encode :
    (fuel : ℕ) (vs : List ℕ) (n : ℕ)
    → All IsChar vs
    → length (encode vs) ≤ fuel
    → skip_rest fuel (encode vs) (pos n) ≡ encode (drop n vs)
unfolding skip_rest
skip_rest-encode zero [] n h l = unfold encode in rw (drop-nil {0} {A = ℕ} n)
skip_rest-encode zero (v ∷ vs) n h l = absurd (omega (arith, size_facts v vs h.0))
skip_rest-encode (suc fuel) [] n h l = unfold encode in rw (drop-nil {0} {A = ℕ} n)
skip_rest-encode (suc fuel) (v ∷ vs) zero h l = ground arith
skip_rest-encode (suc fuel) (v ∷ vs) (suc n) h l =
    rw (deref-encode v vs h.0, get_utf-encode v vs h.0, suc-ne-zero n, pred_pos n)
      (skip_rest-encode fuel vs n h.1 (omega (arith, size_facts v vs h.0)))

-- A negative count is never counted down to 0: the loop stops at the terminator only.
pub skip_rest_negative :
    (fuel : ℕ) (vs : List ℕ) (n : ℕ)
    → All IsChar vs
    → length (encode vs) ≤ fuel
    → skip_rest fuel (encode vs) (negsuc n) ≡ []
unfolding skip_rest
skip_rest_negative zero [] n h l = unfold encode in refl
skip_rest_negative zero (v ∷ vs) n h l = absurd (omega (arith, size_facts v vs h.0))
skip_rest_negative (suc fuel) [] n h l = unfold encode in refl
skip_rest_negative (suc fuel) (v ∷ vs) n h l =
    rw (deref-encode v vs h.0, get_utf-encode v vs h.0, pred_negsuc n)
      (skip_rest_negative fuel vs (suc n) h.1 (omega (arith, size_facts v vs h.0)))

strlen_loop-encode :
    (fuel : ℕ) (vs : List ℕ) (i : ℕ)
    → All IsChar vs
    → length (encode vs) < fuel
    → strlen_loop fuel (encode vs) i ≡ i + length vs
unfolding strlen_loop
strlen_loop-encode zero vs i h l = elim l [ ]
strlen_loop-encode (suc fuel) [] i h l = unfold encode get_utf in omega arith
strlen_loop-encode (suc fuel) (v ∷ vs) i h l =
    ground
      (arith, get_utf-encode v vs h.0, size_facts v vs h.0, strlen_loop-encode fuel vs (i + 1) h.1)

-- On a text of characters `strlen_utf` counts the characters.
pub strlen_utf-encode : (vs : List ℕ) → All IsChar vs → strlen_utf (encode vs) ≡ length vs
unfolding strlen_utf
strlen_utf-encode vs h = omega (arith, strlen_loop-encode (suc (length (encode vs))) vs 0 h)

-- `skip_utf` gives the number of bytes of the first `n` characters, or of all if there are fewer.
pub skip_utf-encode :
    (vs : List ℕ) (n : ℕ)
    → All IsChar vs
    → skip_utf (encode vs) (pos n) ≡ length (encode (take n vs))
unfolding skip_utf
skip_utf-encode vs n h = omega (
  arith,
  ap length (skip_rest-encode (length (encode vs)) vs n h (omega arith)),
  ap length (encode-take-drop n vs),
  length-append (encode (take n vs)) (encode (drop n vs)),
)

-- With a negative count `skip_utf` skips the whole string.
pub skip_utf_negative :
    (vs : List ℕ) (n : ℕ) → All IsChar vs → skip_utf (encode vs) (negsuc n) ≡ length (encode vs)
unfolding skip_utf
skip_utf_negative vs n h =
    omega (arith, ap length (skip_rest_negative (length (encode vs)) vs n h (omega arith)))
