-- ===== src/Lists/Text.antt =====
-- The string operations of list.c that count characters: substr, strget and strrangeset.
use wp_lambdamoo.Prelude.{
  ℕ, zero, suc, ◌+◌, ◌-◌, ◌≤◌, ◌<◌, ◌≡◌, sym, ap, ◌∙◌, true, false, some, List, [], ◌∷◌, ◌++◌,
  append-nil, arith, if◌then◌else◌, length, get_elem?, take, drop, drop-append, take-append, All, ℤ,
  pos, negsuc, ◌+ℤ◌, ◌-ℤ◌, ltb_ℤ, drop_all, succ_pos, sub_pos, drop-drop,
}
use wp_lambdamoo.Utf.{deref, skip_utf, clearance_utf}
use wp_lambdamoo.Lists.Copy.{get_elem?-drop}
use wp_lambdamoo.Utf.Text.{
  encode_cons, IsChar, utf8, encode, encode-append, encode-take-drop, skip_utf-encode,
  skip_utf_negative, clearance-utf8,
}

-- The bytes `s[from]` to `s[to - 1]`.
abbrev pub bytes : List ℕ → ℕ → ℕ → List ℕ
bytes s from to = take (to - from) (drop from s)

unfoldable pub strrangeset : List ℕ → ℤ → ℤ → List ℕ → List ℕ
strrangeset base from to value =
    let charsleft = if ltb_ℤ (pos 1) from then from -ℤ pos 1 else pos 0 in
    let lenleft = skip_utf base charsleft in
    let indright = lenleft + skip_utf (drop lenleft base) (to -ℤ from +ℤ pos 1) in
    take lenleft base ++ (value ++ drop indright base)

unfoldable pub substr : List ℕ → ℤ → ℤ → List ℕ
substr s lower upper =
    if ltb_ℤ upper lower
    then []
    else (let lower_ind = skip_utf s (lower -ℤ pos 1) in
        let upper_ind = lower_ind + skip_utf (drop lower_ind s) (upper +ℤ pos 1 -ℤ lower) in
        bytes s lower_ind upper_ind)

unfoldable pub strget : List ℕ → ℤ → List ℕ
strget s i =
    let ind = skip_utf s (i -ℤ pos 1) in take (clearance_utf (deref (drop ind s))) (drop ind s)

All-take {ℓ κ} : {A : Type ℓ} (P : A → Type κ) (n : ℕ) (xs : List A) → All P xs → All P (take n xs)
All-take P zero xs h = tt
All-take P (suc n) [] h = tt
All-take P (suc n) (x ∷ xs) h = (h.0, All-take P n xs h.1)

All-drop {ℓ κ} : {A : Type ℓ} (P : A → Type κ) (n : ℕ) (xs : List A) → All P xs → All P (drop n xs)
All-drop P zero xs h = h
All-drop P (suc n) [] h = tt
All-drop P (suc n) (x ∷ xs) h = All-drop P n xs h.1

-- The bytes of the first `n` characters, and the bytes behind them.
drop_encoded :
    (n : ℕ) (vs : List ℕ) → drop (length (encode (take n vs))) (encode vs) ≡ encode (drop n vs)
drop_encoded n vs =
    ap (drop (length (encode (take n vs)))) (sym (encode-take-drop n vs))
    ∙ drop-append (encode (take n vs)) (encode (drop n vs))

take_encoded :
    (n : ℕ) (vs : List ℕ) → take (length (encode (take n vs))) (encode vs) ≡ encode (take n vs)
take_encoded n vs =
    ap (take (length (encode (take n vs)))) (sym (encode-take-drop n vs))
    ∙ take-append (encode (take n vs)) (encode (drop n vs))

plus_minus : (a b : ℕ) → a + b - a ≡ b
plus_minus a b = omega arith

-- substr on a text of characters is the segment of characters `lower` to `upper`.
pub substr_characters :
    (vs : List ℕ) (lower upper : ℕ)
    → All IsChar vs
    → lower ≤ upper
    → substr (encode vs) (pos (suc lower)) (pos (suc upper))
      ≡ encode (take (suc (upper - lower)) (drop lower vs))
unfolding substr
substr_characters vs lower upper h le =
    let e : ltb_ℤ (pos (suc upper)) (pos (suc lower)) ≡ false = ground arith in
    let n : suc (suc upper) - suc lower ≡ suc (upper - lower) = omega arith in
    let a : suc lower - 1 ≡ lower = omega arith in
    rw (
      e,
      sub_pos (suc lower) 1 (omega arith),
      a,
      succ_pos (suc upper),
      sub_pos (suc (suc upper)) (suc lower) (omega arith),
      n,
      skip_utf-encode vs lower h,
      drop_encoded lower vs,
      skip_utf-encode (drop lower vs) (suc (upper - lower)) (All-drop IsChar lower vs h),
      plus_minus (length (encode (take lower vs))),
      take_encoded (suc (upper - lower)) (drop lower vs),
    )

-- strget gives the character at an index of the text, whole.
pub strget_character :
    (vs : List ℕ) (k : ℕ)
    → All IsChar vs
    → k < length vs
    → (v : ℕ) × (get_elem? vs k ≡ some v) × (strget (encode vs) (pos (suc k)) ≡ utf8 v)
unfolding strget
strget_character vs k h lt =
    let (v, at, split) = get_elem?-drop vs k lt in
    let c : IsChar v = (rw split at (All-drop IsChar k vs h)).0 in
    let a : suc k - 1 ≡ k = omega arith in
    (
      v,
      at,
      rw (
        sub_pos (suc k) 1 (omega arith),
        a,
        skip_utf-encode vs k h,
        drop_encoded k vs,
        split,
        encode_cons v (drop (suc k) vs),
        (clearance-utf8 v (encode (drop (suc k) vs)) c).0,
        take-append (utf8 v) (encode (drop (suc k) vs)),
      ),
    )

-- The part of `strrangeset` that does not depend on the end of the range.
strrangeset_left :
    (vs : List ℕ) (f : ℕ)
    → All IsChar vs
    → skip_utf (encode vs) (if ltb_ℤ (pos 1) (pos (suc f)) then pos (suc f) -ℤ pos 1 else pos 0)
      ≡ length (encode (take f vs))
strrangeset_left vs zero h = skip_utf-encode vs 0 h
strrangeset_left vs (suc f) h =
    let e : ltb_ℤ (pos 1) (pos (suc (suc f))) ≡ true = ground arith in
    let a : suc (suc f) - 1 ≡ suc f = omega arith in
    rw (e, sub_pos (suc (suc f)) 1 (omega arith), a) (skip_utf-encode vs (suc f) h)

gap_forward : (t f : ℕ) → f ≤ t → pos t -ℤ pos (suc f) +ℤ pos 1 ≡ pos (t - f)
unfolding ◌-ℤ◌ ◌+ℤ◌
gap_forward t f h = ground arith

gap_backward : (t f : ℕ) → t < f → pos t -ℤ pos (suc f) +ℤ pos 1 ≡ negsuc (f - t - 1)
unfolding ◌-ℤ◌ ◌+ℤ◌
gap_backward t f h = ground arith

-- On a text of characters strrangeset of a range that starts at 1 or later and ends no earlier than in
-- front of its start keeps the characters in front of `from` and behind `to`.
pub strrangeset_characters :
    (vs ws : List ℕ) (f t : ℕ)
    → All IsChar vs
    → f ≤ t
    → strrangeset (encode vs) (pos (suc f)) (pos t) (encode ws)
      ≡ encode (take f vs ++ (ws ++ drop t vs))
unfolding strrangeset
strrangeset_characters vs ws f t h le =
    let whole : f + (t - f) ≡ t = omega arith in
    rw (
      strrangeset_left vs f h,
      take_encoded f vs,
      drop_encoded f vs,
      gap_forward t f le,
      skip_utf-encode (drop f vs) (t - f) (All-drop IsChar f vs h),
      ← drop-drop (length (encode (take f vs))) (length (encode (take (t - f) (drop f vs))))
          (encode vs),
      drop_encoded f vs,
      drop_encoded (t - f) (drop f vs),
      drop-drop f (t - f) vs,
      whole,
      encode-append (take f vs) (ws ++ drop t vs),
      encode-append ws (drop t vs),
    )

-- A range that ends further in front of its start: strrangeset drops everything behind `from`.
pub strrangeset_drops :
    (vs ws : List ℕ) (f t : ℕ)
    → All IsChar vs
    → t < f
    → strrangeset (encode vs) (pos (suc f)) (pos t) (encode ws) ≡ encode (take f vs ++ ws)
unfolding strrangeset
strrangeset_drops vs ws f t h lt = rw (
  strrangeset_left vs f h,
  take_encoded f vs,
  drop_encoded f vs,
  gap_backward t f lt,
  skip_utf_negative (drop f vs) (f - t - 1) (All-drop IsChar f vs h),
  ← drop-drop (length (encode (take f vs))) (length (encode (drop f vs))) (encode vs),
  drop_encoded f vs,
  drop_all (encode (drop f vs)),
  append-nil,
  encode-append (take f vs) ws,
)
