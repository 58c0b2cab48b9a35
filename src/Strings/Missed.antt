-- ===== src/Strings/Missed.antt =====
-- utils.c: strrindex on characters of two bytes.
use wp_lambdamoo.Prelude.{
  ℕ, zero, suc, ◌-◌, ◌≤◌, ◌<◌, ◌≡◌, refl, true, false, List, [], ◌∷◌, arith, ltb, length, drop, All,
  ℤ, pos, ◌-ℤ◌,
}
use wp_lambdamoo.Db.Outcomes.{ok}
use wp_lambdamoo.Strings.Search.{
  strncmp, is_at, back_up, is_continuation, strrindex, strrindex_loop, strindex, strindex_loop,
}

abbrev pub IsAscii : ℕ → Type 0
IsAscii c = (0 < c) × (c < 0x80)

head_at :
    (us : List ℕ) (i : ℕ)
    → All IsAscii us
    → i < length us
    → (u : ℕ) × (rest : List ℕ) × (drop i us ≡ u ∷ rest) × (u < 0x80)
head_at [] i h k = absurd (omega arith)
head_at (u ∷ us) zero h k = (u, us, refl, h.0.1)
head_at (u ∷ us) (suc i) h k = head_at us i h.1 (omega arith)

-- The bytes of a character of two bytes.
module _ (lead cont : ℕ) (is_lead : (0xc0 ≤ lead) × (lead < 0xe0))
    (is_cont : (0x80 ≤ cont) × (cont < 0xc0)) where
  other_byte : (c : ℕ) (s : List ℕ) → c < 0xc0 → is_at true (lead ∷ cont ∷ []) (c ∷ s) ≡ false
  unfolding strncmp ◌-ℤ◌
  other_byte c s h = ground arith

  loop_missed :
      (fuel i : ℕ) (us : List ℕ) (ind : ℤ)
      → All IsAscii us
      → i ≤ length us
      → i < fuel
      → strrindex_loop fuel true (lead ∷ cont ∷ []) (lead ∷ cont ∷ us) (suc (suc i)) ind
        ≡ ok (pos 0)
  unfolding strrindex_loop back_up
  loop_missed zero i us ind h le k = elim k [ ]
  loop_missed (suc fuel) zero us ind h le k =
      let is_c : is_continuation cont ≡ true = ground arith in
      let is_l : is_continuation lead ≡ false = ground arith in
      rw (other_byte cont us is_cont.1, is_c, is_l)
  loop_missed (suc fuel) (suc i) us ind h le k =
      let (u, rest, e, ascii_u) = head_at us i h (omega arith) in
      let low : is_continuation u ≡ false = ground arith in
      rw (e, other_byte u rest (omega arith), low)
        (loop_missed fuel i us (ind -ℤ pos 1) h (omega arith) (omega arith))

  starts : (us : List ℕ) → is_at true (lead ∷ cont ∷ []) (lead ∷ cont ∷ us) ≡ true
  unfolding strncmp ◌-ℤ◌
  starts us = ground arith

  long_enough :
      (a b : ℕ) (us : List ℕ)
      → ltb (length (lead ∷ cont ∷ a ∷ b ∷ us)) (length (lead ∷ cont ∷ [])) ≡ false
  long_enough a b us = ground arith

  last_place :
      (a b : ℕ) (us : List ℕ)
      → length (lead ∷ cont ∷ a ∷ b ∷ us) - length (lead ∷ cont ∷ []) ≡ suc (suc (length us))
  last_place a b us = omega arith

  back_ascii :
      (us : List ℕ) (i : ℕ)
      → All IsAscii us
      → i < length us
      → back_up (lead ∷ cont ∷ us) (suc (suc i)) ≡ ok (suc (suc i))
  unfolding back_up
  back_ascii us i h k =
      let (u, rest, e, ascii_u) = head_at us i h k in
      let low : is_continuation u ≡ false = ground arith in rw (e, low)

  strindex_starts :
      (a b : ℕ) (us : List ℕ) → strindex (lead ∷ cont ∷ a ∷ b ∷ us) (lead ∷ cont ∷ []) true ≡ ok 1
  unfolding strindex strindex_loop
  strindex_starts a b us = rw (long_enough a b us, starts (a ∷ b ∷ us))

  strrindex_passes :
      (a b : ℕ) (us : List ℕ)
      → All IsAscii (a ∷ b ∷ us)
      → strrindex (lead ∷ cont ∷ a ∷ b ∷ us) (lead ∷ cont ∷ []) true ≡ ok (pos 0)
  unfolding strrindex
  strrindex_passes a b us h =
      rw
        (long_enough a b us, last_place a b us, back_ascii (a ∷ b ∷ us) (length us) h (omega arith))
        (loop_missed (suc (length (lead ∷ cont ∷ a ∷ b ∷ us))) (suc (length us)) (a ∷ b ∷ us) _ h
          (omega arith) (omega arith))

  -- In front of at least two ASCII characters strrindex does not find a character of two bytes at the
  -- start of the source: it answers 0 where strindex answers 1.
  pub strrindex_missed :
      (a b : ℕ) (us : List ℕ)
      → All IsAscii (a ∷ b ∷ us)
      → (strindex (lead ∷ cont ∷ a ∷ b ∷ us) (lead ∷ cont ∷ []) true ≡ ok 1)
        × (strrindex (lead ∷ cont ∷ a ∷ b ∷ us) (lead ∷ cont ∷ []) true ≡ ok (pos 0))
  strrindex_missed a b us h = (strindex_starts a b us, strrindex_passes a b us h)
