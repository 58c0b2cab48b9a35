-- ===== src/Strings/Fold.antt =====
-- What the comparisons without case, the hash and the verb names have in common: they see a string
-- only through `cmap`.
use mathlib.Core.Bool.{and-eq-true_iff}
use mathlib.Core.Path.{ap₂}
use wp_lambdamoo.Prelude.{
  ℕ, ◌+◌, ◌-◌, ◌*◌, ◌/◌, ◌%◌, ◌^◌, ◌<◌, ◌≡◌, refl, ap, ◌↔◌, inl, inr, true, false, ◌&&◌, List, [],
  ◌∷◌, map, arith, ltb, ◌==◌, if◌then◌else◌, ==_iff, Bool-cases, All, pos, ◌-ℤ◌, ◌==ℤ◌,
}
use wp_lambdamoo.Strings.{
  cmap, signed_char, mystrcasecmp, strcasecmp_eq, hash_step, str_hash_loop, str_hash,
}

-- The bytes of a C string: none is the terminator.
abbrev pub IsText : List ℕ → Type 0
IsText = All (λ c. (0 < c) × (c < 0x100))

abbrev pub fold : List ℕ → List ℕ
fold = map cmap

-- Bytes that differ under `cmap` give a difference that is not 0.
differ :
    (a b : ℕ)
    → a < 0x100
    → b < 0x100
    → (cmap a == cmap b) ≡ false
    → (signed_char (cmap a) -ℤ signed_char (cmap b) ==ℤ pos 0) ≡ false
unfolding ◌-ℤ◌
differ a b ha hb h = ground arith

strcasecmp_step :
    (a b : ℕ) (s t : List ℕ)
    → (0 < a) × (a < 0x100)
    → (0 < b) × (b < 0x100)
    → strcasecmp_eq (a ∷ s) (b ∷ t) ≡ (cmap a == cmap b) && strcasecmp_eq s t
unfolding mystrcasecmp
strcasecmp_step a b s t ha hb = elim (Bool-cases (cmap a == cmap b)) [
  | inl same ↦ let a_ne : (a == 0) ≡ false = ground arith in rw (same, a_ne)
  | inr other ↦ rw other (differ a b ha.1 hb.1 other)
]

-- mystrcasecmp returns 0 exactly on strings that are equal up to the case of ASCII letters.
pub strcasecmp_eq_iff :
    (s t : List ℕ) → IsText s → IsText t → (strcasecmp_eq s t ≡ true) ↔ (fold s ≡ fold t)
strcasecmp_eq_iff [] [] hs ht = (λ _. refl, λ _. unfold mystrcasecmp in refl)
strcasecmp_eq_iff [] (b ∷ t) hs ht =
    (λ e. unfold mystrcasecmp in ground (arith, differ 0 b), λ e. cc)
strcasecmp_eq_iff (a ∷ s) [] hs ht =
    (λ e. unfold mystrcasecmp in ground (arith, differ a 0), λ e. cc)
strcasecmp_eq_iff (a ∷ s) (b ∷ t) hs ht =
    let (to, from) = strcasecmp_eq_iff s t hs.1 ht.1 in
    (
      λ e.
          let (same, rest) =
            (and-eq-true_iff _ _).0 (rw (strcasecmp_step a b s t hs.0 ht.0) at e) in
          ap₂ (λ c r. c ∷ r) ((==_iff (cmap a) (cmap b)).0 same) (to rest),
      λ e.
          rw (strcasecmp_step a b s t hs.0 ht.0)
            ((and-eq-true_iff _ _).1 ((==_iff (cmap a) (cmap b)).1 (cc), from (cc))),
    )

pub strcasecmp_eq_refl : (s : List ℕ) → IsText s → strcasecmp_eq s s ≡ true
strcasecmp_eq_refl s h = (strcasecmp_eq_iff s s h h).1 refl

-- The hash reads a string through `cmap` alone.
hash_step_fold : (ans a b : ℕ) → cmap a ≡ cmap b → hash_step ans a ≡ hash_step ans b
hash_step_fold ans a b e =
    ap
      (λ (c : ℕ).
        (ans * 8 % 2 ^ 32 + ans / 2 ^ 28 + (if ltb c 0x80 then c else 2 ^ 32 - 0x100 + c)) % 2 ^ 32)
      e

str_hash_loop-fold :
    (s t : List ℕ) (ans : ℕ) → fold s ≡ fold t → str_hash_loop s ans ≡ str_hash_loop t ans
unfolding str_hash_loop
str_hash_loop-fold [] [] ans e = refl
str_hash_loop-fold [] (b ∷ t) ans e = cc
str_hash_loop-fold (a ∷ s) [] ans e = cc
str_hash_loop-fold (a ∷ s) (b ∷ t) ans e =
    rw (hash_step_fold ans a b (heads e)) (str_hash_loop-fold s t (hash_step ans b) (cc))
  where
    heads : fold (a ∷ s) ≡ fold (b ∷ t) → cmap a ≡ cmap b
    heads p = cc

-- Strings that mystrcasecmp takes for equal have one hash, so comparing the hashes first loses nothing.
pub str_hash_strcasecmp :
    (s t : List ℕ) → IsText s → IsText t → strcasecmp_eq s t ≡ true → str_hash s ≡ str_hash t
unfolding str_hash
str_hash_strcasecmp s t hs ht e = str_hash_loop-fold s t 0 ((strcasecmp_eq_iff s t hs ht).0 e)

str_hash_loop-lt : (s : List ℕ) (ans : ℕ) → ans < 2 ^ 32 → str_hash_loop s ans < 2 ^ 32
unfolding str_hash_loop
str_hash_loop-lt [] ans h = h
str_hash_loop-lt (c ∷ s) ans h = str_hash_loop-lt s (hash_step ans c) (omega arith)

-- str_hash is an unsigned 32-bit number.
pub str_hash-lt : (s : List ℕ) → str_hash s < 2 ^ 32
unfolding str_hash
str_hash-lt s = str_hash_loop-lt s 0 (omega arith)
