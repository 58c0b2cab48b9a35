-- ===== src/Strings/Rounds.antt =====
-- The rounds of verbcasecmp in utils.c: each leaves a shorter string.
use wp_lambdamoo.Prelude.{
  ℕ, zero, suc, ◌+◌, ◌≤◌, ◌≡◌, refl, inl, inr, true, false, not, ◌||◌, List, [], ◌∷◌, arith, ◌==◌,
  if◌then◌else◌, Bool-cases, length, drop,
}
use wp_lambdamoo.Utf.{deref}
use wp_lambdamoo.Strings.{
  at_end, Star, no_star, inner, end, skip_stars, match_name, skip_name, skip_spaces,
  verbcasecmp_loop, verbcasecmp, cmap,
}

skip_stars-length : (v : List ℕ) (star : Star) → length (skip_stars v star).0 ≤ length v
unfolding skip_stars
skip_stars-length [] star = omega arith
skip_stars-length (c ∷ v) star =
    let ih = skip_stars-length v (if at_end v then end else inner) in
    elim (Bool-cases (c == b'*')) [
      | inl star' ↦ rw star' (omega arith)
      | inr other ↦ rw other (omega arith)
    ]

drop_one-length : (v : List ℕ) → length (drop 1 v) ≤ length v
drop_one-length [] = omega arith
drop_one-length (c ∷ v) = omega arith

match_name-length : (v w : List ℕ) (star : Star) → length (match_name v w star).v ≤ length v
unfolding match_name
match_name-length v [] star = skip_stars-length v star
match_name-length v (c ∷ w) star =
    let v' = (skip_stars v star).0 in
    let ih = match_name-length (drop 1 v') w (skip_stars v star).1 in
    let h = skip_stars-length v star in
    let h' = drop_one-length v' in
    elim (Bool-cases (at_end v' || (c == 0) || not (cmap c == cmap (deref v')))) [
      | inl stop ↦ rw stop h
      | inr more ↦ rw more (omega arith)
    ]

skip_name-length : (v : List ℕ) → length (skip_name v) ≤ length v
unfolding skip_name
skip_name-length [] = omega arith
skip_name-length (c ∷ v) = let ih = skip_name-length v in ground arith

pub skip_spaces-length : (v : List ℕ) → length (skip_spaces v) ≤ length v
unfolding skip_spaces
skip_spaces-length [] = omega arith
skip_spaces-length (c ∷ v) = let ih = skip_spaces-length v in ground arith

skip_space-shorter :
    (c : ℕ) (v : List ℕ) (n : ℕ)
    → (c == b' ') ≡ true
    → length (c ∷ v) ≤ suc n
    → length (skip_spaces (c ∷ v)) ≤ n
unfolding skip_spaces
skip_space-shorter c v n e h = let ih = skip_spaces-length v in rw e (omega arith)

skip-shorter : (v : List ℕ) (n : ℕ) → length v ≤ suc n → length (skip_spaces (skip_name v)) ≤ n
unfolding skip_name
skip-shorter [] n h = unfold skip_spaces in (omega arith)
skip-shorter (c ∷ v) n h = elim (Bool-cases (c == b' ')) [
  | inl space ↦ rw space (skip_space-shorter c v n space h)
  | inr other ↦
      let h₁ = skip_name-length v in
      let h₂ = skip_spaces-length (skip_name v) in rw other (omega arith)
]

loop-stable :
    (fuel fuel' : ℕ) (v word : List ℕ)
    → length v ≤ fuel
    → length v ≤ fuel'
    → verbcasecmp_loop fuel v word ≡ verbcasecmp_loop fuel' v word
unfolding verbcasecmp_loop
loop-stable zero zero v word h h' = refl
loop-stable zero (suc fuel') [] word h h' = refl
loop-stable zero (suc fuel') (c ∷ v) word h h' = elim h [ ]
loop-stable (suc fuel) zero [] word h h' = refl
loop-stable (suc fuel) zero (c ∷ v) word h h' = elim h' [ ]
loop-stable (suc fuel) (suc fuel') v word h h' =
    let le = match_name-length v word no_star in
    let rest = (match_name v word no_star).v in
    rw (
      loop-stable fuel fuel' (skip_spaces (skip_name (match_name v word no_star).v)) word
        (skip-shorter (match_name v word no_star).v fuel (omega arith))
        (skip-shorter (match_name v word no_star).v fuel' (omega arith)))

-- The rounds that verbcasecmp is given are enough: with any number more, the answer is the same.
pub verbcasecmp_rounds :
    (verb word : List ℕ) (more : ℕ)
    → verbcasecmp false verb word ≡ verbcasecmp_loop (length verb + more) verb word
unfolding verbcasecmp
verbcasecmp_rounds verb word more =
    loop-stable (length verb) (length verb + more) verb word (omega arith) (omega arith)
