-- ===== src/Command/Rounds.antt =====
-- The rounds of parse_into_words in parse_cmd.c: each leaves a shorter input.
use wp_lambdamoo.Prelude.{
  ℕ, zero, suc, ◌+◌, ◌≤◌, ◌≡◌, refl, ap, inl, inr, Bool, true, false, not, ◌&&◌, List, [], ◌∷◌,
  arith, ◌==◌, Bool-cases, length,
}
use wp_lambdamoo.Strings.{skip_spaces}
use wp_lambdamoo.Strings.Rounds.{skip_spaces-length}
use wp_lambdamoo.Command.{scan_word, words_loop, parse_into_words}

scan_word-length : (q : Bool) (input : List ℕ) → length (scan_word q input).rest ≤ length input
unfolding scan_word
scan_word-length q [] = omega arith
scan_word-length q (c ∷ []) = ground arith
scan_word-length q (c ∷ d ∷ input) =
    let h₁ = scan_word-length (not q) (d ∷ input) in
    let h₂ = scan_word-length q input in let h₃ = scan_word-length q (d ∷ input) in ground arith

scan_word-space :
    (q : Bool) (c : ℕ) (input : List ℕ)
    → (not q && (c == b' ')) ≡ true
    → (scan_word q (c ∷ input)).rest ≡ c ∷ input
unfolding scan_word
scan_word-space q c [] e = rw e
scan_word-space q c (d ∷ input) e = rw e

scan_word-reads :
    (q : Bool) (c : ℕ) (input : List ℕ)
    → (not q && (c == b' ')) ≡ false
    → length (scan_word q (c ∷ input)).rest ≤ length input
unfolding scan_word
scan_word-reads q c [] e = ground arith
scan_word-reads q c (d ∷ input) e =
    let h₁ = scan_word-length (not q) (d ∷ input) in
    let h₂ = scan_word-length q input in let h₃ = scan_word-length q (d ∷ input) in ground arith

space-shorter :
    (c : ℕ) (input : List ℕ) → (c == b' ') ≡ true → length (skip_spaces (c ∷ input)) ≤ length input
unfolding skip_spaces
space-shorter c input e = rw e (skip_spaces-length input)

is_space : (q : Bool) (c : ℕ) → (not q && (c == b' ')) ≡ true → (c == b' ') ≡ true
is_space true c e = cc
is_space false c e = e

-- A round that starts with a space takes it off, and any other round reads a character.
round-shorter :
    (q : Bool) (c : ℕ) (input : List ℕ)
    → length (skip_spaces (scan_word q (c ∷ input)).rest) ≤ length input
round-shorter q c input = elim (Bool-cases (not q && (c == b' '))) [
  | inl space ↦ rw (scan_word-space q c input space) (space-shorter c input (is_space q c space))
  | inr reads ↦
      let h = skip_spaces-length (scan_word q (c ∷ input)).rest in
      let h' = scan_word-reads q c input reads in omega arith
]

words_loop-stable :
    (fuel fuel' : ℕ) (q : Bool) (input : List ℕ)
    → length input ≤ fuel
    → length input ≤ fuel'
    → words_loop fuel q input ≡ words_loop fuel' q input
unfolding words_loop
words_loop-stable zero zero q input h h' = refl
words_loop-stable zero (suc fuel') q [] h h' = refl
words_loop-stable zero (suc fuel') q (c ∷ input) h h' = elim h [ ]
words_loop-stable (suc fuel) zero q [] h h' = refl
words_loop-stable (suc fuel) zero q (c ∷ input) h h' = elim h' [ ]
words_loop-stable (suc fuel) (suc fuel') q [] h h' = refl
words_loop-stable (suc fuel) (suc fuel') q (c ∷ input) h h' =
    let shorter = round-shorter q c input in
    ap (λ z. (scan_word q (c ∷ input)).word ∷ z)
      (words_loop-stable fuel fuel' (scan_word q (c ∷ input)).in_quotes
        (skip_spaces (scan_word q (c ∷ input)).rest) (omega arith) (omega arith))

-- The rounds that parse_into_words is given are enough: with any number more, the words are the same.
pub parse_into_words_rounds :
    (input : List ℕ) (more : ℕ)
    → parse_into_words input ≡ words_loop (length input + more) false (skip_spaces input)
unfolding parse_into_words
parse_into_words_rounds input more =
    let h = skip_spaces-length input in
    words_loop-stable (length input) (length input + more) false (skip_spaces input) (omega arith)
      (omega arith)
