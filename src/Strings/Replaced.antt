-- ===== src/Strings/Replaced.antt =====
-- utils.c: the search of strindex in a text.
use wp_lambdamoo.Strings.{mystrncasecmp}
use wp_lambdamoo.Utf.Text.{get_utf-encode, size_facts, encode-take-drop, IsChar, encode}
use wp_lambdamoo.Prelude.{
  ℕ, zero, suc, ◌+◌, ◌≤◌, ◌<◌, ◌≡◌, refl, ap, ◌∙◌, inl, inr, Bool, true, false, not, ◌&&◌, List, [],
  ◌∷◌, arith, ltb, ◌==◌, if◌then◌else◌, Bool-cases, length, take, drop, length-append, All, clash,
}
use wp_lambdamoo.Db.Outcomes.{ok}
use wp_lambdamoo.Strings.Search.{strncmp, is_at, strindex, strindex_loop}

-- The text begins here with `what`, up to case unless the case counts.
abbrev pub occurs : Bool → List ℕ → List ℕ → Bool
occurs case_counts what s = not (ltb (length s) (length what)) && is_at case_counts what s

-- The answer `r` for a text of characters: 0 where `what` begins at none, else the number of the
-- first at which it does.
abbrev pub Answers : Bool → List ℕ → List ℕ → ℕ → Type 0
Answers case_counts what vs zero =
    (i : ℕ) → i ≤ length vs → occurs case_counts what (encode (drop i vs)) ≡ false
Answers case_counts what vs (suc n) =
    (n ≤ length vs)
    × (occurs case_counts what (encode (drop n vs)) ≡ true)
    × ((i : ℕ) → i < n → occurs case_counts what (encode (drop i vs)) ≡ false)

too_short :
    (case_counts : Bool) (what vs : List ℕ)
    → ltb (length (encode vs)) (length what) ≡ true
    → Answers case_counts what vs 0
too_short case_counts what vs short i h =
    let split = ap length (encode-take-drop i vs) in
    let sum = length-append (encode (take i vs)) (encode (drop i vs)) in
    let still : ltb (length (encode (drop i vs))) (length what) ≡ true = ground arith in rw still

is_at_nothing : (case_counts : Bool) (s : List ℕ) → is_at case_counts [] s ≡ true
unfolding strncmp mystrncasecmp
is_at_nothing true s = refl
is_at_nothing false s = refl

-- The answer for the text with one more character in front.
abbrev next_answer : ℕ → ℕ
next_answer zero = zero
next_answer (suc n) = suc (suc n)

next-Answers :
    (case_counts : Bool) (what vs : List ℕ) (v n : ℕ)
    → occurs case_counts what (encode (v ∷ vs)) ≡ false
    → Answers case_counts what vs n
    → Answers case_counts what (v ∷ vs) (next_answer n)
next-Answers case_counts what vs v zero here a = at_none
  where
    at_none : Answers case_counts what (v ∷ vs) zero
    at_none zero h = here
    at_none (suc i) h = a i (omega arith)
next-Answers case_counts what vs v (suc n) here (le, found, before) = (omega arith, found, earlier)
  where
    earlier : (i : ℕ) → i < suc n → occurs case_counts what (encode (drop i (v ∷ vs))) ≡ false
    earlier zero h = here
    earlier (suc i) h = before i (omega arith)

-- An empty text in which nothing is found is shorter than what was searched.
nothing_left :
    (case_counts : Bool) (what : List ℕ)
    → ltb (length (encode [])) (length what) ≡ false
    → is_at case_counts what (encode []) ≡ false
    → ⊥
unfolding encode
nothing_left case_counts [] fits other = clash (is_at_nothing case_counts []) other
nothing_left case_counts (w ∷ what) fits other = ground arith

abbrev Indexed : ℕ → Bool → List ℕ → List ℕ → ℕ → Type 0
Indexed fuel case_counts what vs ind =
    (n : ℕ) × Answers case_counts what vs n
    × (strindex_loop fuel case_counts what (encode vs) ind ≡ ok (if n == 0 then 0 else ind + n))

-- A round of the loop ends it, or the text goes on with another character.
Indexed-round :
    (fuel : ℕ) (case_counts : Bool) (what vs : List ℕ) (ind : ℕ)
    → (ltb (length (encode vs)) (length what) ≡ false
        → is_at case_counts what (encode vs) ≡ false
        → Indexed (suc fuel) case_counts what vs ind)
    → Indexed (suc fuel) case_counts what vs ind
unfolding strindex_loop
Indexed-round fuel case_counts what vs ind onward =
    elim (Bool-cases (ltb (length (encode vs)) (length what))) [
      | inl short ↦ (0, too_short case_counts what vs short, rw short)
      | inr fits ↦ elim (Bool-cases (is_at case_counts what (encode vs))) [
        | inl here ↦
            (1, (omega arith, rw (fits, here), λ i k. absurd (omega arith)), rw (fits, here))
        | inr other ↦ onward fits other
      ]
    ]

one_further :
    (ind n : ℕ)
    → (if n == 0 then 0 else (ind + 1) + n)
      ≡ (if next_answer n == 0 then 0 else ind + next_answer n)
one_further ind zero = refl
one_further ind (suc n) = ground arith

strindex_loop_first :
    (fuel : ℕ) (case_counts : Bool) (what vs : List ℕ) (ind : ℕ)
    → length (encode vs) < fuel
    → All IsChar vs
    → Indexed fuel case_counts what vs ind
unfolding strindex_loop
strindex_loop_first zero case_counts what vs ind h c = elim h [ ]
strindex_loop_first (suc fuel) case_counts what [] ind h c =
    Indexed-round fuel case_counts what [] ind
      (λ fits other. absurd (nothing_left case_counts what fits other))
strindex_loop_first (suc fuel) case_counts what (v ∷ vs) ind h c =
    Indexed-round fuel case_counts what (v ∷ vs) ind (λ fits other.
      let shorter : length (encode vs) < fuel = omega (arith, size_facts v vs c.0) in
      let (n, a, e) = strindex_loop_first fuel case_counts what vs (ind + 1) shorter c.1 in
      (
        next_answer n,
        next-Answers case_counts what vs v n (rw (fits, other)) a,
        rw (fits, other, get_utf-encode v vs c.0) (e ∙ ap ok (one_further ind n)),
      ))

-- On a text of characters strindex ends; it answers 0 where what is searched begins at no character,
-- and else the number of the first character at which it begins, counted from 1.
pub strindex_first :
    (case_counts : Bool) (what vs : List ℕ)
    → All IsChar vs
    → (n : ℕ) × (strindex (encode vs) what case_counts ≡ ok n) × Answers case_counts what vs n
unfolding strindex
strindex_first case_counts what vs c =
    let (n, a, e) =
      strindex_loop_first (suc (length (encode vs))) case_counts what vs 0 (omega arith) c in
    (n, e ∙ ap ok (same n), a)
  where
    same : (n : ℕ) → (if n == 0 then 0 else 0 + n) ≡ n
    same zero = refl
    same (suc n) = ground arith
