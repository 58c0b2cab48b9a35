-- ===== src/Command/Quoting.antt =====
-- Any list of words can be written as a command: quoted, they read back from parse_into_words.
use wp_lambdamoo.Prelude.{
  ℕ, zero, suc, ◌≤◌, ◌<◌, ◌≡◌, refl, sym, ap, ◌∙◌, inl, inr, Bool, true, false, ◌||◌, List, [], ◌∷◌,
  ◌++◌, map, append_assoc, append-nil, arith, ◌==◌, if◌then◌else◌, Bool-cases, length,
  length-append, or-eq-false,
}
use wp_lambdamoo.Strings.{skip_spaces}
use wp_lambdamoo.Command.{
  Scanned, with_char, scan_word, words_loop, parse_into_words, build_string, append_words,
}

abbrev pub is_special : ℕ → Bool
is_special c = (c == b'"') || (c == 0x5c)

-- A word with a backslash in front of each quote and backslash, up to the closing quote.
unfoldable pub escaped : List ℕ → List ℕ
escaped [] = b'"' ∷ []
escaped (c ∷ w) = let rest = escaped w in if is_special c then 0x5c ∷ c ∷ rest else c ∷ rest

unfoldable pub quoted : List ℕ → List ℕ
unfolding escaped
quoted w = b'"' ∷ escaped w

-- What may stand behind a quoted word.
abbrev IsEnd : List ℕ → Type 0
IsEnd [] = Unit
IsEnd (c ∷ r) = c ≡ b' '

scan-end :
    (r : List ℕ) → IsEnd r → scan_word false r ≡ record { word = []; in_quotes = false; rest = r }
unfolding scan_word
scan-end [] h = refl
scan-end (c ∷ []) h = rw h
scan-end (c ∷ d ∷ r) h = rw h

scan-close :
    (r : List ℕ)
    → IsEnd r
    → scan_word true (b'"' ∷ r) ≡ record { word = []; in_quotes = false; rest = r }
unfolding scan_word
scan-close [] h = refl
scan-close (d ∷ r) h = scan-end (d ∷ r) h

scan-backslash :
    (c : ℕ) (input : List ℕ)
    → scan_word true (0x5c ∷ c ∷ input) ≡ with_char c (scan_word true input)
unfolding scan_word
scan-backslash c input = refl

scan-char :
    (c : ℕ) (input : List ℕ)
    → is_special c ≡ false
    → scan_word true (c ∷ input) ≡ with_char c (scan_word true input)
unfolding scan_word
scan-char c [] e = let (q, b) = or-eq-false (c == b'"') (c == 0x5c) e in rw (q, b)
scan-char c (d ∷ input) e = let (q, b) = or-eq-false (c == b'"') (c == 0x5c) e in rw (q, b)

scan-escaped :
    (w r : List ℕ)
    → IsEnd r
    → scan_word true (escaped w ++ r) ≡ record { word = w; in_quotes = false; rest = r }
unfolding escaped
scan-escaped [] r h = scan-close r h
scan-escaped (c ∷ w) r h = elim (Bool-cases (is_special c)) [
  | inl special ↦ rw (special, scan-backslash c (escaped w ++ r), scan-escaped w r h)
  | inr plain ↦ rw (plain, scan-char c (escaped w ++ r) plain, scan-escaped w r h)
]

scan-open : (input : List ℕ) → scan_word false (b'"' ∷ input) ≡ scan_word true input
unfolding scan_word
scan-open [] = refl
scan-open (d ∷ input) = refl

scan-quoted :
    (w r : List ℕ)
    → IsEnd r
    → scan_word false (quoted w ++ r) ≡ record { word = w; in_quotes = false; rest = r }
unfolding quoted
scan-quoted w r h = scan-open (escaped w ++ r) ∙ scan-escaped w r h

-- The quoted words behind the first, each with a space in front of it.
unfoldable pub tail_of : List (List ℕ) → List ℕ
tail_of [] = []
tail_of (w ∷ ws) = b' ' ∷ quoted w ++ tail_of ws

tail_of-IsEnd : (ws : List (List ℕ)) → IsEnd (tail_of ws)
unfolding tail_of
tail_of-IsEnd [] = tt
tail_of-IsEnd (w ∷ ws) = refl

tail_of-nil : tail_of [] ≡ []
unfolding tail_of
tail_of-nil = refl

loop-nil : (fuel : ℕ) → words_loop fuel false (skip_spaces []) ≡ []
unfolding words_loop skip_spaces
loop-nil zero = refl
loop-nil (suc fuel) = refl

skip-tail :
    (w : List ℕ) (ws : List (List ℕ)) → skip_spaces (tail_of (w ∷ ws)) ≡ quoted w ++ tail_of ws
unfolding skip_spaces tail_of quoted
skip-tail w ws = refl

abbrev round_of : ℕ → Scanned → List (List ℕ)
round_of fuel s = s.word ∷ words_loop fuel s.in_quotes (skip_spaces s.rest)

loop-step :
    (fuel : ℕ) (w r : List ℕ)
    → words_loop (suc fuel) false (quoted w ++ r) ≡ round_of fuel (scan_word false (quoted w ++ r))
unfolding words_loop quoted
loop-step fuel w r = refl

loop-quoted :
    (fuel : ℕ) (w : List ℕ) (ws : List (List ℕ))
    → length ws < fuel
    → words_loop fuel false (quoted w ++ tail_of ws) ≡ w ∷ ws
loop-quoted zero w ws h = elim h [ ]
loop-quoted (suc fuel) w [] h =
    loop-step fuel w (tail_of [])
    ∙ ap (round_of fuel) (scan-quoted w (tail_of []) (tail_of-IsEnd []))
    ∙ ap (λ z. w ∷ z) (ap (λ r. words_loop fuel false (skip_spaces r)) tail_of-nil ∙ loop-nil fuel)
loop-quoted (suc fuel) w (v ∷ ws) h =
    loop-step fuel w (tail_of (v ∷ ws))
    ∙ ap (round_of fuel) (scan-quoted w (tail_of (v ∷ ws)) (tail_of-IsEnd (v ∷ ws)))
    ∙ ap (λ z. w ∷ z)
        (ap (words_loop fuel false) (skip-tail v ws) ∙ loop-quoted fuel v ws (omega arith))

append-quoted : (s : List ℕ) (ws : List (List ℕ)) → append_words s (map quoted ws) ≡ s ++ tail_of ws
unfolding append_words tail_of
append-quoted s [] = sym (append-nil s)
append-quoted s (w ∷ ws) =
    append-quoted ((s ++ b' ' ∷ []) ++ quoted w) ws
    ∙ append_assoc (s ++ b' ' ∷ []) (quoted w) (tail_of ws)
    ∙ append_assoc s (b' ' ∷ []) (quoted w ++ tail_of ws)

tail_of-length : (ws : List (List ℕ)) → length ws ≤ length (tail_of ws)
unfolding tail_of
tail_of-length [] = omega arith
tail_of-length (w ∷ ws) =
    let ih = tail_of-length ws in let e = length-append (quoted w) (tail_of ws) in omega arith

quoted-length : (w : List ℕ) (ws : List (List ℕ)) → length ws < length (quoted w ++ tail_of ws)
unfolding quoted
quoted-length w ws =
    let h = tail_of-length ws in let e = length-append (escaped w) (tail_of ws) in omega arith

skip-quoted : (w r : List ℕ) → skip_spaces (quoted w ++ r) ≡ quoted w ++ r
unfolding skip_spaces quoted
skip-quoted w r = refl

parse-quoted :
    (w : List ℕ) (ws : List (List ℕ))
    → words_loop (length (quoted w ++ tail_of ws)) false (skip_spaces (quoted w ++ tail_of ws))
      ≡ w ∷ ws
parse-quoted w ws =
    ap (words_loop (length (quoted w ++ tail_of ws)) false) (skip-quoted w (tail_of ws))
    ∙ loop-quoted (length (quoted w ++ tail_of ws)) w ws (quoted-length w ws)

-- Words of any characters, quoted and joined by build_string, are what parse_into_words finds again.
pub parse_into_words-build_string :
    (w : List ℕ) (ws : List (List ℕ))
    → parse_into_words (build_string (map quoted (w ∷ ws))) ≡ w ∷ ws
unfolding parse_into_words build_string
parse_into_words-build_string w ws = rw (append-quoted (quoted w) ws) (parse-quoted w ws)
