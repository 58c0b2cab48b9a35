-- ===== src/Command.antt =====
-- parse_cmd.c: the words of a command. The words are written into the buffer of the command itself, never
-- in front of what is still to be read, so here they are lists of their own.
pub mod Quoting
pub mod Rounds
mod Tests
pub mod Parse
pub mod Parts
use wp_lambdamoo.Prelude.{
  ℕ, zero, suc, ◌+◌, ◌-◌, ◌*◌, ◌/◌, ◌%◌, ◌^◌, ◌≤◌, ◌<◌, ◌≡◌, refl, sym, ap, ◌∙◌, ◌≢◌, ◌↔◌, ◌⊎◌, inl,
  inr, Bool, true, false, not, ◌&&◌, ◌||◌, Option, none, some, List, [], ◌∷◌, ◌++◌, map,
  append_assoc, append-nil, arith, ltb, leb, ◌==◌, if◌then◌else◌, ltb→lt, lt→ltb, leb→le, ==_iff,
  ==-refl, Bool-cases, Option-cases, every, every_at, length, get_elem?, set, take, drop,
  length-append, length-take, length-drop, take-append-drop, drop-append, take-append, All, ℤ, pos,
  negsuc, pos_part, neg_part, sub_ℕ, ◌+ℤ◌, ◌-ℤ◌, ◌*ℤ◌, ◌≤ℤ◌, leb_ℤ, ltb_ℤ, ◌==ℤ◌, ==ℤ_iff, ==ℤ-refl,
  drop-nil, take-nil, pred_pos, pred_negsuc, suc-ne-zero, take_all, drop_all, succ_pos, sub_pos,
  drop-drop, or-eq-false, ==ℤ-sym, or_right, clash,
}
use wp_lambdamoo.Strings.{skip_spaces}
use wp_lambdamoo.Var.{Var, Vars, str, nil, cons}

-- What the loop over one word leaves: the word, `in_quotes`, and the rest of `input`.
pub record Scanned : Type 0 where
  pub word : List ℕ
  pub in_quotes : Bool
  pub rest : List ℕ

abbrev pub with_char : ℕ → Scanned → Scanned
with_char c s = record s { word = c ∷ s.word }

unfoldable pub scan_word : Bool → List ℕ → Scanned
scan_word in_quotes [] = record { word = []; in_quotes = in_quotes; rest = [] }
scan_word in_quotes (c ∷ []) =
    if not in_quotes && (c == b' ')
    then record { word = []; in_quotes = in_quotes; rest = c ∷ [] }
    else if c == b'"'
    then record { word = []; in_quotes = not in_quotes; rest = [] }
    else if c == 0x5c
    then record { word = []; in_quotes = in_quotes; rest = [] }
    else record { word = c ∷ []; in_quotes = in_quotes; rest = [] }
scan_word in_quotes (c ∷ d ∷ input) =
    let toggled = scan_word (not in_quotes) (d ∷ input) in
    let escaped = scan_word in_quotes input in
    let plain = scan_word in_quotes (d ∷ input) in
    if not in_quotes && (c == b' ')
    then record { word = []; in_quotes = in_quotes; rest = c ∷ d ∷ input }
    else if c == b'"'
    then toggled
    else if c == 0x5c
    then with_char d escaped
    else with_char c plain

-- The outer loop, one round for each word.
unfoldable pub words_loop : ℕ → Bool → List ℕ → List (List ℕ)
words_loop zero in_quotes input = []
words_loop (suc fuel) in_quotes [] = []
words_loop (suc fuel) in_quotes (c ∷ input) =
    let s = scan_word in_quotes (c ∷ input) in
    s.word ∷ words_loop fuel s.in_quotes (skip_spaces s.rest)

unfoldable pub parse_into_words : List ℕ → List (List ℕ)
unfolding words_loop
parse_into_words input = words_loop (length input) false (skip_spaces input)

-- The loop of `build_string` behind its first word.
unfoldable pub append_words : List ℕ → List (List ℕ) → List ℕ
append_words s [] = s
append_words s (w ∷ ws) = append_words ((s ++ b' ' ∷ []) ++ w) ws

unfoldable pub build_string : List (List ℕ) → List ℕ
unfolding append_words
build_string [] = []
build_string (w ∷ ws) = append_words w ws

abbrev pub word_list : List (List ℕ) → Vars
word_list [] = nil
word_list (w ∷ ws) = cons (str w) (word_list ws)

unfoldable pub parse_into_wordlist : List ℕ → Vars
parse_into_wordlist command = word_list (parse_into_words command)
