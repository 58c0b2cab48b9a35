-- ===== src/Verbs/Prepositions.antt =====
-- db_verbs.c: prepositions, their table, and how they are found in a command.
use wp_lambdamoo.Verbs.Lines.{or_first}
use wp_lambdamoo.Strings.Strtol.{to_int, to_unsigned, strtol, isdigit}
use wp_lambdamoo.Strings.Literals.{ascii}
use wp_lambdamoo.Command.{parse_into_words}
use wp_lambdamoo.Strings.{strcasecmp_eq}
use wp_lambdamoo.Verbs.{prep_any, prep_none}
use wp_lambdamoo.Prelude.{
  ℕ, zero, suc, ◌+◌, ◌-◌, Bool, true, false, not, ◌&&◌, ◌||◌, Option, none, some, List, [], ◌∷◌,
  map, leb, ◌==◌, if◌then◌else◌, length, get_elem?, drop, ℤ, pos, negsuc, ◌==ℤ◌,
}
use wp_lambdamoo.Utf.{deref}

abbrev pub prep_list : List (List ℕ)
prep_list =
    ascii "with/using"
    ∷ ascii "at/to"
    ∷ ascii "in front of"
    ∷ ascii "in/inside/into"
    ∷ ascii "on top of/on/onto/upon"
    ∷ ascii "out of/from inside/from"
    ∷ ascii "over"
    ∷ ascii "through"
    ∷ ascii "under/underneath/beneath"
    ∷ ascii "behind"
    ∷ ascii "beside"
    ∷ ascii "for/about"
    ∷ ascii "is"
    ∷ ascii "as"
    ∷ ascii "off/off of"
    ∷ []

abbrev pub npreps : ℕ
npreps = length prep_list

-- while (*p && *p != '/') *t++ = *p++;
unfoldable pub scan_alias : List ℕ → List ℕ × List ℕ
scan_alias [] = ([], [])
scan_alias (c ∷ p) =
    let rest = scan_alias p in if c == b'/' then ([], c ∷ p) else (c ∷ rest.0, rest.1)

abbrev pub skip_slash : List ℕ → List ℕ
skip_slash [] = []
skip_slash (c ∷ p) = if c == b'/' then p else c ∷ p

-- The loop over the aliases of a preposition. Each round takes a character, so the length is enough.
unfoldable pub aliases_loop : ℕ → List ℕ → List (List (List ℕ))
unfolding scan_alias
aliases_loop zero p = []
aliases_loop (suc fuel) [] = []
aliases_loop (suc fuel) (c ∷ p) =
    let scanned = scan_alias (skip_slash (c ∷ p)) in
    parse_into_words scanned.0 ∷ aliases_loop fuel scanned.1

-- For each preposition the words of each of its aliases.
unfoldable pub dbpriv_build_prep_table : List (List (List (List ℕ)))
unfolding aliases_loop
dbpriv_build_prep_table = map (λ p. aliases_loop (length p) p) prep_list

-- The phrase that db_find_prep finds: the preposition, and its first and last word.
pub record Phrase : Type 0 where
  pub prep : ℕ
  pub first : ℕ
  pub last : ℕ

-- The loop over the words of an alias, on as many words as are there.
unfoldable pub alias_matches : List (List ℕ) → List (List ℕ) → Bool
alias_matches words [] = true
alias_matches [] (a ∷ alias) = false
alias_matches (w ∷ words) (a ∷ alias) =
    let rest = alias_matches words alias in if strcasecmp_eq w a then rest else false

-- The loops over the aliases and the prepositions for the words from `i` on, `argv`.
module _ (exact_match : Bool) (i : ℕ) (argv : List (List ℕ)) where
  unfoldable pub find_alias : ℕ → List (List (List ℕ)) → Option Phrase
  unfolding alias_matches
  find_alias j [] = none
  find_alias j (alias ∷ aliases) =
      let rest = find_alias j aliases in
      if leb (length alias) (length argv)
        && alias_matches argv alias
        && (not exact_match || (length alias == length argv))
      then some (record { prep = j; first = i; last = i + length alias - 1 })
      else rest

  unfoldable pub find_preposition : ℕ → List (List (List (List ℕ))) → Option Phrase
  unfolding find_alias
  find_preposition j [] = none
  find_preposition j (aliases ∷ table) =
      or_first (find_alias j aliases) (find_preposition (suc j) table)

-- The loop over the words, of which an exact match tries the first only.
unfoldable pub find_from : Bool → List (List (List (List ℕ))) → ℕ → List (List ℕ) → Option Phrase
unfolding find_preposition
find_from exact_match table i [] = none
find_from exact_match table i (w ∷ argv) =
    let rest = find_from exact_match table (suc i) argv in
    or_first (find_preposition exact_match i (w ∷ argv) 0 table)
      (if exact_match then none else rest)

-- none is PREP_NONE.
unfoldable pub db_find_prep : Bool → List (List ℕ) → Option Phrase
unfolding find_from dbpriv_build_prep_table
db_find_prep exact_match argv = find_from exact_match dbpriv_build_prep_table 0 argv

abbrev pub prep_spec : Option Phrase → ℤ
prep_spec none = prep_none
prep_spec (some p) = pos p.prep

-- s up to its first slash
abbrev pub before_slash : List ℕ → List ℕ
before_slash s = (scan_alias s).0

-- `prep` is an int here, and `prep >= NPREPS` compares unsigned numbers.
abbrev pub checked_prep : List ℕ → ℤ → ℤ
checked_prep s prep =
    if not (isdigit (deref s)) || leb npreps (to_unsigned prep) then prep_none else prep

unfoldable pub db_match_prep : List ℕ → ℤ
unfolding db_find_prep strtol scan_alias
db_match_prep prepname =
    let s = if deref prepname == b'#' then drop 1 prepname else prepname in
    let parsed = strtol s in
    if deref parsed.1 == 0
    then checked_prep s (to_int parsed.0)
    else prep_spec (db_find_prep true (parse_into_words (before_slash s)))

-- none: an index outside prep_list.
unfoldable pub db_unparse_prep : ℤ → Option (List ℕ)
db_unparse_prep prep =
    if prep ==ℤ prep_none
    then some (ascii "none")
    else if prep ==ℤ prep_any
    then some (ascii "any")
    else elim prep [ pos j ↦ get_elem? prep_list j | negsuc j ↦ none ]
