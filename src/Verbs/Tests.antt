-- ===== src/Verbs/Tests.antt =====
-- The theorems on verbs at the sample table, and runs of the routines.
use wp_lambdamoo.Verbs.OwnKept.{db_find_callable_verb_kept}
use mathlib.Core.Bool.{and-eq-true_iff}
use wp_lambdamoo.Verbs.OwnNames.{AcceptsOwn}
use wp_lambdamoo.Verbs.Specs.{db_verb_arg_specs-db_set_verb_arg_specs}
use wp_lambdamoo.Verbs.FoldedNames.{elsewhere}
use wp_lambdamoo.Verbs.Harmless.{on_verb}
use wp_lambdamoo.Strings.{str_hash, mystrcasecmp, skip_name, skip_spaces, match_name, verbcasecmp}
use wp_lambdamoo.Verbs.Coherent.{Answers, db_find_callable_verb-Coherent}
use wp_lambdamoo.Command.{scan_word, parse_into_words}
use wp_lambdamoo.Db.Links.Chains.{modify}
use wp_lambdamoo.Verbs.Sample.{room, world-Lines, look, world-Numbered, world}
use wp_lambdamoo.Verbs.Access.{
  db_verb_owner, db_verb_names, db_verb_flags, db_set_verb_names, db_verb_arg_specs,
  db_set_verb_arg_specs,
}
use wp_lambdamoo.Verbs.Runs.{db_find_callable_verb-Run, no_cache-IsSound}
use wp_lambdamoo.Strings.Fold.{IsText}
use wp_lambdamoo.Verbs.Phrases.{db_match_prep-db_unparse_prep, db_find_prep_phrase, IsPhrase}
use wp_lambdamoo.Db.{Verbdef, store, find_object, Db}
use wp_lambdamoo.Verbs.Cache.{
  db_priv_affected_callable_verb_lookup, db_find_callable_verb, Cache, no_cache,
  find_callable_uncached,
}
use wp_lambdamoo.Strings.Literals.{ascii}
use wp_lambdamoo.Verbs.Steps.{stays, goes_on, renames, Verbs, Step}
use wp_lambdamoo.Verbs.Cleared.{IsSound}
use wp_lambdamoo.Verbs.{write_verb, follow, Handle}
use wp_lambdamoo.Verbs.Prepositions.{
  db_match_prep, Phrase, dbpriv_build_prep_table, db_find_prep, db_unparse_prep,
}
use wp_lambdamoo.Prelude.{
  ==_iff, true, ◌&&◌, ◌==◌, Bool, ℕ, ◌≤◌, ◌<◌, ◌≡◌, refl, false, Option, none, some, List, [], ◌∷◌,
  arith, pos, ◌-ℤ◌,
}
use wp_lambdamoo.Db.Outcomes.{◌>>=◌, Outcome, ok}

abbrev server : Verbs
server = record { db = world; cache = no_cache }

abbrev word : List ℕ
word = ascii "LOO"

word-IsText : IsText word
word-IsText =
    ((omega arith, omega arith), ((omega arith, omega arith), ((omega arith, omega arith), tt)))

abbrev handle : Handle
handle = record { definer = pos 0; verbdef = 10 }

found_on_parent : find_callable_uncached elsewhere world (pos 1) word ≡ ok (some handle)
unfolding find_callable_uncached find_object verbcasecmp match_name skip_name skip_spaces
found_on_parent = refl

-- The verb that look finds through its abbreviation is no verb of another name.
not_found : find_callable_uncached elsewhere world (pos 1) (ascii "x") ≡ ok none
unfolding find_callable_uncached find_object verbcasecmp match_name skip_name skip_spaces
not_found = refl

-- Renaming the verb.
abbrev renamed : Db
renamed = modify world (pos 0) (on_verb 10 (λ v. record v { name = word }))

renamed_ok : db_set_verb_names world no_cache (some handle) word ≡ ok (renamed, no_cache)
unfolding db_set_verb_names write_verb store find_object modify
    db_priv_affected_callable_verb_lookup
renamed_ok = refl

renames_look : Step server (record { db = renamed; cache = no_cache })
renames_look = renames (some handle) word renamed_ok

-- The renamed verb, whose names are the string that is looked up.
abbrev is_word : List ℕ → Bool
is_word [] = false
is_word (a ∷ []) = false
is_word (a ∷ b ∷ []) = false
is_word (a ∷ b ∷ c ∷ []) = (a == b'L') && ((b == b'O') && (c == b'O'))
is_word (a ∷ b ∷ c ∷ d ∷ s) = false

abbrev has_word : Verbdef → Bool
has_word v = is_word v.name

word_accepted : verbcasecmp false word word ≡ true
unfolding verbcasecmp match_name skip_name skip_spaces
word_accepted = refl

word_alone : (s : List ℕ) → is_word s ≡ true → word ≡ s
word_alone [] e = cc
word_alone (a ∷ []) e = cc
word_alone (a ∷ b ∷ []) e = cc
word_alone (a ∷ b ∷ c ∷ []) e =
    let (ea, e') = (and-eq-true_iff _ _).0 e in
    let (eb, ec) = (and-eq-true_iff _ _).0 e' in
    rw ((==_iff a b'L').0 ea, (==_iff b b'O').0 eb, (==_iff c b'O').0 ec)
word_alone (a ∷ b ∷ c ∷ d ∷ s) e = cc

word-AcceptsOwn : AcceptsOwn has_word word
word-AcceptsOwn v e =
    coe 0 1 (i. verbcasecmp false (word_alone v.name e i) word ≡ true) word_accepted

-- The text of the names of look, which they do not accept: looked up at their own address first, it
-- is found ever after.
abbrev own : Verbdef → Bool
own v = v.address == 10

abbrev twice : Outcome (Option Handle × Option Handle)
twice = db_find_callable_verb own world no_cache (pos 1) (ascii "l*ook") >>= λ r.
    db_find_callable_verb elsewhere world r.1 (pos 1) (ascii "l*ook") >>= λ r'. ok (r.0, r'.0)

found_ever_after : twice ≡ ok (some handle, some handle)
unfolding db_find_callable_verb find_object verbcasecmp match_name skip_name skip_spaces
    mystrcasecmp ◌-ℤ◌ str_hash find_callable_uncached
found_ever_after = refl

own_found : find_callable_uncached own world (pos 0) (ascii "l*ook") ≡ ok (some handle)
unfolding find_callable_uncached find_object verbcasecmp match_name skip_name skip_spaces
own_found = refl

room_there : find_object world (pos 0) ≡ some room
unfolding find_object
room_there = refl

db_find_callable_verb_kept_example :
    (c c' : Cache) × (db_find_callable_verb own world no_cache (pos 0) (ascii "l*ook")
      ≡ ok (some handle, c))
    × (db_find_callable_verb elsewhere world c (pos 0) (ascii "l*ook") ≡ ok (some handle, c'))
db_find_callable_verb_kept_example =
    db_find_callable_verb_kept own elsewhere world (pos 0) room (ascii "l*ook") (some handle)
      (omega arith) room_there refl own_found

not_found_otherwise : find_callable_uncached elsewhere world (pos 1) (ascii "l*ook") ≡ ok none
unfolding find_callable_uncached find_object verbcasecmp match_name skip_name skip_spaces
not_found_otherwise = refl

db_find_callable_verb-Run_example :
    (found : Option Handle) × (c' : Cache) × (db_find_callable_verb has_word renamed no_cache
        (pos 1)
        word
      ≡ ok (found, c'))
    × (find_callable_uncached has_word renamed (pos 1) word ≡ ok found)
db_find_callable_verb-Run_example =
    db_find_callable_verb-Run world (record { db = renamed; cache = no_cache }) has_word (pos 1)
      word world-Numbered world-Lines (goes_on stays renames_look) word-IsText word-AcceptsOwn

world-IsSound : IsSound server
world-IsSound = no_cache-IsSound world world-Numbered world-Lines

db_find_callable_verb-Coherent_example : Answers world no_cache (pos 1) word
db_find_callable_verb-Coherent_example =
    db_find_callable_verb-Coherent world no_cache (pos 1) word world-Numbered world-Lines
      word-IsText world-IsSound.coherent

look_there : follow world handle ≡ ok look
unfolding follow find_object
look_there = refl

db_verb_arg_specs-db_set_verb_arg_specs_example :
    (db' : Db) × (db_set_verb_arg_specs world no_cache (some handle) 2 (pos 3) 0
      ≡ ok (db', db_priv_affected_callable_verb_lookup no_cache))
    × (db_verb_arg_specs db' (some handle) ≡ ok (2, pos 3, 0))
    × (db_verb_flags db' (some handle) ≡ db_verb_flags world (some handle))
    × (db_verb_names db' (some handle) ≡ db_verb_names world (some handle))
    × (db_verb_owner db' (some handle) ≡ db_verb_owner world (some handle))
db_verb_arg_specs-db_set_verb_arg_specs_example =
    db_verb_arg_specs-db_set_verb_arg_specs world no_cache handle look 2 (pos 3) 0 (omega arith)
      (omega arith) refl look_there

db_match_prep-db_unparse_prep_example :
    (s : List ℕ) × (db_unparse_prep (pos 4) ≡ some s) × (db_match_prep s ≡ pos 4)
db_match_prep-db_unparse_prep_example = db_match_prep-db_unparse_prep 4 (omega arith)

-- look in front of box
abbrev words : List (List ℕ)
words = ascii "In" ∷ ascii "front" ∷ ascii "of" ∷ ascii "box" ∷ []

abbrev in_front_of : Phrase
in_front_of = record { prep = 2; first = 0; last = 2 }

words_prep : db_find_prep false words ≡ some in_front_of
unfolding db_find_prep parse_into_words scan_word skip_spaces mystrcasecmp ◌-ℤ◌
words_prep = refl

db_find_prep_phrase_example :
    (0 ≤ 2) × (2 < 4) × IsPhrase dbpriv_build_prep_table 0 words in_front_of
db_find_prep_phrase_example = db_find_prep_phrase false words in_front_of words_prep
