-- ===== src/Command/Tests.antt =====
-- Runs of parse_into_words, and the theorems at concrete words.
use wp_lambdamoo.Db.Outcomes.{ok}
use wp_lambdamoo.Properties.Values.{db_find_property}
use wp_lambdamoo.Db.Attributes.{db_object_name, db_for_all_contents, db_object_location}
use wp_lambdamoo.Db.{find_object, valid}
use wp_lambdamoo.Verbs.Sample.{world}
use wp_lambdamoo.Match.{names_of, match_object}
use wp_lambdamoo.Var.{failed_match}
use wp_lambdamoo.Command.Parts.{parse_command_parts, IsSplit}
use wp_lambdamoo.Command.Parse.{ParsedCommand, parse_command, expand}
use wp_lambdamoo.Strings.Literals.{ascii}
use wp_lambdamoo.Prelude.{ℕ, ◌≡◌, refl, some, List, [], ◌∷◌, map, pos, ◌-ℤ◌}
use wp_lambdamoo.Strings.{mystrncasecmp, str_hash, mystrcasecmp, skip_spaces}
use wp_lambdamoo.Command.{scan_word, parse_into_words, build_string, words_loop}
use wp_lambdamoo.Command.Quoting.{quoted, parse_into_words-build_string}

-- put "a b"c\\" in
abbrev command : List ℕ
command =
    0x70 ∷ 0x75 ∷ b' ' ∷ b'"' ∷ 0x61 ∷ b' ' ∷ 0x62 ∷ b'"' ∷ 0x63 ∷ 0x5c ∷ b'"' ∷ b' ' ∷ b' ' ∷ 0x69
    ∷ []

three_words :
    parse_into_words command
    ≡ (0x70 ∷ 0x75 ∷ []) ∷ (0x61 ∷ b' ' ∷ 0x62 ∷ 0x63 ∷ b'"' ∷ []) ∷ (0x69 ∷ []) ∷ []
unfolding parse_into_words wp_lambdamoo.Command.scan_word skip_spaces
three_words = refl

parse_into_words-build_string_example :
    parse_into_words (build_string (map quoted ((0x61 ∷ b' ' ∷ []) ∷ ([] ∷ (b'"' ∷ []) ∷ []))))
    ≡ (0x61 ∷ b' ' ∷ []) ∷ ([] ∷ (b'"' ∷ []) ∷ [])
parse_into_words-build_string_example =
    parse_into_words-build_string (0x61 ∷ b' ' ∷ []) ([] ∷ (b'"' ∷ []) ∷ [])

-- put key into me
abbrev sentence : List ℕ
sentence = ascii "  put key into me"

abbrev parsed : ParsedCommand
parsed = record {
  verb = ascii "put";
  argstr = ascii "key into me";
  args = ascii "key" ∷ ascii "into" ∷ ascii "me" ∷ [];
  dobjstr = ascii "key";
  dobj = failed_match;
  prepstr = ascii "into";
  prep = pos 3;
  iobjstr = ascii "me";
  iobj = pos 1;
}

parse_sentence : parse_command world sentence (pos 1) ≡ ok (some parsed)
unfolding parse_command parse_into_words scan_word skip_spaces mystrcasecmp ◌-ℤ◌ build_string
    match_object str_hash valid find_object db_object_location db_for_all_contents db_object_name
    names_of db_find_property mystrncasecmp wp_lambdamoo.Verbs.Prepositions.db_find_prep
    wp_lambdamoo.Db.Attributes.db_for_all
parse_sentence = refl

parse_command_parts_example :
    (parse_into_words (expand (skip_spaces sentence)).0 ≡ parsed.verb ∷ parsed.args)
    × IsSplit parsed
parse_command_parts_example = parse_command_parts world sentence (pos 1) parsed parse_sentence
