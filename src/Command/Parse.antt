-- ===== src/Command/Parse.antt =====
-- parse_cmd.c: a command as a verb, its arguments, and the objects around its preposition.
use wp_lambdamoo.Verbs.{prep_none}
use wp_lambdamoo.Match.{match_object}
use wp_lambdamoo.Command.{build_string, parse_into_words}
use wp_lambdamoo.Strings.Literals.{ascii}
use wp_lambdamoo.Verbs.Prepositions.{db_find_prep, Phrase}
use wp_lambdamoo.Db.{Db}
use wp_lambdamoo.Strings.{skip_spaces}
use wp_lambdamoo.Prelude.{
  ℕ, suc, ◌-◌, Bool, false, not, ◌||◌, Option, none, some, List, [], ◌∷◌, ◌++◌, ◌==◌, if◌then◌else◌,
  take, drop, ℤ, pos,
}
use wp_lambdamoo.Var.{Objid, nothing}
use wp_lambdamoo.Db.Outcomes.{Outcome, ok, ◌>>=◌}

-- Parsed_Command
pub record ParsedCommand : Type 0 where
  pub verb : List ℕ
  pub argstr : List ℕ
  pub args : List (List ℕ)
  pub dobjstr : List ℕ
  pub dobj : Objid
  pub prepstr : List ℕ
  pub prep : ℤ
  pub iobjstr : List ℕ
  pub iobj : Objid

-- Past a verb, however it is quoted.
unfoldable pub skip_verb : Bool → List ℕ → List ℕ
skip_verb in_quotes [] = []
skip_verb in_quotes (c ∷ []) = if in_quotes || not (c == b' ') then [] else c ∷ []
skip_verb in_quotes (c ∷ d ∷ s) =
    let toggled = skip_verb (not in_quotes) (d ∷ s) in
    let escaped = skip_verb in_quotes s in
    let plain = skip_verb in_quotes (d ∷ s) in
    if in_quotes || not (c == b' ')
    then (if c == b'"' then toggled else if c == 0x5c then escaped else plain)
    else c ∷ d ∷ s

-- The text that is split into words, and argstr: ", : and ; at the start stand for a verb.
abbrev pub prefixed : List ℕ → List ℕ → List ℕ × List ℕ
prefixed verb argstr = (verb ++ b' ' ∷ argstr, argstr)

unfoldable pub expand : List ℕ → List ℕ × List ℕ
unfolding skip_verb skip_spaces
expand [] = ([], [])
expand (c ∷ s) =
    if c == b'"'
    then prefixed (ascii "say") s
    else if c == b':'
    then prefixed (ascii "emote") s
    else if c == b';'
    then prefixed (ascii "eval") s
    else (c ∷ s, skip_spaces (skip_verb false (c ∷ s)))

-- The direct object from words, NOTHING from none.
abbrev pub object_of : Db → Objid → List (List ℕ) → Outcome (List ℕ × Objid)
object_of db user [] = ok ([], nothing)
object_of db user (w ∷ words) =
    match_object db user (build_string (w ∷ words)) >>= λ o. ok (build_string (w ∷ words), o)

abbrev pub plain_command : List ℕ → List ℕ → List (List ℕ) → List ℕ × Objid → ParsedCommand
plain_command verb argstr args dobj = record {
  verb = verb;
  argstr = argstr;
  args = args;
  dobjstr = dobj.0;
  dobj = dobj.1;
  prepstr = [];
  prep = prep_none;
  iobjstr = [];
  iobj = nothing;
}

abbrev pub phrase_command :
    List ℕ → List ℕ → List (List ℕ) → Phrase → List ℕ × Objid → Objid → ParsedCommand
phrase_command verb argstr args p dobj iobj = record {
  verb = verb;
  argstr = argstr;
  args = args;
  dobjstr = dobj.0;
  dobj = dobj.1;
  prepstr = build_string (take (suc p.last - p.first) (drop p.first args));
  prep = pos p.prep;
  iobjstr = build_string (drop (suc p.last) args);
  iobj = iobj;
}

-- The words `args` behind the verb, around the phrase that was found in them.
unfoldable pub around :
    Db → Objid → List ℕ → List ℕ → List (List ℕ) → Option Phrase → Outcome ParsedCommand
around db user verb argstr args none =
    object_of db user args >>= λ dobj. ok (plain_command verb argstr args dobj)
around db user verb argstr args (some p) =
    match_object db user (build_string (drop (suc p.last) args)) >>= λ iobj.
    object_of db user (take p.first args) >>= λ dobj.
    ok (phrase_command verb argstr args p dobj iobj)

abbrev pub parse_words : Db → Objid → List ℕ → List (List ℕ) → Outcome (Option ParsedCommand)
parse_words db user argstr [] = ok none
parse_words db user argstr (verb ∷ args) =
    around db user verb argstr args (db_find_prep false args) >>= λ pc. ok (some pc)

-- none: there is no word.
unfoldable pub parse_command : Db → List ℕ → Objid → Outcome (Option ParsedCommand)
unfolding expand around skip_spaces
parse_command db command user =
    let expanded = expand (skip_spaces command) in
    parse_words db user expanded.1 (parse_into_words expanded.0)
