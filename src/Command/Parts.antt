-- ===== src/Command/Parts.antt =====
-- parse_cmd.c: the words of a command with a preposition are those of its three parts.
use wp_lambdamoo.Verbs.Phrases.{prep_table_bounds, db_find_prep_phrase}
use mathlib.Core.Path.{ap₂}
use wp_lambdamoo.Match.{match_object}
use wp_lambdamoo.Verbs.Stores.{bind_ok, ok_injective}
use wp_lambdamoo.Strings.{skip_spaces, strcasecmp_eq}
use wp_lambdamoo.Verbs.{prep_none}
use wp_lambdamoo.Command.{parse_into_words, build_string}
use wp_lambdamoo.Db.{Db}
use wp_lambdamoo.Command.Parse.{
  phrase_command, plain_command, parse_words, expand, object_of, parse_command, around,
  ParsedCommand,
}
use wp_lambdamoo.Verbs.Prepositions.{dbpriv_build_prep_table, db_find_prep, Phrase, alias_matches}
use wp_lambdamoo.Prelude.{
  ℕ, suc, ◌+◌, ◌-◌, ◌≤◌, ◌≡◌, refl, sym, ap, ◌∙◌, ◌⊎◌, inl, inr, true, false, Option, none, some,
  List, [], ◌∷◌, ◌++◌, append_assoc, arith, Bool-cases, length, get_elem?, take, drop, length-take,
  length-drop, take-append-drop, pos, drop-drop, clash,
}
use wp_lambdamoo.Var.{Objid}
use wp_lambdamoo.Db.Outcomes.{ok, ◌>>=◌}

three_parts {ℓ} :
    {A : Type ℓ} (a b : ℕ) (xs : List A)
    → a ≤ b
    → xs ≡ take a xs ++ take (b - a) (drop a xs) ++ drop b xs
three_parts a b xs h =
    let back : a + (b - a) ≡ b = omega arith in
    sym (
      append_assoc (take a xs) (take (b - a) (drop a xs)) (drop b xs)
      ∙ ap (λ n. take a xs ++ (take (b - a) (drop a xs) ++ drop n xs)) (sym back)
      ∙ ap (λ ys. take a xs ++ (take (b - a) (drop a xs) ++ ys)) (sym (drop-drop a (b - a) xs))
      ∙ ap (λ ys. take a xs ++ ys) (take-append-drop (b - a) (drop a xs))
      ∙ take-append-drop a xs)

alias_matches-take :
    (words alias : List (List ℕ))
    → alias_matches words alias ≡ true
    → alias_matches (take (length alias) words) alias ≡ true
unfolding alias_matches
alias_matches-take words [] e = refl
alias_matches-take [] (a ∷ alias) e = cc
alias_matches-take (w ∷ words) (a ∷ alias) e = elim (Bool-cases (strcasecmp_eq w a)) [
  | inl t ↦ rw t (alias_matches-take words alias (rw t at e))
  | inr t ↦ absurd (clash (rw t at e) refl)
]

-- The parts around a phrase of the words `args`.
abbrev HasPhrase : ParsedCommand → Type 0
HasPhrase pc =
    (j k : ℕ) × (ds ps is : List (List ℕ)) × (entries : List (List (List ℕ))) × (alias : List
      (List ℕ))
    × (pc.args ≡ ds ++ ps ++ is)
    × (pc.dobjstr ≡ build_string ds)
    × (pc.prepstr ≡ build_string ps)
    × (pc.iobjstr ≡ build_string is)
    × (pc.prep ≡ pos j)
    × (get_elem? dbpriv_build_prep_table j ≡ some entries)
    × (get_elem? entries k ≡ some alias)
    × (length ps ≡ length alias)
    × (alias_matches ps alias ≡ true)

abbrev pub IsSplit : ParsedCommand → Type 0
IsSplit pc = ((pc.prep ≡ prep_none) × (pc.dobjstr ≡ build_string pc.args)) ⊎ HasPhrase pc

object_of_str :
    (db : Db) (user : Objid) (words : List (List ℕ)) (r : List ℕ × Objid)
    → object_of db user words ≡ ok r
    → r.0 ≡ build_string words
object_of_str db user [] r e = unfold build_string in ap (λ x. x.0) (sym (ok_injective e))
object_of_str db user (w ∷ words) r e =
    let (o, m, q) =
      bind_ok (match_object db user (build_string (w ∷ words)))
        (λ o. ok (build_string (w ∷ words), o)) r e in
    ap (λ x. x.0) (sym (ok_injective q))

abbrev Parsed : List ℕ → List (List ℕ) → ParsedCommand → Type 0
Parsed verb args pc = (pc.verb ≡ verb) × (pc.args ≡ args) × IsSplit pc

HasPhrase-phrase_command :
    (verb argstr : List ℕ) (args : List (List ℕ)) (p : Phrase) (dobj : List ℕ × Objid)
    (iobj : Objid)
    → db_find_prep false args ≡ some p
    → dobj.0 ≡ build_string (take p.first args)
    → HasPhrase (phrase_command verb argstr args p dobj iobj)
HasPhrase-phrase_command verb argstr args p dobj iobj found d =
    let (ordered, inside, phrase) = db_find_prep_phrase false args p found in
    let (entries, k, alias, at_j, at_k, m, after, ends, short) = phrase in
    let (some_word, few) = prep_table_bounds p.prep k entries alias at_j at_k in
    let size : suc p.last - p.first ≡ length alias = omega arith in
    let left = length-drop p.first args in
    let whole : p.first - 0 ≡ p.first = omega arith in
    let m' = ap (λ n. alias_matches (drop n args) alias) (sym whole) ∙ m in
    (
      p.prep,
      k,
      take p.first args,
      take (suc p.last - p.first) (drop p.first args),
      drop (suc p.last) args,
      entries,
      alias,
      three_parts p.first (suc p.last) args (omega arith),
      d,
      refl,
      refl,
      refl,
      at_j,
      at_k,
      rw size (length-take (length alias) (drop p.first args) ∙ rw left (omega arith)),
      rw size (alias_matches-take (drop p.first args) alias m'),
    )

around_lem :
    (db : Db) (user : Objid) (verb argstr : List ℕ) (args : List (List ℕ)) (found : Option Phrase)
    (pc : ParsedCommand)
    → db_find_prep false args ≡ found
    → around db user verb argstr args found ≡ ok pc
    → Parsed verb args pc
unfolding around
around_lem db user verb argstr args none pc f e =
    let (r, o, q) =
      bind_ok (object_of db user args) (λ r. ok (plain_command verb argstr args r)) pc e in
    coe 0 1 (i. Parsed verb args (ok_injective q i))
      (refl, refl, inl (refl, object_of_str db user args r o))
around_lem db user verb argstr args (some p) pc f e =
    let (iobj, m, e₁) =
      bind_ok (match_object db user (build_string (drop (suc p.last) args)))
        (λ iobj. object_of db user (take p.first args) >>= λ r.
          ok (phrase_command verb argstr args p r iobj))
        pc e in
    let (r, o, q) =
      bind_ok (object_of db user (take p.first args))
        (λ r. ok (phrase_command verb argstr args p r iobj)) pc e₁ in
    coe 0 1 (i. Parsed verb args (ok_injective q i)) (
      refl,
      refl,
      inr (
          HasPhrase-phrase_command verb argstr args p r iobj f
            (object_of_str db user (take p.first args) r o)),
    )

parse_words_lem :
    (db : Db) (user : Objid) (argstr : List ℕ) (words : List (List ℕ)) (pc : ParsedCommand)
    → parse_words db user argstr words ≡ ok (some pc)
    → (words ≡ pc.verb ∷ pc.args) × IsSplit pc
parse_words_lem db user argstr [] pc e = absurd (no_command (ok_injective e))
  where
    no_command : none ≡ some pc → ⊥
    no_command q = cc
parse_words_lem db user argstr (verb ∷ args) pc e =
    let (pc', a, q) =
      bind_ok (around db user verb argstr args (db_find_prep false args)) (λ x. ok (some x))
        (some pc) e in
    let (v, as', split) =
      around_lem db user verb argstr args (db_find_prep false args) pc' refl a in
    coe 0 1 (i. (verb ∷ args ≡ (same q i).verb ∷ (same q i).args) × IsSplit (same q i))
      (ap₂ (λ x y. x ∷ y) (sym v) (sym as'), split)
  where
    same : {x : ParsedCommand} → ok (some x) ≡ ok (some pc) → x ≡ pc
    same q = cc

-- A command that parse_command parses has a first word, its verb; if it has a preposition, the words
-- behind the verb are the direct object's, then the preposition's, which are an alias of it up to
-- case, then the indirect object's, and the three strings are these words joined by spaces; if it
-- has none, they are all the direct object's.
pub parse_command_parts :
    (db : Db) (command : List ℕ) (user : Objid) (pc : ParsedCommand)
    → parse_command db command user ≡ ok (some pc)
    → (parse_into_words (expand (skip_spaces command)).0 ≡ pc.verb ∷ pc.args) × IsSplit pc
unfolding parse_command
parse_command_parts db command user pc e =
    parse_words_lem db user (expand (skip_spaces command)).1
      (parse_into_words (expand (skip_spaces command)).0) pc e
