-- ===== src/Match.antt =====
-- match.c: the object that a string names, for a player.
mod Tests
pub mod Candidates
pub mod Verdict
pub mod Contents
use wp_lambdamoo.Var.{nil, cons}
use wp_lambdamoo.Strings.Literals.{ascii}
use wp_lambdamoo.Properties.Values.{db_find_property}
use wp_lambdamoo.Db.Attributes.{db_for_all_contents, db_object_name, db_object_location}
use wp_lambdamoo.Strings.{strcasecmp_eq, mystrncasecmp}
use wp_lambdamoo.Utf.{deref}
use wp_lambdamoo.Db.{valid, Db}
use wp_lambdamoo.Properties.{is_missing, PropHandle}
use wp_lambdamoo.Strings.Strtol.{strtol}
use wp_lambdamoo.Prelude.{
  ℕ, zero, suc, ◌+◌, ◌-◌, ◌*◌, ◌/◌, ◌%◌, ◌^◌, ◌≤◌, ◌<◌, ◌≡◌, refl, sym, ap, ◌∙◌, ◌≢◌, ◌↔◌, ◌⊎◌, inl,
  inr, Bool, true, false, not, ◌&&◌, ◌||◌, Option, none, some, List, [], ◌∷◌, ◌++◌, map,
  append_assoc, append-nil, arith, ltb, leb, ◌==◌, if◌then◌else◌, ltb→lt, lt→ltb, leb→le, ==_iff,
  ==-refl, Bool-cases, Option-cases, every, every_at, length, get_elem?, set, take, drop,
  length-append, length-take, length-drop, take-append-drop, drop-append, take-append, All, ℤ, pos,
  negsuc, pos_part, neg_part, sub_ℕ, ◌+ℤ◌, ◌-ℤ◌, ◌*ℤ◌, ◌≤ℤ◌, leb_ℤ, ltb_ℤ, ◌==ℤ◌, ==ℤ_iff, ==ℤ-refl,
  drop-nil, take-nil, pred_pos, pred_negsuc, suc-ne-zero, take_all, drop_all, succ_pos, sub_pos,
  drop-drop, or-eq-false, ==ℤ-sym, or_right, clash,
}
use wp_lambdamoo.Var.{cons, Var, Vars, str, list, Objid, nothing, ambiguous, failed_match}
use wp_lambdamoo.Db.Outcomes.{Outcome, ok, ◌>>=◌}

-- The strings among the elements of a list; the loop of `match_proc` goes on behind any other.
abbrev pub strings : Vars → List (List ℕ)
strings nil = []
strings (cons (str s) vs) = s ∷ strings vs
strings (cons v vs) = strings vs

-- `aliases`: no names where the property is missing or not a list.
abbrev pub alias_names : PropHandle × Option Var → List (List ℕ)
alias_names (h, some (list vs)) = if is_missing h then [] else strings vs
alias_names (h, _) = []

unfoldable pub aliases : Db → Objid → Outcome (List (List ℕ))
aliases db oid = db_find_property db oid (ascii "aliases") true >>= λ h. ok (alias_names h)

-- struct match_data
pub record MatchData : Type 0 where
  pub lname : ℕ
  pub name : List ℕ
  pub exact : Objid
  pub partial : Objid

abbrev pub is_match : MatchData → List ℕ → Bool
is_match d name = mystrncasecmp name d.name d.lname ==ℤ pos 0

-- name[d->lname] == '\0'
abbrev pub is_whole : MatchData → List ℕ → Bool
is_whole d name = deref (drop d.lname name) == 0

abbrev pub with_partial : Objid → MatchData → MatchData
with_partial oid d =
    if (d.partial ==ℤ failed_match) || (d.partial ==ℤ oid)
    then record d { partial = oid }
    else record d { partial = ambiguous }

-- The loop of `match_proc` over the names of an object; true where it returns 1.
unfoldable pub match_names : Objid → List (List ℕ) → MatchData → Bool × MatchData
match_names oid [] d = (false, d)
match_names oid (name ∷ names) d =
    let unmatched = match_names oid names d in
    let exactly = match_names oid names (record d { exact = oid }) in
    let partly = match_names oid names (with_partial oid d) in
    if not (is_match d name)
    then unmatched
    else if not (is_whole d name)
    then partly
    else if (d.exact ==ℤ nothing) || (d.exact ==ℤ oid)
    then exactly
    else (true, d)

-- The name of an object, and its aliases.
unfoldable pub names_of : Db → Objid → Outcome (List (List ℕ))
unfolding aliases
names_of db oid = aliases db oid >>= λ names. db_object_name db oid >>= λ name. ok (name ∷ names)

unfoldable pub match_proc : Db → MatchData → Objid → Outcome (Bool × MatchData)
unfolding match_names names_of
match_proc db d oid = names_of db oid >>= λ names. ok (match_names oid names d)

-- One round of the loop of `match_contents`.
unfoldable pub match_in : Db → Objid → MatchData → Outcome (Bool × MatchData)
unfolding match_proc
match_in db oid d =
    if valid db oid then db_for_all_contents (match_proc db) db oid d else ok (false, d)

abbrev pub match_answer : MatchData → Objid
match_answer d = if d.exact ==ℤ nothing then d.partial else d.exact

unfoldable pub match_contents : Db → Objid → List ℕ → Outcome Objid
unfolding match_in
match_contents db player name =
    let d : MatchData = record {
      lname = length name;
      name = name;
      exact = nothing;
      partial = failed_match;
    } in
    let matched = db_object_location db player >>= λ loc. match_in db player d >>= λ r₀.
    let second =
      match_in db loc r₀.1 >>= λ r₁. ok (if r₁.0 then ambiguous else match_answer r₁.1) in
    if r₀.0 then ok ambiguous else second in
    if valid db player then matched else ok failed_match

-- An object number behind `#`.
abbrev pub numbered_object : Db → List ℕ → Objid
numbered_object db s =
    let parsed = strtol s in
    if not (deref parsed.1 == 0) || not (valid db parsed.0) then failed_match else parsed.0

unfoldable pub match_object : Db → Objid → List ℕ → Outcome Objid
unfolding match_contents strtol
match_object db player [] = ok nothing
match_object db player (c ∷ s) =
    if c == b'#'
    then ok (numbered_object db s)
    else if not (valid db player)
    then ok failed_match
    else if strcasecmp_eq (c ∷ s) (ascii "me")
    then ok player
    else if strcasecmp_eq (c ∷ s) (ascii "here")
    then db_object_location db player
    else match_contents db player (c ∷ s)
