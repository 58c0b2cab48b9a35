-- ===== src/Verbs.antt =====
-- db_verbs.c: the verbs of an object, their handles, and the lookup that needs no cache.
-- A handle is the definer and the address of a Verbdef; `same` tells which verb's names are the very
-- string that is looked up.
pub mod Cache
pub mod Access
pub mod Lines
pub mod FoldedNames
pub mod Keys
pub mod Coherent
pub mod Stores
pub mod Invalidation
pub mod Harmless
pub mod OwnNames
pub mod OwnKept
pub mod Steps
pub mod Cleared
pub mod Runs
pub mod Specs
pub mod Prepositions
pub mod Phrases
pub mod Sample
mod Tests
use Prim.Native.Nat.{bit_and, bit_or}
use wp_lambdamoo.Prelude.{
  ℕ, zero, suc, ◌+◌, ◌-◌, ◌*◌, ◌/◌, ◌%◌, ◌^◌, ◌≤◌, ◌<◌, ◌≡◌, refl, sym, ap, ◌∙◌, ◌≢◌, ◌↔◌, ◌⊎◌, inl,
  inr, Bool, true, false, not, ◌&&◌, ◌||◌, Option, none, some, List, [], ◌∷◌, ◌++◌, map,
  append_assoc, append-nil, arith, ltb, leb, ◌==◌, if◌then◌else◌, ltb→lt, lt→ltb, leb→le, ==_iff,
  ==-refl, Bool-cases, Option-cases, every, every_at, length, get_elem?, set, take, drop,
  length-append, length-take, length-drop, take-append-drop, drop-append, take-append, All, ℤ, pos,
  negsuc, pos_part, neg_part, sub_ℕ, ◌+ℤ◌, ◌-ℤ◌, ◌*ℤ◌, ◌≤ℤ◌, leb_ℤ, ltb_ℤ, ◌==ℤ◌, ==ℤ_iff, ==ℤ-refl,
  drop-nil, take-nil, pred_pos, pred_negsuc, suc-ne-zero, take_all, drop_all, succ_pos, sub_pos,
  drop-drop, or-eq-false, ==ℤ-sym, or_right, clash,
}
use wp_lambdamoo.Var.{Objid}
use wp_lambdamoo.Strings.{verbcasecmp}
use wp_lambdamoo.Strings.Strtol.{isspace, strtol, to_int, to_unsigned}
use wp_lambdamoo.Utf.{deref}
use wp_lambdamoo.Db.{Verbdef, Object, Db, find_object, at, store}
use wp_lambdamoo.Db.Outcomes.{Outcome, ok, fault, ◌>>=◌, from_option}

-- db_verb_flag, db_arg_spec and db_prep_spec
abbrev pub vf_read : ℕ
vf_read = 1

abbrev pub vf_write : ℕ
vf_write = 2

abbrev pub vf_exec : ℕ
vf_exec = 4

abbrev pub vf_debug : ℕ
vf_debug = 8

abbrev pub aspec_none : ℕ
aspec_none = 0

abbrev pub aspec_any : ℕ
aspec_any = 1

abbrev pub aspec_this : ℕ
aspec_this = 2

abbrev pub prep_any : ℤ
prep_any = negsuc 1

abbrev pub prep_none : ℤ
prep_none = negsuc 0

-- `perms & PERMMASK`
abbrev pub flags_of : ℕ → ℕ
flags_of perms = perms % 2 ^ 4

-- `(perms >> DOBJSHIFT) & OBJMASK` and `(perms >> IOBJSHIFT) & OBJMASK`
abbrev pub dobj_of : ℕ → ℕ
dobj_of perms = perms / 2 ^ 4 % 2 ^ 2

abbrev pub iobj_of : ℕ → ℕ
iobj_of perms = perms / 2 ^ 6 % 2 ^ 2

-- `flags | (dobj << DOBJSHIFT) | (iobj << IOBJSHIFT)` in a short, by its 16 bits
abbrev pub perms_of : ℕ → ℕ → ℕ → ℕ
perms_of flags dobj iobj = bit_or (bit_or flags (dobj * 2 ^ 4)) (iobj * 2 ^ 6) % 2 ^ 16

-- A non-null handle. In the server it is a pointer to a static variable or to an entry of the cache;
-- here it is a value, so that a handle which was found before the cache is cleared stays usable.
pub record Handle : Type 0 where
  pub definer : Objid
  pub verbdef : ℕ

abbrev pub handle_on : Object → Verbdef → Handle
handle_on o v = record { definer = o.id; verbdef = v.address }

abbrev pub handle_found : Object → Option Verbdef → Option Handle
handle_found o none = none
handle_found o (some v) = some (handle_on o v)

-- The verb at an address.
unfoldable pub verb_at : ℕ → List Verbdef → Option Verbdef
verb_at a [] = none
verb_at a (v ∷ vs) = let rest = verb_at a vs in if v.address == a then some v else rest

-- `h->verbdef->`: a fault where the verb is gone.
unfoldable pub follow : Db → Handle → Outcome Verbdef
unfolding verb_at
follow db h = at db h.definer >>= λ o. from_option (verb_at h.verbdef o.verbdefs)

unfoldable pub change_verb : ℕ → (Verbdef → Verbdef) → List Verbdef → List Verbdef
change_verb a f [] = []
change_verb a f (v ∷ vs) =
    let rest = change_verb a f vs in if v.address == a then f v ∷ vs else v ∷ rest

-- `h->verbdef->f = ...`
unfoldable pub write_verb : Db → Handle → (Verbdef → Verbdef) → Outcome Db
unfolding follow change_verb
write_verb db h f = follow db h >>= λ v.
    store db h.definer (λ o. record o { verbdefs = change_verb h.verbdef f o.verbdefs })

-- The number that a verb's name is, if any, or -1.
unfoldable pub number_of_name : List ℕ → Bool → ℤ
unfolding strtol
number_of_name vname allow_numbers =
    let parsed = strtol vname in
    if not allow_numbers || isspace (deref vname) || not (deref parsed.1 == 0)
    then negsuc 0
    else to_int parsed.0

-- for (; o; o = dbpriv_find_object(o->parent)), which a first answer of `f` leaves.
abbrev pub first_of {ℓ} : {B : Type ℓ} → Option B → Outcome (Option B) → Outcome (Option B)
first_of none rest = rest
first_of (some b) rest = ok (some b)

unfoldable pub walk {ℓ} :
    {B : Type ℓ} → ℕ → Db → (Object → Option B) → Option Object → Outcome (Option B)
walk zero db f start = fault
walk (suc fuel) db f none = ok none
walk (suc fuel) db f (some o) =
    let rest = walk fuel db f (find_object db o.parent) in first_of (f o) rest

-- One round for each object of the table, and one to see the end.
abbrev pub rounds : Db → ℕ
rounds db = suc db.num_objects

unfoldable pub db_count_verbs : Db → Objid → Outcome ℕ
db_count_verbs db oid = at db oid >>= λ o. ok (length o.verbdefs)

unfoldable pub for_all_names {κ} :
    {S : Type κ} → (S → List ℕ → Outcome (Bool × S)) → List Verbdef → S → Outcome (Bool × S)
for_all_names func [] s = ok (false, s)
for_all_names func (v ∷ vs) s = func s v.name >>= λ r.
    let rest = for_all_names func vs r.1 in if r.0 then ok (true, r.1) else rest

unfoldable pub db_for_all_verbs {κ} :
    {S : Type κ} → (S → List ℕ → Outcome (Bool × S)) → Db → Objid → S → Outcome (Bool × S)
unfolding for_all_names
db_for_all_verbs func db oid s = at db oid >>= λ o. for_all_names func o.verbdefs s

module _ (same : Verbdef → Bool) where
  unfoldable pub find_verbdef_by_name : List Verbdef → List ℕ → Bool → Option Verbdef
  find_verbdef_by_name [] vname check_x_bit = none
  find_verbdef_by_name (v ∷ vs) vname check_x_bit =
      let rest = find_verbdef_by_name vs vname check_x_bit in
      if verbcasecmp (same v) v.name vname
        && (not check_x_bit || not (bit_and v.perms vf_exec == 0))
      then some v
      else rest

  unfoldable pub find_command : List ℕ → ℕ → ℕ → ℕ → List Verbdef → Option Verbdef
  find_command verb dobj prep iobj [] = none
  find_command verb dobj prep iobj (v ∷ vs) =
      let rest = find_command verb dobj prep iobj vs in
      if verbcasecmp (same v) v.name verb
        && ((dobj_of v.perms == aspec_any) || (dobj_of v.perms == dobj))
        && ((v.prep ==ℤ prep_any) || (to_unsigned v.prep == prep))
        && ((iobj_of v.perms == aspec_any) || (iobj_of v.perms == iobj))
      then some v
      else rest

  unfoldable pub db_find_command_verb : Db → Objid → List ℕ → ℕ → ℕ → ℕ → Outcome (Option Handle)
  unfolding walk find_command
  db_find_command_verb db oid verb dobj prep iobj =
      walk (rounds db) db (λ o. handle_found o (find_command verb dobj prep iobj o.verbdefs))
        (find_object db oid)

  -- The loop of `db_find_defined_verb`, with the number that the name is.
  unfoldable pub find_defined : List ℕ → ℤ → ℕ → List Verbdef → Option Verbdef
  find_defined vname num i [] = none
  find_defined vname num i (v ∷ vs) =
      let rest = find_defined vname num (suc i) vs in
      if (pos i ==ℤ num) || verbcasecmp (same v) v.name vname then some v else rest

  unfoldable pub db_find_defined_verb : Db → Objid → List ℕ → Bool → Outcome (Option Handle)
  unfolding find_defined number_of_name
  db_find_defined_verb db oid vname allow_numbers = at db oid >>= λ o.
      ok (handle_found o (find_defined vname (number_of_name vname allow_numbers) 0 o.verbdefs))

-- The loop of `db_find_indexed_verb`; `i` is an unsigned int.
unfoldable pub find_indexed : ℕ → ℕ → List Verbdef → Option Verbdef
find_indexed index i [] = none
find_indexed index i (v ∷ vs) =
    let rest = find_indexed index (suc i % 2 ^ 32) vs in
    if suc i % 2 ^ 32 == index then some v else rest

unfoldable pub db_find_indexed_verb : Db → Objid → ℕ → Outcome (Option Handle)
unfolding find_indexed
db_find_indexed_verb db oid index =
    at db oid >>= λ o. ok (handle_found o (find_indexed index 0 o.verbdefs))
