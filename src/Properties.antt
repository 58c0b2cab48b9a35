-- ===== src/Properties.antt =====
-- db_properties.c: handles on properties, the built-in ones, and the search for a property.
pub mod Values
pub mod Definitions
pub mod Parents
pub mod Found
pub mod Resolved
pub mod Stored
pub mod Rewritten
pub mod BuiltIn
pub mod Kin
pub mod KinSlots
pub mod Reparented
mod Tests
use wp_lambdamoo.Verbs.{rounds}
use wp_lambdamoo.Strings.Literals.{ascii}
use wp_lambdamoo.Strings.{strcasecmp_eq, str_hash}
use wp_lambdamoo.Db.{find_object, Object, at, Db, Propdef}
use wp_lambdamoo.Db.Outcomes.{◌>>=◌, from_option, fault, ok, Outcome}
use wp_lambdamoo.Prelude.{
  ℕ, zero, suc, ◌+◌, ◌-◌, ◌*◌, ◌/◌, ◌%◌, ◌^◌, ◌≤◌, ◌<◌, ◌≡◌, refl, sym, ap, ◌∙◌, ◌≢◌, ◌↔◌, ◌⊎◌, inl,
  inr, Bool, true, false, not, ◌&&◌, ◌||◌, Option, none, some, List, [], ◌∷◌, ◌++◌, map,
  append_assoc, append-nil, arith, ltb, leb, ◌==◌, if◌then◌else◌, ltb→lt, lt→ltb, leb→le, ==_iff,
  ==-refl, Bool-cases, Option-cases, every, every_at, length, get_elem?, set, take, drop,
  length-append, length-take, length-drop, take-append-drop, drop-append, take-append, All, ℤ, pos,
  negsuc, pos_part, neg_part, sub_ℕ, ◌+ℤ◌, ◌-ℤ◌, ◌*ℤ◌, ◌≤ℤ◌, leb_ℤ, ltb_ℤ, ◌==ℤ◌, ==ℤ_iff, ==ℤ-refl,
  drop-nil, take-nil, pred_pos, pred_negsuc, suc-ne-zero, take_all, drop_all, succ_pos, sub_pos,
  drop-drop, or-eq-false, ==ℤ-sym, or_right, clash,
}
use wp_lambdamoo.Var.{Var, Objid, nothing, clear}

-- enum bi_prop without BP_NONE
pub data BiProp : Type 0 where
  bp_name bp_owner bp_programmer bp_wizard bp_r bp_w bp_f bp_location bp_contents : BiProp

-- db_prop_handle: a built-in property of an object; the slot `n` of the values of the object `oid`,
-- for a property that `definer` defines; or none, with a null pointer.
pub data PropHandle : Type 0 where
  built_in : BiProp → Objid → PropHandle
  slot : (definer oid : Objid) → ℕ → PropHandle
  missing : PropHandle

abbrev pub is_missing : PropHandle → Bool
is_missing missing = true
is_missing _ = false

-- db_prop_flag
abbrev pub pf_read : ℕ
pf_read = 1

abbrev pub pf_write : ℕ
pf_write = 2

abbrev pub pf_chown : ℕ
pf_chown = 4

abbrev pub ptable : List (List ℕ × BiProp)
ptable =
    (ascii "name", bp_name)
    ∷ (ascii "owner", bp_owner)
    ∷ (ascii "programmer", bp_programmer)
    ∷ (ascii "wizard", bp_wizard)
    ∷ (ascii "r", bp_r)
    ∷ (ascii "w", bp_w)
    ∷ (ascii "f", bp_f)
    ∷ (ascii "location", bp_location)
    ∷ (ascii "contents", bp_contents)
    ∷ []

-- The loop over ptable.
unfoldable pub find_built_in : ℕ → List ℕ → List (List ℕ × BiProp) → Option BiProp
find_built_in hash name [] = none
find_built_in hash name ((n, prop) ∷ table) =
    let rest = find_built_in hash name table in
    if (str_hash n == hash) && strcasecmp_eq name n then some prop else rest

-- `defs[i].hash == hash && !mystrcasecmp(defs[i].name, name)`
abbrev pub is_named : ℕ → List ℕ → Propdef → Bool
is_named hash name def = (def.hash == hash) && strcasecmp_eq def.name name

-- The loop over the definitions of an object: the number of the slot, `n` at the first of them.
unfoldable pub find_def : ℕ → List ℕ → ℕ → List Propdef → Option ℕ
find_def hash name n [] = none
find_def hash name n (def ∷ defs) =
    let rest = find_def hash name (suc n) defs in if is_named hash name def then some n else rest

-- The loop over the ancestors: the definer and the slot.
abbrev pub found_at : Objid → Option ℕ → Outcome (Option (Objid × ℕ)) → Outcome (Option (Objid × ℕ))
found_at definer none rest = rest
found_at definer (some n) rest = ok (some (definer, n))

unfoldable pub find_slot : ℕ → Db → ℕ → List ℕ → ℕ → Option Object → Outcome (Option (Objid × ℕ))
unfolding find_def
find_slot zero db hash name n start = fault
find_slot (suc fuel) db hash name n none = ok none
find_slot (suc fuel) db hash name n (some o) =
    let rest = find_slot fuel db hash name (n + length o.propdefs) (find_object db o.parent) in
    found_at o.id (find_def hash name n o.propdefs) rest

abbrev pub is_clear : Var → Bool
is_clear clear = true
is_clear _ = false

-- while (prop->var.type == TYPE_CLEAR): the value is the next ancestor's, whose slots begin behind
-- the definitions of this object. A slot in front of the first is not read.
unfoldable pub resolve : ℕ → Db → ℕ → Option Object → Outcome Var
resolve zero db n o = fault
resolve (suc fuel) db n none = fault
resolve (suc fuel) db n (some o) =
    let rest = resolve fuel db (n - length o.propdefs) (find_object db o.parent) in
    from_option (get_elem? o.propval n) >>= λ pv.
    if is_clear pv.var then if ltb n (length o.propdefs) then fault else rest else ok pv.var

unfoldable pub sum_propdefs : ℕ → Db → Option Object → Outcome ℕ
sum_propdefs zero db o = fault
sum_propdefs (suc fuel) db none = ok 0
sum_propdefs (suc fuel) db (some o) =
    let rest = sum_propdefs fuel db (find_object db o.parent) in
    rest >>= λ n. ok (length o.propdefs + n)

unfoldable pub dbpriv_count_properties : Db → Objid → Outcome ℕ
unfolding sum_propdefs
dbpriv_count_properties db oid = sum_propdefs (rounds db) db (find_object db oid)

unfoldable pub db_count_propdefs : Db → Objid → Outcome ℕ
db_count_propdefs db oid = at db oid >>= λ o. ok (length o.propdefs)

unfoldable pub for_all_defs {κ} :
    {S : Type κ} → (S → List ℕ → Outcome (Bool × S)) → List Propdef → S → Outcome (Bool × S)
for_all_defs func [] s = ok (false, s)
for_all_defs func (def ∷ defs) s = func s def.name >>= λ r.
    let rest = for_all_defs func defs r.1 in if r.0 then ok (true, r.1) else rest

unfoldable pub db_for_all_propdefs {κ} :
    {S : Type κ} → (S → List ℕ → Outcome (Bool × S)) → Db → Objid → S → Outcome (Bool × S)
unfolding for_all_defs
db_for_all_propdefs func db oid s = at db oid >>= λ o. for_all_defs func o.propdefs s
