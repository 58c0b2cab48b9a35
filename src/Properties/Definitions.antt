-- ===== src/Properties/Definitions.antt =====
-- db_properties.c: the definition, renaming and deletion of properties, and the slots that come and
-- go with them on all descendants. What waifs keep of the definitions is not in the state.
use wp_lambdamoo.Verbs.{rounds}
use wp_lambdamoo.Strings.{strcasecmp_eq, str_hash}
use wp_lambdamoo.Properties.Values.{db_find_property}
use wp_lambdamoo.Properties.{is_missing, pf_chown, dbpriv_count_properties, find_def}
use wp_lambdamoo.Db.{is_some, store, at, Propdef, Db, Pval}
use Prim.Native.Nat.{bit_and}
use wp_lambdamoo.Prelude.{
  Option, ℕ, zero, suc, ◌+◌, ◌-◌, ◌*◌, ◌/◌, ◌%◌, ◌^◌, Bool, true, false, ◌&&◌, none, some, List, [],
  ◌∷◌, ◌++◌, ltb, leb, ◌==◌, if◌then◌else◌, length, get_elem?, set, take, drop, ◌==ℤ◌,
}
use wp_lambdamoo.Var.{Var, Objid, nothing, clear}
use wp_lambdamoo.Db.Outcomes.{Outcome, ok, fault, ◌>>=◌, from_option}

unfoldable pub dbpriv_new_propdef : List ℕ → Propdef
dbpriv_new_propdef name = record { name = name; hash = str_hash name }

-- The recursive functions of this file visit an object and then its children, each with what the
-- visit of its parent handed down: this is the loop over the children `c` and its siblings.
unfoldable pub descend {κ} :
    {P : Type κ} → ℕ → (P → Objid → Db → Outcome (P × Db)) → P → Objid → Db → Outcome Db
descend zero visit p c db = fault
descend (suc fuel) visit p c db =
    let rest = visit p c db >>= λ r. at r.1 c >>= λ o. descend fuel visit r.0 o.child r.1 >>= λ db₁.
    at db₁ c >>= λ o₁. descend fuel visit p o₁.sibling db₁ in
    if c ==ℤ nothing then ok db else rest

-- The visit of the root, and then of all below it.
unfoldable pub from_root {κ} :
    {P : Type κ} → (P → Objid → Db → Outcome (P × Db)) → P → Objid → Db → Outcome Db
unfolding descend
from_root visit p root db =
    visit p root db >>= λ r. at r.1 root >>= λ o. descend (rounds db) visit r.0 o.child r.1

-- An object `c`, its siblings behind it, and all below them.
unfoldable pub defined_below : ℕ → Db → List ℕ → ℕ → Objid → Outcome Bool
defined_below zero db pname phash c = fault
defined_below (suc fuel) db pname phash c =
    let rest = at db c >>= λ o.
    let children = defined_below fuel db pname phash o.child >>= λ below.
    let siblings = defined_below fuel db pname phash o.sibling in
    if below then ok true else siblings in
    if is_some (find_def phash pname 0 o.propdefs) then ok true else children in
    if c ==ℤ nothing then ok false else rest

unfoldable pub property_defined_at_or_below : Db → List ℕ → ℕ → Objid → Outcome Bool
unfolding find_def defined_below
property_defined_at_or_below db pname phash oid = at db oid >>= λ o.
    let rest = defined_below (rounds db) db pname phash o.child in
    if is_some (find_def phash pname 0 o.propdefs) then ok true else rest

-- `n` slots from `start` on; a fault behind the last.
unfoldable pub read_slots : List Pval → ℕ → ℕ → Outcome (List Pval)
read_slots pvs start n =
    if leb (start + n) (length pvs) then ok (take n (drop start pvs)) else fault

-- `new_propval[pos]`: a property with PF_CHOWN belongs to the owner of the object.
abbrev pub owned_by : Objid → Pval → Pval
owned_by owner pv = if bit_and pv.perms pf_chown == 0 then pv else record pv { owner = owner }

unfoldable pub insert_prop : Db → Objid → ℕ → Pval → Outcome Db
unfolding read_slots
insert_prop db oid at_pos pval = dbpriv_count_properties db oid >>= λ nprops. at db oid >>= λ o.
    let inserted = read_slots o.propval 0 at_pos >>= λ front.
    read_slots o.propval at_pos (nprops - at_pos - 1) >>= λ back.
    store db oid
      (λ o. record o { propval = front ++ owned_by o.owner pval ∷ back; waif_propdefs = none }) in
    if ltb at_pos nprops then inserted else fault

-- The slot of a descendant is behind those of its own definitions, and TYPE_CLEAR.
abbrev pub insert_below : Pval → ℕ → Objid → Db → Outcome (ℕ × Db)
insert_below pv parent_pos c db = at db c >>= λ o.
    insert_prop db c (length o.propdefs + parent_pos) pv >>= λ db'.
    ok (length o.propdefs + parent_pos, db')

unfoldable pub insert_prop_recursively : Db → Objid → ℕ → Pval → Outcome Db
unfolding insert_prop descend
insert_prop_recursively db root root_pos pv = insert_prop db root root_pos pv >>= λ db'.
    at db' root >>= λ o.
    descend (rounds db) (insert_below (record pv { var = clear })) root_pos o.child db'

-- Room for one definition more.
abbrev pub grown : ℕ → ℕ → ℕ
grown cur max = if cur == max then (if max == 0 then 8 else 2 * max) else max

-- 0 where the property exists, and the table as it was; else 1.
unfoldable pub db_add_propdef : Db → Objid → List ℕ → Var → Objid → ℕ → Outcome (Bool × Db)
unfolding db_find_property property_defined_at_or_below dbpriv_new_propdef insert_prop_recursively
db_add_propdef db oid pname value owner flags = db_find_property db oid pname false >>= λ h.
    let checked = property_defined_at_or_below db pname (str_hash pname) oid >>= λ below.
    let added =
      store db oid (λ o. record o {
        max_propdefs = grown (length o.propdefs) o.max_propdefs;
        propdefs = o.propdefs ++ dbpriv_new_propdef pname ∷ [];
      })
      >>= λ db'. at db' oid >>= λ o.
          let pval : Pval = record { var = value; owner = owner; perms = flags % 2 ^ 16 } in
          insert_prop_recursively db' oid (length o.propdefs - 1) pval >>= λ db''.
          ok (true, db'') in
    if below then ok (false, db) else added in
    if is_missing h.0 then checked else ok (false, db)

-- `waif_rename_propdef` changes what waifs keep of the definitions, so the table stays.
abbrev pub rename_below : ℕ → Objid → Db → Outcome (ℕ × Db)
rename_below u c db = at db c >>= λ o. ok (u, db)

unfoldable pub rename_prop_recursively : Db → Objid → Outcome Db
unfolding from_root
rename_prop_recursively db root = from_root rename_below 0 root db

abbrev pub set_def : ℕ → Propdef → List Propdef → List Propdef
set_def i def defs = set defs i def

unfoldable pub rename_def : Db → Objid → List ℕ → ℕ → Outcome (Bool × Db)
unfolding rename_prop_recursively dbpriv_new_propdef
rename_def db oid new i = rename_prop_recursively db oid >>= λ db'.
    store db' oid (λ o. record o { propdefs = set_def i (dbpriv_new_propdef new) o.propdefs })
    >>= λ db''. ok (true, db'')

-- A new name, not the old one in another case, must not be in use.
unfoldable pub rename_checked : Db → Objid → List ℕ → ℕ → Outcome (Bool × Db)
unfolding db_find_property property_defined_at_or_below rename_def
rename_checked db oid new i = db_find_property db oid new false >>= λ h.
    let searched = property_defined_at_or_below db new (str_hash new) oid >>= λ below.
    let renamed = rename_def db oid new i in if below then ok (false, db) else renamed in
    if is_missing h.0 then searched else ok (false, db)

abbrev pub where_found : Db → Option ℕ → (ℕ → Outcome (Bool × Db)) → Outcome (Bool × Db)
where_found db none f = ok (false, db)
where_found db (some i) f = f i

unfoldable pub db_rename_propdef : Db → Objid → List ℕ → List ℕ → Outcome (Bool × Db)
unfolding find_def rename_checked rename_def
db_rename_propdef db oid old new = at db oid >>= λ o.
    where_found db (find_def (str_hash old) old 0 o.propdefs)
      (λ i. if strcasecmp_eq old new then rename_def db oid new i else rename_checked db oid new i)

unfoldable pub remove_prop : Db → Objid → ℕ → Outcome Db
unfolding read_slots
remove_prop db oid at_pos = at db oid >>= λ o. dbpriv_count_properties db oid >>= λ nprops.
    from_option (get_elem? o.propval at_pos) >>= λ deleted.
    let removed = read_slots o.propval 0 at_pos >>= λ front.
    read_slots o.propval (at_pos + 1) (nprops - at_pos) >>= λ back.
    store db oid (λ o. record o { propval = front ++ back; waif_propdefs = none }) in
    if nprops == 0
    then store db oid (λ o. record o { propval = []; waif_propdefs = none })
    else if leb at_pos nprops
    then removed
    else fault

abbrev pub remove_below : ℕ → Objid → Db → Outcome (ℕ × Db)
remove_below parent_pos c db = at db c >>= λ o.
    remove_prop db c (length o.propdefs + parent_pos) >>= λ db'.
    ok (length o.propdefs + parent_pos, db')

unfoldable pub remove_prop_recursively : Db → Objid → ℕ → Outcome Db
unfolding remove_prop descend
remove_prop_recursively db root root_pos = remove_prop db root root_pos >>= λ db'.
    at db' root >>= λ o. descend (rounds db) remove_below root_pos o.child db'

abbrev pub without_def : ℕ → List Propdef → List Propdef
without_def i [] = []
without_def zero (def ∷ defs) = defs
without_def (suc i) (def ∷ defs) = def ∷ without_def i defs

-- A capacity above 8 of which at most three eighths are used is halved.
abbrev pub shrunk : ℕ → ℕ → ℕ
shrunk cur max = if ltb 8 max && leb cur (max * 3 / 8) then max / 2 else max

unfoldable pub db_delete_propdef : Db → Objid → List ℕ → Outcome (Bool × Db)
unfolding find_def remove_prop_recursively
db_delete_propdef db oid pname = at db oid >>= λ o.
    where_found db (find_def (str_hash pname) pname 0 o.propdefs) (λ i.
      store db oid (λ o. record o {
        max_propdefs = shrunk (length o.propdefs) o.max_propdefs;
        propdefs = without_def i o.propdefs;
      })
      >>= λ db'. remove_prop_recursively db' oid i >>= λ db''. ok (true, db''))
