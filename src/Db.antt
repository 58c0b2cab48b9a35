-- ===== src/Db.antt =====
-- db_private.h and db_objects.c: the table of objects and its two families of intrusive lists.
pub mod Outcomes
pub mod Links
pub mod Attributes
pub mod Location
pub mod Counts
pub mod Lifetime
mod Tests
use wp_lambdamoo.Prelude.{
  ℕ, zero, suc, ◌+◌, ◌-◌, ◌*◌, ◌/◌, ◌%◌, ◌^◌, ◌≤◌, ◌<◌, ◌≡◌, refl, sym, ap, ◌∙◌, ◌≢◌, ◌↔◌, ◌⊎◌, inl,
  inr, Bool, true, false, not, ◌&&◌, ◌||◌, Option, none, some, List, [], ◌∷◌, ◌++◌, map,
  append_assoc, append-nil, arith, ltb, leb, ◌==◌, if◌then◌else◌, ltb→lt, lt→ltb, leb→le, ==_iff,
  ==-refl, Bool-cases, Option-cases, every, every_at, length, get_elem?, set, take, drop,
  length-append, length-take, length-drop, take-append-drop, drop-append, take-append, All, ℤ, pos,
  negsuc, pos_part, neg_part, sub_ℕ, ◌+ℤ◌, ◌-ℤ◌, ◌*ℤ◌, ◌≤ℤ◌, leb_ℤ, ltb_ℤ, ◌==ℤ◌, ==ℤ_iff, ==ℤ-refl,
  drop-nil, take-nil, pred_pos, pred_negsuc, suc-ne-zero, take_all, drop_all, succ_pos, sub_pos,
  drop-drop,
}
use wp_lambdamoo.Var.{Var, obj, Doubles, Objid, nothing}
use wp_lambdamoo.Lists.{setadd, setremove}
use Outcomes.{Outcome, ok, panic, fault, ◌>>=◌, from_option}

-- struct Verbdef, with the address of its block, by which handles know it. Its program is known by
-- its address too, none for a verb that has no code.
pub record Verbdef : Type 0 where
  pub address : ℕ
  pub name : List ℕ
  pub program : Option ℕ
  pub owner : Objid
  pub perms : ℕ
  pub prep : ℤ

-- struct Propdef
pub record Propdef : Type 0 where
  pub name : List ℕ
  pub hash : ℕ

-- struct Pval
pub record Pval : Type 0 where
  pub var : Var
  pub owner : Objid
  pub perms : ℕ

-- struct Object. `propdefs` is the array of the used entries, `max_propdefs` its capacity,
-- and `waif_propdefs` an address.
pub record Object : Type 0 where
  pub id : Objid
  pub owner : Objid
  pub location : Objid
  pub contents : Objid
  pub next : Objid
  pub parent : Objid
  pub child : Objid
  pub sibling : Objid
  pub name : List ℕ
  pub flags : ℕ
  pub verbdefs : List Verbdef
  pub propdefs : List Propdef
  pub max_propdefs : ℕ
  pub propval : List Pval
  pub waif_propdefs : Option ℕ

-- The static variables of db_objects.c: the table, as a function of the index, and its two sizes.
pub record Db : Type 0 where
  pub objects : ℕ → Option Object
  pub num_objects : ℕ
  pub max_objects : ℕ
  pub all_users : List Var

-- dbpriv_find_object
unfoldable pub find_object : Db → Objid → Option Object
find_object db (negsuc n) = none
find_object db (pos n) = if leb db.num_objects n then none else db.objects n

abbrev pub is_some {ℓ} : {A : Type ℓ} → Option A → Bool
is_some none = false
is_some (some a) = true

unfoldable pub valid : Db → Objid → Bool
unfolding find_object
valid db oid = is_some (find_object db oid)

-- `objects[oid]->`: a fault where there is no object.
abbrev pub at : Db → Objid → Outcome Object
at db oid = from_option (find_object db oid)

abbrev pub write_slot : (ℕ → Option Object) → ℕ → Option Object → ℕ → Option Object
write_slot objects n o m = if n == m then o else objects m

abbrev pub put : Db → Objid → Object → Db
put db (negsuc n) o = db
put db (pos n) o = record db { objects = write_slot db.objects n (some o) }

-- `objects[oid]->f = ...`
unfoldable pub store : Db → Objid → (Object → Object) → Outcome Db
store db oid f = do o ← at db oid; ok (put db oid (f o))

unfoldable pub db_last_used_objid : Db → Objid
db_last_used_objid db = pos db.num_objects -ℤ pos 1

-- The loop of `db_reset_last_used_objid`; a table with no object at all is read in front of its start.
unfoldable pub reset_from : (ℕ → Option Object) → ℕ → Outcome ℕ
reset_from objects zero = fault
reset_from objects (suc n) =
    let rest = reset_from objects n in if is_some (objects n) then ok (suc n) else rest

unfoldable pub db_reset_last_used_objid : Db → Outcome Db
unfolding reset_from
db_reset_last_used_objid db = do
  n ← reset_from db.objects db.num_objects
  ok (record db { num_objects = n })

-- The new table has what the old one had at each index below `max_objects`.
unfoldable pub ensure_new_object : Db → Db
ensure_new_object db =
    let max = if db.max_objects == 0 then 100 else db.max_objects in
    if leb max db.num_objects
    then record db {
      objects = λ n. if ltb n max then db.objects n else none;
      max_objects = max * 2;
    }
    else record db { max_objects = max }

-- dbpriv_new_object, with the fields that `db_create_object` fills in.
abbrev pub new_object : Objid → Object
new_object oid = record {
  id = oid;
  owner = nothing;
  location = nothing;
  contents = nothing;
  next = nothing;
  parent = nothing;
  child = nothing;
  sibling = nothing;
  name = [];
  flags = 0;
  verbdefs = [];
  propdefs = [];
  max_propdefs = 0;
  propval = [];
  waif_propdefs = none;
}

unfoldable pub dbpriv_new_object : Db → Object → Db
unfolding ensure_new_object
dbpriv_new_object db o =
    let db' = ensure_new_object db in
    record db' {
      objects = write_slot db'.objects db'.num_objects (some o);
      num_objects = db'.num_objects + 1;
    }

unfoldable pub dbpriv_new_recycled_object : Db → Db
unfolding ensure_new_object
dbpriv_new_recycled_object db =
    let db' = ensure_new_object db in
    record db' {
      objects = write_slot db'.objects db'.num_objects none;
      num_objects = db'.num_objects + 1;
    }

-- db_create_object does not set `owner`: the caller's block of memory has some owner already.
unfoldable pub db_create_object : Db → Objid → Objid × Db
unfolding dbpriv_new_object
db_create_object db garbage =
    let oid = pos db.num_objects in
    (oid, dbpriv_new_object db (record (new_object oid) { owner = garbage }))
