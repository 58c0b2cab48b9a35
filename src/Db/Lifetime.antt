-- ===== src/Db/Lifetime.antt =====
-- db_objects.c: destruction of objects, and what creation and destruction do to the table.
use wp_lambdamoo.Prelude.{
  [], ℕ, suc, ◌+◌, ◌≤◌, ◌<◌, ◌≡◌, refl, inl, inr, Bool, true, false, ◌&&◌, Option, none, some, List,
  ◌++◌, arith, ltb, leb, ◌==◌, if◌then◌else◌, ==-refl, Bool-cases, length, take, drop, pos, negsuc,
  ◌==ℤ◌,
}
use wp_lambdamoo.Var.{Var, obj, Doubles, Objid, nothing}
use wp_lambdamoo.Lists.{setremove}
use wp_lambdamoo.Db.{
  Object, Db, find_object, valid, write_slot, new_object, ensure_new_object, dbpriv_new_object,
  db_create_object,
}
use wp_lambdamoo.Db.Outcomes.{Outcome, ok, panic, fault, ◌>>=◌}
use wp_lambdamoo.Lists.Sets.{setremove_cases}
use wp_lambdamoo.Db.Attributes.{is_user, or_panic, has_bit, flag_user, db_object_has_flag}

abbrev pub is_barren_orphan : Object → Bool
is_barren_orphan o =
    (o.location ==ℤ nothing)
    && (o.contents ==ℤ nothing)
    && (o.parent ==ℤ nothing)
    && (o.child ==ℤ nothing)

-- `objects[oid] = 0`
abbrev pub erase : Db → Objid → Db
erase db (negsuc n) = db
erase db (pos n) = record db { objects = write_slot db.objects n none }

-- The loop that frees the properties reads a value for each definition; the rest frees memory. The
-- cache of verbs is not in this state.
unfoldable pub db_destroy_object : Doubles → Db → Objid → Outcome Db
db_destroy_object fl db oid = or_panic (find_object db oid) >>= λ o.
    if is_barren_orphan o
    then (is_user db oid >>= λ user.
        (if user
          then (or_panic (setremove fl db.all_users (obj oid)) >>= λ users.
              ok (record db { all_users = users }))
          else ok db)
        >>= λ db'. if ltb (length o.propval) (length o.propdefs) then fault else ok (erase db' oid))
    else panic

-- Between operations the used part of the table is within its capacity.
abbrev pub IsWithin : Db → Type 0
IsWithin db = db.num_objects ≤ db.max_objects

ensure_num : (db : Db) → (ensure_new_object db).num_objects ≡ db.num_objects
unfolding ensure_new_object
ensure_num db = ground arith

ensure_room : (db : Db) → IsWithin db → db.num_objects + 1 ≤ (ensure_new_object db).max_objects
unfolding ensure_new_object
ensure_room db h = ground arith

ensure_keeps :
    (db : Db) (n : ℕ)
    → IsWithin db
    → n < db.num_objects
    → (ensure_new_object db).objects n ≡ db.objects n
unfolding ensure_new_object
ensure_keeps db n h lt = ground arith

slot_here : (objects : ℕ → Option Object) (n : ℕ) (o : Option Object) → write_slot objects n o n ≡ o
slot_here objects n o = rw (==-refl n)

find_created :
    (db : Db) (o : Object) → find_object (dbpriv_new_object db o) (pos db.num_objects) ≡ some o
unfolding dbpriv_new_object find_object
find_created db o =
    rw (ensure_num db)
      (ground (arith, slot_here (ensure_new_object db).objects db.num_objects (some o)))

find_other :
    (db : Db) (o : Object) (q : Objid)
    → IsWithin db
    → (pos db.num_objects ==ℤ q) ≡ false
    → find_object (dbpriv_new_object db o) q ≡ find_object db q
unfolding dbpriv_new_object find_object
find_other db o (negsuc k) h ne = refl
find_other db o (pos k) h ne = elim (Bool-cases (leb db.num_objects k)) [
  | inl out ↦ rw (ensure_num db) (ground arith)
  | inr within ↦
      let kept = ensure_keeps db k h (ground arith) in rw (ensure_num db, ne, kept) (ground arith)
]

-- What db_create_object makes of the block of memory with the owner `garbage`.
abbrev pub IsNew : Objid → Objid → Object → Type 0
IsNew oid garbage o =
    (o.id ≡ oid)
    × (o.owner ≡ garbage)
    × (o.name ≡ [])
    × (o.flags ≡ 0)
    × (o.parent ≡ negsuc 0)
    × (o.child ≡ negsuc 0)
    × (o.sibling ≡ negsuc 0)
    × (o.location ≡ negsuc 0)
    × (o.contents ≡ negsuc 0)
    × (o.next ≡ negsuc 0)
    × (o.verbdefs ≡ [])
    × (o.propdefs ≡ [])
    × (o.propval ≡ [])

-- On a table within its capacity db_create_object gives the first number behind the used part to a new
-- object: its parent, child, sibling, location, contents and next are #-1, its name is empty, its flags
-- are 0, it has no verbs, properties and values, and its owner is not set. The table stays within its
-- capacity, and the object of every other number is as it was.
pub db_create_object_lem :
    (db : Db) (garbage q : Objid)
    → IsWithin db
    → (pos db.num_objects ==ℤ q) ≡ false
    → ((db_create_object db garbage).0 ≡ pos db.num_objects)
      × IsWithin (db_create_object db garbage).1
      × ((o : Object) × (find_object (db_create_object db garbage).1 (pos db.num_objects) ≡ some o)
          × IsNew (pos db.num_objects) garbage o)
      × (find_object (db_create_object db garbage).1 q ≡ find_object db q)
unfolding db_create_object dbpriv_new_object
db_create_object_lem db garbage q h ne = (
  refl,
  rw (ensure_num db) (ensure_room db h),
  (
    record (new_object (pos db.num_objects)) { owner = garbage },
    find_created db (record (new_object (pos db.num_objects)) { owner = garbage }),
    (refl, refl, refl, refl, refl, refl, refl, refl, refl, refl, refl, refl, refl),
  ),
  find_other db (record (new_object (pos db.num_objects)) { owner = garbage }) q h ne,
)

erased :
    (db db' : Db) (oid q : Objid)
    → db'.objects ≡ db.objects
    → db'.num_objects ≡ db.num_objects
    → find_object (erase db' oid) q ≡ (if oid ==ℤ q then none else find_object db q)
unfolding find_object
erased db db' (negsuc n) (negsuc k) e e' = ground arith
erased db db' (negsuc n) (pos k) e e' = rw (e, e')
erased db db' (pos n) (negsuc k) e e' = ground arith
erased db db' (pos n) (pos k) e e' =
    rw (e, e') (slot_or_out (n == k) (leb db.num_objects k) (db.objects k))
  where
    slot_or_out :
        (b out : Bool) (o : Option Object)
        → (if out then none else (if b then none else o))
          ≡ (if b then none else if out then none else o)
    slot_or_out true true o = refl
    slot_or_out true false o = refl
    slot_or_out false true o = refl
    slot_or_out false false o = refl

is_user_found :
    (db : Db) (oid : Objid) (o : Object)
    → find_object db oid ≡ some o
    → is_user db oid ≡ ok (has_bit o.flags flag_user)
unfolding is_user valid db_object_has_flag
is_user_found db oid o e = rw e

setremove_answers :
    (fl : Doubles) (users : List Var) (oid : Objid)
    → (r : List Var) × (setremove fl users (obj oid) ≡ some r)
setremove_answers fl users oid = elim (setremove_cases fl users (obj oid) tt) [
  | inl (absent, e) ↦ (users, e)
  | inr (k, first, e) ↦ (take k users ++ drop (suc k) users, e)
]

enough :
    (o : Object)
    → length o.propdefs ≤ length o.propval
    → ltb (length o.propval) (length o.propdefs) ≡ false
enough o h = ground arith

-- A valid object that has no parent, children, location or contents, and a value for each of its
-- properties, is destroyed without a panic or a fault: its number is not valid any more, and the object
-- of every other number is as it was.
pub db_destroy_object_lem :
    (fl : Doubles) (db : Db) (oid q : Objid) (o : Object)
    → find_object db oid ≡ some o
    → is_barren_orphan o ≡ true
    → length o.propdefs ≤ length o.propval
    → (db' : Db) × (db_destroy_object fl db oid ≡ ok db')
      × (find_object db' q ≡ (if oid ==ℤ q then none else find_object db q))
unfolding db_destroy_object
db_destroy_object_lem fl db oid q o e barren h = elim (Bool-cases (has_bit o.flags flag_user)) [
  | inl user ↦
      let (users, removed) = setremove_answers fl db.all_users oid in
      let db₁ : Db = record db { all_users = users } in
      (
        erase db₁ oid,
        rw (e, barren, is_user_found db oid o e, user, removed, enough o h),
        erased db db₁ oid q refl refl,
      )
  | inr no_user ↦ (
    erase db oid,
    rw (e, barren, is_user_found db oid o e, no_user, enough o h),
    erased db db oid q refl refl,
  )
]
