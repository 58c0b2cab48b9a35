-- ===== src/Properties/Tests.antt =====
-- The theorems on properties at the sample table, and runs of the routines.
use wp_lambdamoo.Properties.BuiltIn.{get_bi_value_lem, built_in_value}
use wp_lambdamoo.Verbs.Runs.{no_cache-IsSound}
use wp_lambdamoo.Verbs.Coherent.{Coherent}
use wp_lambdamoo.Properties.Reparented.{db_change_parent-Coherent, KnowsChildren}
use wp_lambdamoo.Db.Attributes.{db_object_parent}
use wp_lambdamoo.Verbs.Cache.{Cache, no_cache}
use wp_lambdamoo.Db.Links.{ll_remove}
use wp_lambdamoo.Properties.Parents.{db_change_parent}
use wp_lambdamoo.Properties.Definitions.{
  remove_prop, db_delete_propdef, insert_prop, db_add_propdef,
}
use wp_lambdamoo.Properties.Stored.{db_property_value-db_set_property_value}
use wp_lambdamoo.Strings.Literals.{ascii}
use wp_lambdamoo.Strings.{mystrcasecmp, str_hash}
use wp_lambdamoo.Properties.{
  BiProp, is_missing, dbpriv_count_properties, PropHandle, ptable, slot, is_clear, find_built_in,
}
use wp_lambdamoo.Properties.Resolved.{db_find_property_lem, Answered}
use wp_lambdamoo.Properties.Values.{
  get_bi_value, db_property_flags, db_property_owner, db_property_value, db_set_property_value,
  db_find_property, pval_at,
}
use wp_lambdamoo.Verbs.Sample.{
  world-Lines, world-AreLists, contents_of, world-Line, world-Numbered, beyond, box, room, world,
}
use wp_lambdamoo.Verbs.Lines.{Line}
use wp_lambdamoo.Properties.Found.{Rooted, total, Filled}
use wp_lambdamoo.Db.{store, at, valid, Db, Pval, find_object, Object}
use wp_lambdamoo.Prelude.{
  clash, not, ◌&&◌, ◌==ℤ◌, Bool, ◌==◌, ℕ, zero, suc, ◌<◌, ◌≡◌, refl, sym, ap, ◌∙◌, true, false,
  none, some, List, [], ◌∷◌, arith, length, get_elem?, pos, negsuc, ◌-ℤ◌, some_injective, none-some,
}
use wp_lambdamoo.Var.{Objid, int, clear, Doubles, nothing}
use wp_lambdamoo.Db.Outcomes.{◌>>=◌, Outcome, fault, ok, panic}

no_parent : (os : List Object) → Line os world none → os ≡ []
no_parent [] l = refl
no_parent (x ∷ os) (e, l) = absurd (none-some e)

nowhere : find_object world nothing ≡ none
unfolding find_object
nowhere = refl

only_root : (os : List Object) → Line os world (some room) → os ≡ room ∷ []
only_root [] l = absurd (none-some (sym l))
only_root (x ∷ os) (e, l) =
    let q = some_injective e in
    coe 0 1 (i. Line os world (find_object world (q i).parent) → q i ∷ os ≡ room ∷ [])
      (λ k. ap (λ r. room ∷ r) (no_parent os (rw nowhere at k))) l

abbrev FilledAt : Object → List Object → Type 0
FilledAt o os = Line os world (find_object world o.parent) → length o.propval ≡ total (o ∷ os)

room-filled : (os : List Object) → FilledAt room os
room-filled os l = rw (no_parent os (rw nowhere at l))

box-filled : (os : List Object) → FilledAt box os
box-filled os l = rw (only_root os (unfold find_object in l))

world-Filled : Filled world
unfolding find_object
world-Filled (pos zero) o os e l = coe 0 1 (i. FilledAt (some_injective e i) os) (room-filled os) l
world-Filled (pos (suc zero)) o os e l =
    coe 0 1 (i. FilledAt (some_injective e i) os) (box-filled os) l
world-Filled (pos (suc (suc n))) o os e l = absurd (none-some (sym (beyond n) ∙ e))
world-Filled (negsuc n) o os e l = cc

abbrev RootedAt : Object → ℕ → Pval → Type 0
RootedAt o i pv = i < length o.propdefs → get_elem? o.propval i ≡ some pv → is_clear pv.var ≡ false

room-rooted : (i : ℕ) (pv : Pval) → RootedAt room i pv
room-rooted zero pv h e = ap (λ v. is_clear v.var) (some_injective (sym e))
room-rooted (suc i) pv h e = absurd (omega arith)

box-rooted : (i : ℕ) (pv : Pval) → RootedAt box i pv
box-rooted i pv h e = absurd (omega arith)

world-Rooted : Rooted world
unfolding find_object
world-Rooted (pos zero) o i pv e =
    coe 0 1 (j. RootedAt (some_injective e j) i pv) (room-rooted i pv)
world-Rooted (pos (suc zero)) o i pv e =
    coe 0 1 (j. RootedAt (some_injective e j) i pv) (box-rooted i pv)
world-Rooted (pos (suc (suc n))) o i pv e = absurd (none-some (sym (beyond n) ∙ e))
world-Rooted (negsuc n) o i pv e = cc

not_built_in : find_built_in (str_hash (ascii "Weight")) (ascii "Weight") ptable ≡ none
unfolding find_built_in str_hash mystrcasecmp ◌-ℤ◌
not_built_in = refl

db_find_property_lem_example : Answered world (pos 1) (ascii "Weight") (box ∷ room ∷ [])
db_find_property_lem_example =
    db_find_property_lem world (pos 1) (ascii "Weight") (box ∷ room ∷ []) world-Numbered
      world-Filled world-Rooted (world-Line (pos 1)) not_built_in

-- The value of a clear slot is the parent's.
weight_found :
    db_find_property world (pos 1) (ascii "Weight") true
    ≡ ok (slot (pos 0) (pos 1) 0, some (int (pos 3)))
unfolding db_find_property find_object str_hash mystrcasecmp ◌-ℤ◌
weight_found = refl

box_slot : pval_at world (pos 1) 0 ≡ ok (record { var = clear; owner = pos 0; perms = 1 })
unfolding pval_at find_object
box_slot = refl

abbrev doubles : Doubles
doubles = record { feq = λ a b. a == b; fzero = 0 }

abbrev cleared_slot : Pval
cleared_slot = record { var = clear; owner = pos 0; perms = 1 }

abbrev weight_slot : PropHandle
weight_slot = slot (pos 0) (pos 1) 0

db_property_value-db_set_property_value_example :
    (db' : Db) × (db_set_property_value doubles world weight_slot (int (pos 5)) ≡ ok db')
    × (db_property_value db' weight_slot ≡ ok (int (pos 5)))
    × (db_property_owner db' weight_slot ≡ db_property_owner world weight_slot)
    × (db_property_flags db' weight_slot ≡ db_property_flags world weight_slot)
    × ((q : Objid) (k : ℕ)
        → ((pos 1 ==ℤ q) && (0 == k)) ≡ false
        → pval_at db' q k ≡ pval_at world q k)
db_property_value-db_set_property_value_example =
    db_property_value-db_set_property_value doubles world (pos 0) (pos 1) 0 (int (pos 5))
      cleared_slot box_slot

room_valid : valid world (pos 0) ≡ true
unfolding valid find_object
room_valid = refl

get_bi_value_lem_example :
    (o : Object) × (find_object world (pos 0) ≡ some o)
    × ((prop : BiProp) → get_bi_value world prop (pos 0) ≡ ok (built_in_value o (pos 1 ∷ []) prop))
get_bi_value_lem_example = get_bi_value_lem world contents_of (pos 0) world-AreLists room_valid

-- The definition of a property on #0 gives a slot to it and a clear one to its child, and its
-- deletion takes both away.
abbrev added : Outcome Bool
added = db_add_propdef world (pos 0) (ascii "key") (int (pos 7)) (pos 0) 5 >>= λ r.
    db_find_property r.1 (pos 1) (ascii "key") true >>= λ h.
    db_delete_propdef r.1 (pos 0) (ascii "KEY") >>= λ d.
    at d.1 (pos 1) >>= λ o. ok (r.0 && d.0 && not (is_missing h.0) && (length o.propval == 1))

add_and_delete : added ≡ ok true
unfolding db_add_propdef find_object str_hash mystrcasecmp ◌-ℤ◌ insert_prop dbpriv_count_properties
    store db_delete_propdef remove_prop
add_and_delete = refl

-- A child loses the slots of its parent's properties with the parent.
abbrev orphaned : Outcome (Bool × ℕ)
orphaned = db_change_parent world no_cache (pos 1) nothing >>= λ r.
    at r.1 (pos 1) >>= λ o. ok (r.0, length o.propval)

without_parent : orphaned ≡ ok (true, 0)
unfolding db_change_parent find_object str_hash mystrcasecmp ◌-ℤ◌ ll_remove db_object_parent
    dbpriv_count_properties store
without_parent = refl

-- The change of parent of #1, which has neither children nor verbs and so leaves the cache.
abbrev returns {ℓ} : {A : Type ℓ} → Outcome A → Bool
returns (ok x) = true
returns _ = false

result {ℓ} : {A : Type ℓ} (m : Outcome A) → returns m ≡ true → (r : A) × (m ≡ ok r)
result (ok x) e = (x, refl)
result panic e = cc
result fault e = cc

box_returns : returns (db_change_parent world no_cache (pos 1) nothing) ≡ true
unfolding db_change_parent find_object str_hash mystrcasecmp ◌-ℤ◌ ll_remove db_object_parent
    dbpriv_count_properties store
box_returns = refl

moved_box : (r : Bool × Db × Cache) × (db_change_parent world no_cache (pos 1) nothing ≡ ok r)
moved_box = result (db_change_parent world no_cache (pos 1) nothing) box_returns

no_parent_of :
    (q : Objid) (x : Object) → find_object world q ≡ some x → (x.parent ==ℤ pos 1) ≡ false
unfolding find_object
no_parent_of (pos zero) x e = ap (λ y. y.parent ==ℤ pos 1) (some_injective (sym e))
no_parent_of (pos (suc zero)) x e = ap (λ y. y.parent ==ℤ pos 1) (some_injective (sym e))
no_parent_of (pos (suc (suc n))) x e = absurd (none-some (sym (beyond n) ∙ e))
no_parent_of (negsuc n) x e = cc

world-KnowsChildren : KnowsChildren world
unfolding find_object
world-KnowsChildren (pos zero) o e leaf =
    absurd (clash leaf (ap (λ y. y.child ==ℤ nothing) (some_injective (sym e))))
world-KnowsChildren (pos (suc zero)) o e leaf = no_parent_of
world-KnowsChildren (pos (suc (suc n))) o e leaf = absurd (none-some (sym (beyond n) ∙ e))
world-KnowsChildren (negsuc n) o e leaf = cc

db_change_parent-Coherent_example : Coherent moved_box.0.1 moved_box.0.2
db_change_parent-Coherent_example =
    db_change_parent-Coherent world no_cache (pos 1) nothing world-KnowsChildren
      (no_cache-IsSound world world-Numbered world-Lines).coherent moved_box.0 moved_box.1
