-- ===== src/Properties/Parents.antt =====
-- db_properties.c and db_objects.c: the change of an object's parent, with the slots of the
-- properties that it and its descendants gain and lose; and the renumbering of an object.
use wp_lambdamoo.Db.Links.{ll_append, child_links, ll_remove}
use wp_lambdamoo.Properties.{dbpriv_count_properties}
use wp_lambdamoo.Verbs.Cache.{db_priv_affected_callable_verb_lookup, Cache}
use wp_lambdamoo.Verbs.{rounds}
use wp_lambdamoo.Db.Attributes.{db_object_parent}
use wp_lambdamoo.Properties.Definitions.{
  property_defined_at_or_below, owned_by, read_slots, from_root,
}
use wp_lambdamoo.Db.{store, Propdef, find_object, at, Object, Db, Pval}
use wp_lambdamoo.Prelude.{
  ℕ, zero, suc, ◌+◌, ◌-◌, Bool, true, false, ◌&&◌, Option, none, some, List, [], ◌∷◌, ◌++◌, map,
  ◌==◌, if◌then◌else◌, length, ◌==ℤ◌,
}
use wp_lambdamoo.Var.{Objid, nothing, clear}
use wp_lambdamoo.Db.Outcomes.{Outcome, ok, fault, ◌>>=◌}

-- The slot of an inherited property on an object that becomes a descendant.
abbrev pub inherited : Objid → Pval → Pval
inherited owner pv = record (owned_by owner pv) { var = clear }

abbrev pub parent_slots : Db → Object → ℕ → ℕ → Outcome (List Pval)
parent_slots db me parent_local new =
    if new == 0
    then ok []
    else (at db me.parent >>= λ parent. read_slots parent.propval parent_local new)

-- The visit of `fix_props`, which hands `local` down.
unfoldable pub fix_slots : ℕ → ℕ → ℕ → ℕ → Objid → Db → Outcome (ℕ × Db)
unfolding read_slots
fix_slots old new common parent_local oid db = at db oid >>= λ me.
    let local = parent_local + length me.propdefs in
    read_slots me.propval local old >>= λ freed. read_slots me.propval 0 local >>= λ own.
    parent_slots db me parent_local new >>= λ gained.
    read_slots me.propval (local + old) common >>= λ kept.
    store db oid (λ o. record o {
      propval = own ++ map (inherited me.owner) gained ++ kept;
      waif_propdefs = none;
    })
    >>= λ db'. ok (local, db')

unfoldable pub fix_props : Db → Objid → ℕ → ℕ → ℕ → ℕ → Outcome Db
unfolding fix_slots from_root
fix_props db oid parent_local old new common =
    from_root (fix_slots old new common) parent_local oid db

-- Whether `oid` or a descendant defines one of the properties.
unfoldable pub any_defined : Db → Objid → List Propdef → Outcome Bool
any_defined db oid [] = ok false
any_defined db oid (def ∷ defs) =
    let rest = any_defined db oid defs in
    property_defined_at_or_below db def.name def.hash oid >>= λ b. if b then ok true else rest

unfoldable pub check_ancestors : ℕ → Db → Objid → Option Object → Outcome Bool
unfolding any_defined
check_ancestors zero db oid o = fault
check_ancestors (suc fuel) db oid none = ok true
check_ancestors (suc fuel) db oid (some o) =
    let rest = check_ancestors fuel db oid (find_object db o.parent) in
    any_defined db oid o.propdefs >>= λ b. if b then ok false else rest

unfoldable pub dbpriv_check_properties_for_chparent : Db → Objid → Objid → Outcome Bool
unfolding check_ancestors
dbpriv_check_properties_for_chparent db oid new_parent =
    check_ancestors (rounds db) db oid (find_object db new_parent)

-- Whether `o1` is among `o2` and its ancestors.
unfoldable pub is_on_line : ℕ → Db → Objid → Objid → Outcome Bool
is_on_line zero db o1 o2 = fault
is_on_line (suc fuel) db o1 o2 =
    let rest = at db o2 >>= λ o. is_on_line fuel db o1 o.parent in
    if o2 ==ℤ nothing then ok false else if o1 ==ℤ o2 then ok true else rest

-- The nearest of `o1` and its ancestors that is among `old_parent` and its ancestors, or NOTHING.
unfoldable pub common_loop : ℕ → Db → Objid → Objid → Outcome Objid
unfolding is_on_line
common_loop zero db old_parent o1 = fault
common_loop (suc fuel) db old_parent o1 =
    let rest = at db o1 >>= λ o. common_loop fuel db old_parent o.parent in
    let found = is_on_line (rounds db) db o1 old_parent >>= λ b. if b then ok o1 else rest in
    if o1 ==ℤ nothing then ok nothing else found

-- The counts of the old and the new parent contain those of their common ancestor.
unfoldable pub dbpriv_fix_properties_after_chparent : Db → Objid → Objid → Outcome Db
unfolding common_loop fix_props
dbpriv_fix_properties_after_chparent db oid old_parent = db_object_parent db oid >>= λ new_parent.
    common_loop (rounds db) db old_parent new_parent >>= λ common.
    (if common ==ℤ nothing then ok 0 else dbpriv_count_properties db common) >>= λ common_props.
    dbpriv_count_properties db old_parent >>= λ old_count.
    dbpriv_count_properties db new_parent >>= λ new_count.
    fix_props db oid 0 (old_count - common_props) (new_count - common_props) common_props

-- An object without children and verbs is no key of the cache and no ancestor of one.
abbrev pub chparent_cache : Object → Cache → Cache
chparent_cache o c =
    if (o.child ==ℤ nothing) && (length o.verbdefs == 0)
    then c
    else db_priv_affected_callable_verb_lookup c

-- The part of db_change_parent below its check.
unfoldable pub move_to_parent : Db → Cache → Objid → Objid → Outcome (Bool × Db × Cache)
unfolding dbpriv_fix_properties_after_chparent
move_to_parent db c oid parent = at db oid >>= λ o.
    (if o.parent ==ℤ nothing then ok db else ll_remove child_links o.parent oid db) >>= λ db₁.
    (if parent ==ℤ nothing then ok db₁ else ll_append child_links parent oid db₁) >>= λ db₂.
    store db₂ oid (λ o. record o { parent = parent }) >>= λ db₃.
    dbpriv_fix_properties_after_chparent db₃ oid o.parent >>= λ db₄.
    ok (true, db₄, chparent_cache o c)

-- 0 where a property of the new ancestors is defined on the object or below; else 1.
unfoldable pub db_change_parent : Db → Cache → Objid → Objid → Outcome (Bool × Db × Cache)
unfolding dbpriv_check_properties_for_chparent move_to_parent
db_change_parent db c oid parent = dbpriv_check_properties_for_chparent db oid parent >>= λ allowed.
    if allowed then move_to_parent db c oid parent else ok (false, db, c)
