-- ===== src/Properties/Values.antt =====
-- db_properties.c: the values, owners and flags of properties, built-in or in a slot.
use wp_lambdamoo.Properties.{
  bp_name, bp_owner, bp_programmer, bp_wizard, bp_r, bp_w, bp_f, bp_location, bp_contents,
}
use wp_lambdamoo.Strings.{str_hash}
use wp_lambdamoo.Verbs.{rounds}
use wp_lambdamoo.Db.Attributes.{
  db_object_location, flag_fertile, flag_write, db_clear_object_flag, flag_read,
  db_for_all_contents, is_wizard, db_object_owner, db_set_object_flag, flag_wizard,
  db_object_has_flag, db_count_contents, db_object_name, db_set_object_name, db_set_object_owner,
  flag_programmer,
}
use wp_lambdamoo.Db.Outcomes.{◌>>=◌, from_option, fault, panic, ok, Outcome}
use wp_lambdamoo.Db.{find_object, store, at, Db, Pval}
use Prim.Native.Nat.{bit_and}
use wp_lambdamoo.Prelude.{
  ◌-◌, ◌+◌, ltb, ℕ, zero, suc, ◌%◌, ◌^◌, Bool, true, false, not, Option, none, some, List, [], ◌∷◌,
  ◌==◌, if◌then◌else◌, get_elem?, pos, ◌==ℤ◌,
}
use wp_lambdamoo.Var.{is_true, Var, Vars, int, obj, str, list, nil, cons, Doubles, Objid}
use wp_lambdamoo.Properties.{
  ptable, resolve, find_slot, find_built_in, BiProp, PropHandle, built_in, slot, missing,
}

abbrev pub snoc_obj : Vars → Objid → Vars
snoc_obj nil c = cons (obj c) nil
snoc_obj (cons v vs) c = cons v (snoc_obj vs c)

-- The elements that db_for_all_contents gives add_to_list, in the list that it fills.
unfoldable pub contents_list : Db → Objid → Outcome Vars
contents_list db oid = db_count_contents db oid >>= λ n.
    db_for_all_contents (λ vs c. ok (false, snoc_obj vs c)) db oid nil >>= λ r. ok r.1

abbrev pub flag_value : Db → Objid → ℕ → Outcome Var
flag_value db oid flag =
    db_object_has_flag db oid flag >>= λ b. ok (int (if b then pos 1 else pos 0))

unfoldable pub get_bi_value : Db → BiProp → Objid → Outcome Var
unfolding contents_list
get_bi_value db bp_name oid = db_object_name db oid >>= λ name. ok (str name)
get_bi_value db bp_owner oid = db_object_owner db oid >>= λ owner. ok (obj owner)
get_bi_value db bp_programmer oid = flag_value db oid flag_programmer
get_bi_value db bp_wizard oid = flag_value db oid flag_wizard
get_bi_value db bp_r oid = flag_value db oid flag_read
get_bi_value db bp_w oid = flag_value db oid flag_write
get_bi_value db bp_f oid = flag_value db oid flag_fertile
get_bi_value db bp_location oid = db_object_location db oid >>= λ location. ok (obj location)
get_bi_value db bp_contents oid = contents_list db oid >>= λ vs. ok (list vs)

-- The handle that db_find_property returns, and the value where one is asked for.
abbrev pub found_slot : Db → Objid → Bool → Option (Objid × ℕ) → Outcome (PropHandle × Option Var)
found_slot db oid wanted none = ok (missing, none)
found_slot db oid wanted (some (definer, n)) =
    if wanted
    then (resolve (rounds db) db n (find_object db oid) >>= λ value.
        ok (slot definer oid n, some value))
    else ok (slot definer oid n, none)

abbrev pub found_built_in : Db → Objid → Bool → BiProp → Outcome (PropHandle × Option Var)
found_built_in db oid wanted prop =
    if wanted
    then (get_bi_value db prop oid >>= λ value. ok (built_in prop oid, some value))
    else ok (built_in prop oid, none)

abbrev pub built_in_or :
    Db
    → Objid
    → Bool
    → Option BiProp
    → Outcome (PropHandle × Option Var)
    → Outcome (PropHandle × Option Var)
built_in_or db oid wanted none searched = searched
built_in_or db oid wanted (some prop) searched = found_built_in db oid wanted prop

unfoldable pub db_find_property : Db → Objid → List ℕ → Bool → Outcome (PropHandle × Option Var)
unfolding find_built_in find_slot resolve get_bi_value
db_find_property db oid name wanted =
    built_in_or db oid wanted (find_built_in (str_hash name) name ptable) (
      find_slot (rounds db) db (str_hash name) name 0 (find_object db oid) >>= λ found.
      found_slot db oid wanted found)

-- `Pval *prop = h.ptr`
unfoldable pub pval_at : Db → Objid → ℕ → Outcome Pval
pval_at db oid n = at db oid >>= λ o. from_option (get_elem? o.propval n)

abbrev pub change_pval : (Pval → Pval) → ℕ → List Pval → List Pval
change_pval f n [] = []
change_pval f zero (pv ∷ pvs) = f pv ∷ pvs
change_pval f (suc n) (pv ∷ pvs) = pv ∷ change_pval f n pvs

unfoldable pub write_pval : Db → Objid → ℕ → (Pval → Pval) → Outcome Db
unfolding pval_at
write_pval db oid n f =
    pval_at db oid n >>= λ pv. store db oid (λ o. record o { propval = change_pval f n o.propval })

unfoldable pub db_property_value : Db → PropHandle → Outcome Var
db_property_value db (built_in prop oid) = get_bi_value db prop oid
db_property_value db (slot definer oid n) = pval_at db oid n >>= λ pv. ok pv.var
db_property_value db missing = fault

abbrev pub set_flag_value : Doubles → Db → Objid → ℕ → Var → Outcome Db
set_flag_value fl db oid flag value =
    if is_true fl value
    then db_set_object_flag fl db oid flag
    else db_clear_object_flag fl db oid flag

abbrev pub set_name_value : Db → Objid → Var → Outcome Db
set_name_value db oid (str name) = db_set_object_name db oid name
set_name_value db oid _ = panic

abbrev pub set_owner_value : Db → Objid → Var → Outcome Db
set_owner_value db oid (obj owner) = db_set_object_owner db oid owner
set_owner_value db oid _ = panic

unfoldable pub db_set_property_value : Doubles → Db → PropHandle → Var → Outcome Db
db_set_property_value fl db (built_in bp_name oid) value = set_name_value db oid value
db_set_property_value fl db (built_in bp_owner oid) value = set_owner_value db oid value
db_set_property_value fl db (built_in bp_programmer oid) value =
    set_flag_value fl db oid flag_programmer value
db_set_property_value fl db (built_in bp_wizard oid) value =
    set_flag_value fl db oid flag_wizard value
db_set_property_value fl db (built_in bp_r oid) value = set_flag_value fl db oid flag_read value
db_set_property_value fl db (built_in bp_w oid) value = set_flag_value fl db oid flag_write value
db_set_property_value fl db (built_in bp_f oid) value = set_flag_value fl db oid flag_fertile value
db_set_property_value fl db (built_in bp_location oid) value = panic
db_set_property_value fl db (built_in bp_contents oid) value = panic
db_set_property_value fl db (slot definer oid n) value =
    write_pval db oid n (λ pv. record pv { var = value })
db_set_property_value fl db missing value = fault

unfoldable pub db_property_owner : Db → PropHandle → Outcome Objid
db_property_owner db (built_in prop oid) = panic
db_property_owner db (slot definer oid n) = pval_at db oid n >>= λ pv. ok pv.owner
db_property_owner db missing = fault

unfoldable pub db_set_property_owner : Db → PropHandle → Objid → Outcome Db
db_set_property_owner db (built_in prop oid) owner = panic
db_set_property_owner db (slot definer oid n) owner =
    write_pval db oid n (λ pv. record pv { owner = owner })
db_set_property_owner db missing owner = fault

-- The short that is returned as unsigned keeps its sign.
abbrev pub extended : ℕ → ℕ
extended perms = if ltb perms (2 ^ 15) then perms else perms + 2 ^ 32 - 2 ^ 16

unfoldable pub db_property_flags : Db → PropHandle → Outcome ℕ
db_property_flags db (built_in prop oid) = panic
db_property_flags db (slot definer oid n) = pval_at db oid n >>= λ pv. ok (extended pv.perms)
db_property_flags db missing = fault

-- The flags go to a short.
unfoldable pub db_set_property_flags : Db → PropHandle → ℕ → Outcome Db
db_set_property_flags db (built_in prop oid) flags = panic
db_set_property_flags db (slot definer oid n) flags =
    write_pval db oid n (λ pv. record pv { perms = flags % 2 ^ 16 })
db_set_property_flags db missing flags = fault

unfoldable pub db_property_allows : Db → PropHandle → Objid → ℕ → Outcome Bool
db_property_allows db h progr flag = do
  flags ← db_property_flags db h
  if not (bit_and flags flag == 0) then ok true else (do
    owner ← db_property_owner db h
    if progr ==ℤ owner then ok true else is_wizard db progr)
