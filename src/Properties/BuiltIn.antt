-- ===== src/Properties/BuiltIn.antt =====
-- db_properties.c: the values of the built-in properties.
use wp_lambdamoo.Db.Links.{contents_links}
use wp_lambdamoo.Db.Links.Views.{AreLists}
use wp_lambdamoo.Db.Attributes.{
  db_for_all_contents, db_count_contents, db_object_location, db_object_owner, db_object_name,
  has_bit, db_object_has_flag,
}
use wp_lambdamoo.Db.{Object, find_object, valid, Db}
use wp_lambdamoo.Db.Counts.{db_for_all_lem, db_count_lem, visit}
use wp_lambdamoo.Properties.Values.{contents_list, flag_value, snoc_obj, get_bi_value}
use wp_lambdamoo.Prelude.{
  ◌∙◌, if◌then◌else◌, some, sym, ap, ℕ, ◌≡◌, refl, true, false, List, [], ◌∷◌, pos,
}
use wp_lambdamoo.Var.{Var, Vars, int, obj, str, list, nil, cons, Objid}
use wp_lambdamoo.Db.Outcomes.{ok}
use wp_lambdamoo.Properties.{
  BiProp, bp_name, bp_owner, bp_programmer, bp_wizard, bp_r, bp_w, bp_f, bp_location, bp_contents,
}

-- The elements of a list of contents.
abbrev pub objects_of : List Objid → Vars
objects_of [] = nil
objects_of (c ∷ cs) = cons (obj c) (objects_of cs)

-- 1 or 0, for the bit of the flags.
abbrev pub bit_value : Object → ℕ → Var
bit_value o k = int (if has_bit o.flags k then pos 1 else pos 0)

-- The value of each property of an object whose contents are `cs`; db_object_flag of db.h numbers the
-- bits.
abbrev pub built_in_value : Object → List Objid → BiProp → Var
built_in_value o cs bp_name = str o.name
built_in_value o cs bp_owner = obj o.owner
built_in_value o cs bp_programmer = bit_value o 1
built_in_value o cs bp_wizard = bit_value o 2
built_in_value o cs bp_r = bit_value o 4
built_in_value o cs bp_w = bit_value o 5
built_in_value o cs bp_f = bit_value o 7
built_in_value o cs bp_location = obj o.location
built_in_value o cs bp_contents = list (objects_of cs)

abbrev join : Vars → Vars → Vars
join nil ws = ws
join (cons v vs) ws = cons v (join vs ws)

join-nil : (vs : Vars) → join vs nil ≡ vs
join-nil nil = refl
join-nil (cons v vs) = ap (cons v) (join-nil vs)

join-snoc_obj :
    (vs : Vars) (c : Objid) (ws : Vars) → join (snoc_obj vs c) ws ≡ join vs (cons (obj c) ws)
join-snoc_obj nil c ws = refl
join-snoc_obj (cons v vs) c ws = ap (cons v) (join-snoc_obj vs c ws)

-- add_to_list, called on each element in turn, fills the list in order.
visit-snoc_obj :
    (qs : List Objid) (vs : Vars)
    → visit qs (λ vs c. ok (false, snoc_obj vs c)) vs ≡ ok (false, join vs (objects_of qs))
unfolding visit
visit-snoc_obj [] vs = ap (λ ws. ok (false, ws)) (sym (join-nil vs))
visit-snoc_obj (q ∷ qs) vs =
    visit-snoc_obj qs (snoc_obj vs q)
    ∙ ap (λ ws. ok (false, ws)) (join-snoc_obj vs q (objects_of qs))

flag_value-found :
    (db : Db) (oid : Objid) (flag : ℕ) (o : Object)
    → find_object db oid ≡ some o
    → flag_value db oid flag ≡ ok (bit_value o flag)
unfolding db_object_has_flag
flag_value-found db oid flag o found = rw found

built_in_found :
    (db : Db) (view : Objid → List Objid) (oid : Objid) (o : Object)
    → AreLists contents_links db view
    → valid db oid ≡ true
    → find_object db oid ≡ some o
    → (prop : BiProp) → get_bi_value db prop oid ≡ ok (built_in_value o (view oid) prop)
unfolding get_bi_value db_object_name db_object_owner db_object_location contents_list
    db_count_contents db_for_all_contents
built_in_found db view oid o lists v found bp_name = rw found
built_in_found db view oid o lists v found bp_owner = rw found
built_in_found db view oid o lists v found bp_location = rw found
built_in_found db view oid o lists v found bp_programmer = flag_value-found db oid 1 o found
built_in_found db view oid o lists v found bp_wizard = flag_value-found db oid 2 o found
built_in_found db view oid o lists v found bp_r = flag_value-found db oid 4 o found
built_in_found db view oid o lists v found bp_w = flag_value-found db oid 5 o found
built_in_found db view oid o lists v found bp_f = flag_value-found db oid 7 o found
built_in_found db view oid o lists v found bp_contents = rw (
  db_count_lem contents_links db view oid lists v,
  db_for_all_lem contents_links (λ ws c. ok (false, snoc_obj ws c)) db view oid nil lists v,
  visit-snoc_obj (view oid) nil,
)

-- On a table of well-formed lists of contents every built-in property of a valid object can be read:
-- name, owner and location are its own, programmer, wizard, r, w and f are 1 or 0 by the bits 1, 2, 4,
-- 5 and 7 of its flags, and contents are the objects on its list, in order.
pub get_bi_value_lem :
    (db : Db) (view : Objid → List Objid) (oid : Objid)
    → AreLists contents_links db view
    → valid db oid ≡ true
    → (o : Object) × (find_object db oid ≡ some o)
      × ((prop : BiProp) → get_bi_value db prop oid ≡ ok (built_in_value o (view oid) prop))
get_bi_value_lem db view oid lists v =
    let (o, found, c) = lists.holds oid v in (o, found, built_in_found db view oid o lists v found)
