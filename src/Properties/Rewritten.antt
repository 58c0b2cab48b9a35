-- ===== src/Properties/Rewritten.antt =====
-- db_properties.c: the search for a property after a change of its value.
use wp_lambdamoo.Db.Links.Views.{valid-modify}
use wp_lambdamoo.Properties.Stored.{write_pval_lem, on_slot}
use wp_lambdamoo.Verbs.{rounds}
use wp_lambdamoo.Verbs.Stores.{store-modify, ok_injective, bind_ok}
use wp_lambdamoo.Strings.{str_hash}
use wp_lambdamoo.Db.Links.Chains.{num_objects-modify, find_object-modify, modify, change}
use wp_lambdamoo.Var.{nothing, Doubles, Var, Objid}
use wp_lambdamoo.Properties.Values.{
  db_set_property_value, write_pval, found_slot, get_bi_value, found_built_in, pval_at,
  db_find_property,
}
use wp_lambdamoo.Db.{valid, Pval, find_object, Db, Object}
use wp_lambdamoo.Properties.{
  is_clear, PropHandle, ptable, BiProp, find_built_in, slot, find_slot, resolve,
}
use wp_lambdamoo.Prelude.{
  ℕ, zero, suc, ◌+◌, ◌≡◌, refl, sym, ap, ◌∙◌, inl, inr, Bool, true, false, ◌&&◌, Option, none, some,
  List, ◌==◌, if◌then◌else◌, Bool-cases, Option-cases, length, get_elem?, ◌==ℤ◌, some_injective,
}
use wp_lambdamoo.Db.Outcomes.{from_option, ok, fault}

-- Changes that a search for a property does not see.
abbrev KeepsDefs : (Object → Object) → Type 0
KeepsDefs f =
    (o : Object) → ((f o).id ≡ o.id) × ((f o).propdefs ≡ o.propdefs) × ((f o).parent ≡ o.parent)

no_change : (f : Object → Object) (b : Bool) → (if b then change f none else none) ≡ none
no_change f true = refl
no_change f false = refl

find_slot-modify :
    (fuel : ℕ) (db : Db) (p : Objid) (f : Object → Object) (hash : ℕ) (name : List ℕ) (n : ℕ)
    (q : Objid)
    → KeepsDefs f
    → find_slot fuel (modify db p f) hash name n (find_object (modify db p f) q)
      ≡ find_slot fuel db hash name n (find_object db q)
unfolding find_slot
find_slot-modify zero db p f hash name n q k = refl
find_slot-modify (suc fuel) db p f hash name n q k = elim (Option-cases (find_object db q)) [
  | inl absent ↦ rw (find_object-modify db p q f, absent, no_change f (p ==ℤ q))
  | inr (o, found) ↦
      let (i, d, parent) = k o in
      let next = find_slot-modify fuel db p f hash name (n + length o.propdefs) o.parent k in
      elim (Bool-cases (p ==ℤ q)) [
        | inr other ↦ rw (find_object-modify db p q f, other, found, next)
        | inl same ↦ rw (find_object-modify db p q f, same, found, i, d, parent, next)
      ]
]

-- What a search that found a slot and its value went through.
abbrev number : PropHandle → ℕ
number (slot d oid n) = n
number _ = 0

abbrev definer_of : PropHandle → Objid
definer_of (slot d oid n) = d
definer_of _ = nothing

abbrev pub Searched : Db → Objid → List ℕ → Objid → ℕ → Var → Type 0
Searched db oid name definer n v =
    (find_built_in (str_hash name) name ptable ≡ none)
    × (find_slot (rounds db) db (str_hash name) name 0 (find_object db oid)
        ≡ ok (some (definer, n)))
    × (pv : Pval) × (pval_at db oid n ≡ ok pv)

resolve-pval_at :
    (fuel : ℕ) (db : Db) (oid : Objid) (n : ℕ) (v : Var)
    → resolve fuel db n (find_object db oid) ≡ ok v
    → (pv : Pval) × (pval_at db oid n ≡ ok pv)
unfolding resolve pval_at
resolve-pval_at zero db oid n v e = cc
resolve-pval_at (suc fuel) db oid n v e = elim (Option-cases (find_object db oid)) [
  | inl absent ↦ absurd (no_value (rw absent at e))
  | inr (o, found) ↦
      let (pv, here, _) = bind_ok (from_option (get_elem? o.propval n)) _ v (rw found at e) in
      (pv, rw found here)
]
  where
    no_value : {w : Var} → fault ≡ ok w → ⊥
    no_value q = cc

Searched-found :
    (db : Db) (oid : Objid) (name : List ℕ) (definer : Objid) (n : ℕ) (v : Var)
    → db_find_property db oid name true ≡ ok (slot definer oid n, some v)
    → Searched db oid name definer n v
unfolding db_find_property
Searched-found db oid name definer n v e =
    elim (Option-cases (find_built_in (str_hash name) name ptable)) [
      | inr (prop, b) ↦ absurd (not_slot prop (rw b at e))
      | inl user ↦
          let (r, found, q) =
            bind_ok (find_slot (rounds db) db (str_hash name) name 0 (find_object db oid)) _
              (slot definer oid n, some v) (rw user at e) in
          let (same, value) = is_slot r q in
          let (pv, here) = resolve-pval_at (rounds db) db oid n v value in
          (user, found ∙ ap ok same, pv, here)
    ]
  where
    not_slot :
        (prop : BiProp) → found_built_in db oid true prop ≡ ok (slot definer oid n, some v) → ⊥
    not_slot prop q =
        let (w, _, r) = bind_ok (get_bi_value db prop oid) _ (slot definer oid n, some v) q in cc

    is_slot :
        (r : Option (Objid × ℕ))
        → found_slot db oid true r ≡ ok (slot definer oid n, some v)
        → (r ≡ some (definer, n)) × (resolve (rounds db) db n (find_object db oid) ≡ ok v)
    is_slot none q = cc
    is_slot (some (d, m)) q =
        let (w, value, r) =
          bind_ok (resolve (rounds db) db m (find_object db oid)) _ (slot definer oid n, some v)
            q in
        let same = ap (λ x. number x.0) (ok_injective r) in
        (
          ap (λ x. some (definer_of x.0, number x.0)) (ok_injective r),
          ap (λ k. resolve (rounds db) db k (find_object db oid)) (sym same)
              ∙ value
              ∙ ap ok (some_injective (ap (λ x. x.1) (ok_injective r))),
        )

-- A change of the slot of an object.
written_slot :
    (db : Db) (oid : Objid) (n : ℕ) (f : Pval → Pval) (db' : Db)
    → write_pval db oid n f ≡ ok db'
    → db' ≡ modify db oid (on_slot f n)
unfolding write_pval
written_slot db oid n f db' e =
    let (pv, _, q) = bind_ok (pval_at db oid n) _ db' e in store-modify db oid (on_slot f n) db' q

-- The first look of the loop at a slot that is not clear.
resolve-here :
    (fuel : ℕ) (db : Db) (oid : Objid) (n : ℕ) (pv : Pval)
    → pval_at db oid n ≡ ok pv
    → is_clear pv.var ≡ false
    → resolve (suc fuel) db n (find_object db oid) ≡ ok pv.var
unfolding resolve pval_at
resolve-here fuel db oid n pv here kept = elim (Option-cases (find_object db oid)) [
  | inl absent ↦ absurd (no_slot (rw absent at here))
  | inr (o, found) ↦ rw (found, rw found at here, kept)
]
  where
    no_slot : {w : Pval} → fault ≡ ok w → ⊥
    no_slot q = cc

-- A search ends at the same slot before and after a write to a slot.
find_slot-write :
    (db : Db) (oid : Objid) (n : ℕ) (f : Pval → Pval) (db' : Db) (hash : ℕ) (name : List ℕ)
    → write_pval db oid n f ≡ ok db'
    → find_slot (rounds db') db' hash name 0 (find_object db' oid)
      ≡ find_slot (rounds db) db hash name 0 (find_object db oid)
find_slot-write db oid n f db' hash name written =
    let same = sym (written_slot db oid n f db' written) in
    let m = modify db oid (on_slot f n) in
    coe 0 1
      (i.
        find_slot (rounds (same i)) (same i) hash name 0 (find_object (same i) oid)
        ≡ find_slot (rounds db) db hash name 0 (find_object db oid))
      (ap (λ k. find_slot (suc k) m hash name 0 (find_object m oid))
          (num_objects-modify db oid (on_slot f n))
        ∙ find_slot-modify (rounds db) db oid (on_slot f n) hash name 0 oid
            (λ o. (refl, refl, refl)))

found_here :
    (db : Db) (oid : Objid) (name : List ℕ) (definer : Objid) (n : ℕ) (pv : Pval)
    → find_built_in (str_hash name) name ptable ≡ none
    → find_slot (rounds db) db (str_hash name) name 0 (find_object db oid) ≡ ok (some (definer, n))
    → pval_at db oid n ≡ ok pv
    → is_clear pv.var ≡ false
    → db_find_property db oid name true ≡ ok (slot definer oid n, some pv.var)
unfolding db_find_property
found_here db oid name definer n pv user found here kept =
    rw (user, found, resolve-here db.num_objects db oid n pv here kept)

pub valid-db_set_property_value :
    (fl : Doubles) (db : Db) (definer oid : Objid) (n : ℕ) (w : Var) (db' : Db) (q : Objid)
    → db_set_property_value fl db (slot definer oid n) w ≡ ok db'
    → valid db' q ≡ valid db q
unfolding db_set_property_value
valid-db_set_property_value fl db definer oid n w db' q e =
    let f : Pval → Pval = λ x. record x { var = w } in
    ap (λ d. valid d q) (written_slot db oid n f db' e) ∙ valid-modify db oid q (on_slot f n)

-- Where db_find_property finds a slot and its value, db_set_property_value on the handle succeeds for
-- every value, and if that is not clear then db_find_property finds the same slot with the new value.
pub db_find_property-db_set_property_value :
    (fl : Doubles) (db : Db) (oid : Objid) (name : List ℕ) (definer : Objid) (n : ℕ) (v w : Var)
    → db_find_property db oid name true ≡ ok (slot definer oid n, some v)
    → is_clear w ≡ false
    → (db' : Db) × (db_set_property_value fl db (slot definer oid n) w ≡ ok db')
      × (db_find_property db' oid name true ≡ ok (slot definer oid n, some w))
      × ((q : Objid) (k : ℕ) → ((oid ==ℤ q) && (n == k)) ≡ false → pval_at db' q k ≡ pval_at db q k)
unfolding db_set_property_value
db_find_property-db_set_property_value fl db oid name definer n v w e kept =
    let (user, found, pv, here) = Searched-found db oid name definer n v e in
    let f : Pval → Pval = λ x. record x { var = w } in
    let (db', (written, there, others)) = write_pval_lem db oid n f pv here in
    let again = find_slot-write db oid n f db' (str_hash name) name written in
    (db', written, found_here db' oid name definer n (f pv) user (again ∙ found) there kept, others)
