-- ===== src/Properties/Stored.antt =====
-- db_properties.c: writes to the slots of properties.
use wp_lambdamoo.Db.Links.Chains.{find_object-modify, store_found, modify, change}
use wp_lambdamoo.Db.{store, find_object, Pval, Db, Object}
use wp_lambdamoo.Properties.Values.{
  db_property_flags, db_property_owner, db_property_value, change_pval, write_pval,
  db_set_property_value, pval_at,
}
use wp_lambdamoo.Prelude.{
  some_injective, ℕ, zero, suc, ◌≡◌, refl, ap, ◌∙◌, inl, inr, false, ◌&&◌, Option, none, some, List,
  [], ◌∷◌, arith, ◌==◌, if◌then◌else◌, Bool-cases, Option-cases, get_elem?, ◌==ℤ◌, ==ℤ-refl, clash,
}
use wp_lambdamoo.Var.{Var, Doubles, Objid}
use wp_lambdamoo.Db.Outcomes.{Outcome, ok, fault, ◌>>=◌, from_option}
use wp_lambdamoo.Properties.{slot}

slot_here :
    (pvs : List Pval) (n : ℕ) (f : Pval → Pval) (pv : Pval)
    → get_elem? pvs n ≡ some pv
    → get_elem? (change_pval f n pvs) n ≡ some (f pv)
slot_here [] n f pv e = cc
slot_here (x ∷ pvs) zero f pv e = let same : x ≡ pv = some_injective e in ap (λ y. some (f y)) same
slot_here (x ∷ pvs) (suc n) f pv e = slot_here pvs n f pv e

slot_elsewhere :
    (pvs : List Pval) (n k : ℕ) (f : Pval → Pval)
    → (n == k) ≡ false
    → get_elem? (change_pval f n pvs) k ≡ get_elem? pvs k
slot_elsewhere [] n k f ne = refl
slot_elsewhere (x ∷ pvs) zero zero f ne = absurd (clash refl ne)
slot_elsewhere (x ∷ pvs) zero (suc k) f ne = refl
slot_elsewhere (x ∷ pvs) (suc n) zero f ne = refl
slot_elsewhere (x ∷ pvs) (suc n) (suc k) f ne = slot_elsewhere pvs n k f (ground arith)

abbrev pub on_slot : (Pval → Pval) → ℕ → Object → Object
on_slot f n o = record o { propval = change_pval f n o.propval }

abbrev in_slot : Option Object → ℕ → Outcome Pval
in_slot o n = from_option o >>= λ x. from_option (get_elem? x.propval n)

-- A write to a slot that is there changes that slot and no other, of no object.
abbrev pub Writes : Db → Objid → ℕ → (Pval → Pval) → Pval → Db → Type 0
Writes db oid n f pv db' =
    (write_pval db oid n f ≡ ok db')
    × (pval_at db' oid n ≡ ok (f pv))
    × ((q : Objid) (k : ℕ) → ((oid ==ℤ q) && (n == k)) ≡ false → pval_at db' q k ≡ pval_at db q k)

pub write_pval_lem :
    (db : Db) (oid : Objid) (n : ℕ) (f : Pval → Pval) (pv : Pval)
    → pval_at db oid n ≡ ok pv
    → (db' : Db) × Writes db oid n f pv db'
unfolding pval_at
write_pval_lem db oid n f pv e = elim (Option-cases (find_object db oid)) [
  | inl absent ↦ absurd (no_result (rw absent at e))
  | inr (o, found) ↦
      let at_n = from_some (get_elem? o.propval n) pv (rw found at e) in
      (
        modify db oid (on_slot f n),
        (
          unfold write_pval in
              rw (found, at_n) (unfold store in store_found db oid (on_slot f n) o found),
          rw (find_object-modify db oid oid (on_slot f n), ==ℤ-refl oid, found)
              (ap from_option (slot_here o.propval n f pv at_n)),
          λ q k other.
              ap (λ x. in_slot x k) (find_object-modify db oid q (on_slot f n))
              ∙ unchanged q k other,
        ),
      )
]
  where
    no_result : {b : Pval} → fault ≡ ok b → ⊥
    no_result q = cc

    from_some : (m : Option Pval) (w : Pval) → from_option m ≡ ok w → m ≡ some w
    from_some none w q = cc
    from_some (some x) w q = cc

    unchanged :
        (q : Objid) (k : ℕ)
        → ((oid ==ℤ q) && (n == k)) ≡ false
        → in_slot
            (if oid ==ℤ q then change (on_slot f n) (find_object db q) else find_object db q)
            k
          ≡ in_slot (find_object db q) k
    unchanged q k other = elim (Bool-cases (oid ==ℤ q)) [
      | inr away ↦ rw away
      | inl same ↦ rw same (elim (Option-cases (find_object db q)) [
        | inl absent ↦ rw absent
        | inr (o, found) ↦
            rw found (ap from_option (slot_elsewhere o.propval n k f (rw same at other)))
      ])
    ]

-- db_set_property_value on a handle to a slot that is there succeeds; db_property_value reads the
-- value back, the owner and the flags of the property are as they were, and so is every other slot.
pub db_property_value-db_set_property_value :
    (fl : Doubles) (db : Db) (definer oid : Objid) (n : ℕ) (value : Var) (pv : Pval)
    → pval_at db oid n ≡ ok pv
    → (db' : Db) × (db_set_property_value fl db (slot definer oid n) value ≡ ok db')
      × (db_property_value db' (slot definer oid n) ≡ ok value)
      × (db_property_owner db' (slot definer oid n) ≡ db_property_owner db (slot definer oid n))
      × (db_property_flags db' (slot definer oid n) ≡ db_property_flags db (slot definer oid n))
      × ((q : Objid) (k : ℕ) → ((oid ==ℤ q) && (n == k)) ≡ false → pval_at db' q k ≡ pval_at db q k)
unfolding db_set_property_value db_property_value db_property_owner db_property_flags
db_property_value-db_set_property_value fl db definer oid n value pv e =
    let (db', (written, there, others)) =
      write_pval_lem db oid n (λ x. record x { var = value }) pv e in
    (db', written, rw there, rw (there, e), rw (there, e), others)
