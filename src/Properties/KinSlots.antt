-- ===== src/Properties/KinSlots.antt =====
-- db_properties.c: the routines that move the slots of the descendants of an object.
use wp_lambdamoo.Properties.Kin.{
  then-Yields, ok-Yields, if_Yields, fault-Yields, store-Alike, after-Yields, Alike-trans, Yields,
  Alike,
}
use wp_lambdamoo.Properties.{dbpriv_count_properties}
use wp_lambdamoo.Db.Attributes.{db_object_parent}
use wp_lambdamoo.Verbs.{rounds}
use wp_lambdamoo.Properties.Parents.{
  common_loop, dbpriv_fix_properties_after_chparent, parent_slots, fix_props, fix_slots,
}
use wp_lambdamoo.Properties.Definitions.{read_slots, from_root, descend}
use wp_lambdamoo.Verbs.Stores.{ok_injective, bind_ok}
use wp_lambdamoo.Db.{at, store, Db}
use wp_lambdamoo.Prelude.{◌-◌, ℕ, zero, suc, ◌≡◌, refl, ◌==ℤ◌}
use wp_lambdamoo.Var.{Objid, nothing}
use wp_lambdamoo.Db.Outcomes.{Outcome, ok}

module _ (oid : Objid) where
  -- The slots of the descendants.
  abbrev YieldsPair : Db → Outcome (ℕ × Db) → Type 0
  YieldsPair db m = (r : ℕ × Db) → m ≡ ok r → Alike oid db r.1

  fix_slots-Yields :
      (old new common parent_local : ℕ) (p : Objid) (db : Db)
      → YieldsPair db (fix_slots old new common parent_local p db)
  unfolding fix_slots
  fix_slots-Yields old new common parent_local p db r e =
      let (me, e₁, q₁) = bind_ok (at db p) _ r e in
      let (freed, e₂, q₂) = bind_ok (read_slots me.propval _ old) _ r q₁ in
      let (own, e₃, q₃) = bind_ok (read_slots me.propval 0 _) _ r q₂ in
      let (gained, e₄, q₄) = bind_ok (parent_slots db me parent_local new) _ r q₃ in
      let (kept, e₅, q₅) = bind_ok (read_slots me.propval _ common) _ r q₄ in
      let (db', e₆, q₆) = bind_ok (store db p _) _ r q₅ in
      coe 0 1 (i. Alike oid db (ok_injective q₆ i).1)
        (store-Alike oid db db' p _ (λ o. (refl, refl, λ ne. refl)) e₆)

  descend-Yields :
      (fuel : ℕ) (visit : ℕ → Objid → Db → Outcome (ℕ × Db)) (n : ℕ) (c : Objid) (db : Db)
      → ((m : ℕ) (p : Objid) (d : Db) → YieldsPair d (visit m p d))
      → Yields oid db (descend fuel visit n c db)
  unfolding descend
  descend-Yields zero visit n c db v = fault-Yields oid db
  descend-Yields (suc fuel) visit n c db v =
      if_Yields oid db (c ==ℤ nothing) _ _ (ok-Yields oid db) (λ db' e.
        let (r, e₁, q₁) = bind_ok (visit n c db) _ db' e in
        let (o, e₂, q₂) = bind_ok (at r.1 c) _ db' q₁ in
        Alike-trans oid db r.1 db' (v n c db r e₁) (
          then-Yields oid r.1 (descend fuel visit r.0 o.child r.1) _
            (descend-Yields fuel visit r.0 o.child r.1 v)
            (λ d. after-Yields oid d (at d c) _ (λ o₁. descend-Yields fuel visit n o₁.sibling d v))
            db' q₂))

  pub fix_props-Yields :
      (p : Objid) (parent_local old new common : ℕ) (db : Db)
      → Yields oid db (fix_props db p parent_local old new common)
  unfolding fix_props from_root
  fix_props-Yields p parent_local old new common db db' e =
      let (r, e₁, q₁) = bind_ok (fix_slots old new common parent_local p db) _ db' e in
      Alike-trans oid db r.1 db' (fix_slots-Yields old new common parent_local p db r e₁) (
        after-Yields oid r.1 (at r.1 p) _
          (λ o.
            descend-Yields (rounds db) (fix_slots old new common) r.0 o.child r.1
              (λ m q d. fix_slots-Yields old new common m q d))
          db' q₁)

  pub fix_after-Yields :
      (p old_parent : Objid) (db : Db)
      → Yields oid db (dbpriv_fix_properties_after_chparent db p old_parent)
  unfolding dbpriv_fix_properties_after_chparent
  fix_after-Yields p old_parent db = after-Yields oid db (db_object_parent db p) _ (λ new_parent.
      after-Yields oid db (common_loop (rounds db) db old_parent new_parent) _ (λ common.
        after-Yields oid db _ _ (λ common_props.
          after-Yields oid db (dbpriv_count_properties db old_parent) _ (λ old_count.
            after-Yields oid db (dbpriv_count_properties db new_parent) _ (λ new_count.
              fix_props-Yields p 0 (old_count - common_props) (new_count - common_props)
                common_props db)))))
