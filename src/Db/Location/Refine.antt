-- ===== src/Db/Location/Refine.antt =====
-- db_change_location of db_objects.c implements the move of an object between lists.
use wp_lambdamoo.Prelude.{
  ◌≡◌, sym, ap, ◌∙◌, inl, inr, Bool, true, some, List, if◌then◌else◌, Bool-cases, ◌==ℤ◌, ==ℤ_iff,
}
use wp_lambdamoo.Var.{Objid}
use wp_lambdamoo.Db.{Db, valid}
use wp_lambdamoo.Db.Outcomes.{ok}
use wp_lambdamoo.Db.Attributes.{db_object_location, db_change_location}
use wp_lambdamoo.Db.Links.{contents_links}
use wp_lambdamoo.Db.Links.Chains.{mem, modify, store_found}
use wp_lambdamoo.Db.Links.Views.{AreLists, up_of, valid-find, valid-modify}
use wp_lambdamoo.Db.Location.{
  IsPlaced, moved, Keeps, remove_step, append_step, relocate, relocated_here, relocated_there,
  moved-mem, moved_stays, moved_arrives, some-inj,
}

arrives :
    (b : Bool) (oid x location p : Objid) (view : Objid → List Objid)
    → oid ≡ x
    → location ≡ p
    → b ≡ true
    → mem x (moved b oid location view p) ≡ true
arrives b oid x location p view ex lp e = rw (sym ex, sym lp, e) (moved_arrives oid location view)

final-IsPlaced :
    (db db₂ : Db) (view : Objid → List Objid) (oid location : Objid)
    → IsPlaced db view
    → valid db oid ≡ true
    → AreLists contents_links db₂ (moved (valid db location) oid location view)
    → Keeps db db₂
    → IsPlaced
        (modify db₂ oid (λ o. record o { location = location }))
        (moved (valid db location) oid location view)
final-IsPlaced db db₂ view oid location placed vo lists (kv, ku) = record {
  lists = relocate db₂ _ oid location lists;
  back = λ p x m. elim (moved-mem (valid db location) oid location p x view m) [
    | inl (m', ne) ↦ relocated_there db₂ oid location x ne ∙ ku x ∙ placed.back p x m'
    | inr (e, e') ↦ rw (e, sym e') (relocated_here db₂ oid location (kv oid ∙ vo))
  ];
  home = λ p x u vp. elim (Bool-cases (oid ==ℤ x)) [
    | inl same ↦
        let ex : oid ≡ x = (==ℤ_iff oid x).0 same in
        let u' =
          ap (up_of contents_links (modify db₂ oid (λ o. record o { location = location }))) ex
          ∙ u in
        let lp : location ≡ p =
          some-inj (sym (relocated_here db₂ oid location (kv oid ∙ vo)) ∙ u') in
        let vl =
          sym (kv p) ∙ sym (valid-modify db₂ oid p (λ o. record o { location = location })) ∙ vp in
        arrives (valid db location) oid x location p view ex lp (ap (valid db) lp ∙ vl)
    | inr other ↦
        moved_stays (valid db location) oid location p x view
          (placed.home p x (sym (ku x) ∙ sym (relocated_there db₂ oid location x other) ∙ u) (
            sym (kv p) ∙ sym (valid-modify db₂ oid p (λ o. record o { location = location })) ∙ vp))
          other
  ];
}

final_up :
    (db db₂ : Db) (oid location x : Objid)
    → valid db₂ oid ≡ true
    → up_of contents_links db₂ x ≡ up_of contents_links db x
    → up_of contents_links (modify db₂ oid (λ o. record o { location = location })) x
      ≡ (if oid ==ℤ x then some location else up_of contents_links db x)
final_up db db₂ oid location x v same = elim (Bool-cases (oid ==ℤ x)) [
  | inl e ↦ rw (e, sym ((==ℤ_iff oid x).0 e)) (relocated_here db₂ oid location v)
  | inr ne ↦ rw (ne, relocated_there db₂ oid location x ne) same
]

-- On a table in which every object is on exactly its location's list of contents,
-- `db_change_location` neither panics nor faults: it takes a valid object off the list it is on, if
-- any, puts it at the end of the new location's, if that is valid, sets its location, and leaves a
-- table of the same kind in which all other lists and all locations are as before.
pub db_change_location-IsPlaced :
    (db : Db) (view : Objid → List Objid) (oid location : Objid)
    → IsPlaced db view
    → valid db oid ≡ true
    → (db' : Db) × (db_change_location db oid location ≡ ok db')
      × IsPlaced db' (moved (valid db location) oid location view)
      × ((x : Objid)
          → up_of contents_links db' x
            ≡ (if oid ==ℤ x then some location else up_of contents_links db x))
      × ((q : Objid) → valid db' q ≡ valid db q)
unfolding db_change_location db_object_location
db_change_location-IsPlaced db view oid location placed vo =
    let (o, found) = valid-find db oid vo in
    let (db₁, run₁, lists₁, (kv₁, ku₁)) = remove_step db view oid o placed found in
    let (db₂, run₂, lists₂, (kv₂, ku₂)) = append_step db₁ view oid location lists₁ (kv₁ oid ∙ vo) in
    let (o₂, found₂) = valid-find db₂ oid (kv₂ oid ∙ kv₁ oid ∙ vo) in
    (
      modify db₂ oid (λ o. record o { location = location }),
      rw (found, run₁, run₂, store_found db₂ oid (λ o. record o { location = location }) o₂ found₂),
      final-IsPlaced db db₂ view oid location placed vo
          (coe 0 1 (i. AreLists contents_links db₂ (moved (kv₁ location i) oid location view))
            lists₂)
          ((λ q. kv₂ q ∙ kv₁ q), (λ q. ku₂ q ∙ ku₁ q)),
      (λ x. final_up db db₂ oid location x (kv₂ oid ∙ kv₁ oid ∙ vo) (ku₂ x ∙ ku₁ x)),
      (λ q. valid-modify db₂ oid q (λ o. record o { location = location }) ∙ kv₂ q ∙ kv₁ q),
    )
