-- ===== src/Db/Location.antt =====
-- db_change_location of db_objects.c against the abstract view of the table: which objects each
-- object contains, in which order.
pub mod Refine
use mathlib.Core.Path.{fun_ext}
use wp_lambdamoo.Prelude.{
  ◌≡◌, refl, sym, ap, ◌∙◌, ◌⊎◌, inl, inr, Bool, true, false, some, List, [], ◌∷◌, arith,
  if◌then◌else◌, Bool-cases, ◌==ℤ◌, ==ℤ-refl,
}
use wp_lambdamoo.Var.{Objid}
use wp_lambdamoo.Db.{Object, Db, find_object, valid}
use wp_lambdamoo.Db.Outcomes.{ok}
use wp_lambdamoo.Db.Links.{contents_links, ll_remove, ll_append}
use wp_lambdamoo.Db.Links.Chains.{mem, without, modify, Chain-modify_keep, find_object-modify}
use wp_lambdamoo.Db.Links.Unlink.{without_absent}
use wp_lambdamoo.Db.Links.Operations.{find_kept}
use wp_lambdamoo.Db.Links.Counting.{mem-without, both}
use wp_lambdamoo.Db.Links.Views.{AreLists, view_without, view_with, up_of, valid-find, valid-modify}
use wp_lambdamoo.Db.Links.Moves.{ll_remove_view, ll_append_view, view_with-mem, mem-append_one}

-- `view` names the contents of each object, and an object is on a list exactly if that list is its
-- location's.
pub record IsPlaced (db : Db) (view : Objid → List Objid) : Type 0 where
  pub lists : AreLists contents_links db view
  pub back : (p x : Objid) → mem x (view p) ≡ true → up_of contents_links db x ≡ some p
  pub home :
      (p x : Objid) → up_of contents_links db x ≡ some p → valid db p ≡ true → mem x (view p) ≡ true

-- What the view is after the move.
unfoldable pub moved : Bool → Objid → Objid → (Objid → List Objid) → Objid → List Objid
moved is_valid oid location view =
    if is_valid then view_with location oid (view_without oid view) else view_without oid view

abbrev pub Keeps : Db → Db → Type 0
Keeps db db' =
    ((q : Objid) → valid db' q ≡ valid db q)
    × ((q : Objid) → up_of contents_links db' q ≡ up_of contents_links db q)

pub some-inj : {a b : Objid} → some a ≡ some b → a ≡ b
some-inj p = cc

without_free : (oid : Objid) (qs : List Objid) → mem oid (without oid qs) ≡ false
without_free oid qs = rw (mem-without oid oid qs, ==ℤ-refl oid)

without_at :
    (oid : Objid) (view : Objid → List Objid) (q : Objid)
    → mem oid (view q) ≡ false
    → view_without oid view q ≡ view q
unfolding view_without
without_at oid view q m = without_absent oid (view q) m

without_free_at :
    (oid : Objid) (view : Objid → List Objid) (q : Objid)
    → mem oid (view_without oid view q) ≡ false
unfolding view_without
without_free_at oid view q = without_free oid (view q)

nil_clash : (x : Objid) (qs : List Objid) → mem x qs ≡ true → qs ≡ [] → ⊥
unfolding mem
nil_clash x [] m e = cc
nil_clash x (q ∷ qs) m e = cc

pub up_found :
    (db : Db) (oid : Objid) (o : Object)
    → find_object db oid ≡ some o
    → up_of contents_links db oid ≡ some o.location
unfolding up_of
up_found db oid o e = rw e

pub remove_step :
    (db : Db) (view : Objid → List Objid) (oid : Objid) (o : Object)
    → IsPlaced db view
    → find_object db oid ≡ some o
    → (db' : Db) × ((if valid db o.location
          then ll_remove contents_links o.location oid db
          else ok db)
        ≡ ok db')
      × AreLists contents_links db' (view_without oid view)
      × Keeps db db'
remove_step db view oid o placed found = elim (Bool-cases (valid db o.location)) [
  | inl v ↦
      let m = placed.home o.location oid (up_found db oid o found) v in
      let (db', run, lists, kv, ku) =
        ll_remove_view contents_links db view o.location oid placed.lists v m in
      (db', rw v run, lists, (kv, ku))
  | inr nv ↦
      let free : (q : Objid) → mem oid (view q) ≡ false = λ q.
        elim (Bool-cases (mem oid (view q))) [
          | inl m ↦
              let e : o.location ≡ q =
                some-inj (sym (up_found db oid o found) ∙ placed.back q oid m) in
              absurd (nil_clash oid (view q) m (placed.lists.empty q (sym (ap (valid db) e) ∙ nv)))
          | inr m ↦ m
        ] in
      let same : view_without oid view ≡ view = fun_ext (λ q. without_at oid view q (free q)) in
      (
        db,
        rw nv,
        coe 0 1 (i. AreLists contents_links db (sym same i)) placed.lists,
        ((λ q. refl), (λ q. refl)),
      )
]

pub append_step :
    (db : Db) (view : Objid → List Objid) (oid location : Objid)
    → AreLists contents_links db (view_without oid view)
    → valid db oid ≡ true
    → (db' : Db) × ((if valid db location then ll_append contents_links location oid db else ok db)
        ≡ ok db')
      × AreLists contents_links db' (moved (valid db location) oid location view)
      × Keeps db db'
unfolding moved view_with
append_step db view oid location lists vo = elim (Bool-cases (valid db location)) [
  | inl v ↦
      let (db', run, lists', kv, ku) =
        ll_append_view contents_links db (view_without oid view) location oid lists v vo
          (λ q. without_free_at oid view q) in
      (
        db',
        rw v run,
        coe 0 1 (i. AreLists contents_links db' (moved (sym v i) oid location view)) lists',
        (kv, ku),
      )
  | inr nv ↦ (
    db,
    rw nv,
    coe 0 1 (i. AreLists contents_links db (moved (sym nv i) oid location view)) lists,
    ((λ q. refl), (λ q. refl)),
  )
]

-- The last store, of the field `location`.
pub relocate :
    (db : Db) (view : Objid → List Objid) (oid location : Objid)
    → AreLists contents_links db view
    → AreLists contents_links (modify db oid (λ o. record o { location = location })) view
relocate db view oid location lists = record {
  holds = λ p vp.
      let f : Object → Object = λ o. record o { location = location } in
      let (w, found, c) = lists.holds p (sym (valid-modify db oid p f) ∙ vp) in
      let (w', found', same) = find_kept contents_links db oid p f w (λ x. refl) found in
      (
        w',
        found',
        rw same (Chain-modify_keep contents_links db oid f w.contents (view p) (λ x. refl) c),
      );
  empty = λ p vp.
      lists.empty p (sym (valid-modify db oid p (λ o. record o { location = location })) ∙ vp);
  distinct = lists.distinct;
  disjoint = lists.disjoint;
}

pub relocated_here :
    (db : Db) (oid location : Objid)
    → valid db oid ≡ true
    → up_of contents_links (modify db oid (λ o. record o { location = location })) oid
      ≡ some location
unfolding up_of
relocated_here db oid location v =
    let (o, found) = valid-find db oid v in
    rw (find_object-modify db oid oid (λ o. record o { location = location }), ==ℤ-refl oid, found)

pub relocated_there :
    (db : Db) (oid location q : Objid)
    → (oid ==ℤ q) ≡ false
    → up_of contents_links (modify db oid (λ o. record o { location = location })) q
      ≡ up_of contents_links db q
unfolding up_of
relocated_there db oid location q ne =
    rw (find_object-modify db oid q (λ o. record o { location = location }), ne)

pub moved-mem :
    (b : Bool) (oid location p x : Objid) (view : Objid → List Objid)
    → mem x (moved b oid location view p) ≡ true
    → ((mem x (view p) ≡ true) × ((oid ==ℤ x) ≡ false)) ⊎ ((x ≡ oid) × (location ≡ p))
unfolding moved view_without
moved-mem false oid location p x view m =
    let (ne, m') = both (oid ==ℤ x) (mem x (view p)) (sym (mem-without oid x (view p)) ∙ m) in
    inl (m', ne)
moved-mem true oid location p x view m =
    elim (view_with-mem location oid p x (view_without oid view) m) [
      | inl m₁ ↦
          let (ne, m') =
            both (oid ==ℤ x) (mem x (view p)) (sym (mem-without oid x (view p)) ∙ m₁) in
          inl (m', ne)
      | inr r ↦ inr r
    ]

pub moved_stays :
    (b : Bool) (oid location p x : Objid) (view : Objid → List Objid)
    → mem x (view p) ≡ true
    → (oid ==ℤ x) ≡ false
    → mem x (moved b oid location view p) ≡ true
unfolding moved view_without view_with
moved_stays false oid location p x view m ne = rw (mem-without oid x (view p), ne, m)
moved_stays true oid location p x view m ne = elim (Bool-cases (p ==ℤ location)) [
  | inl same ↦
      rw (same, mem-append_one x oid (without oid (view p)), mem-without oid x (view p), ne, m)
  | inr other ↦ rw (other, mem-without oid x (view p), ne, m)
]

pub moved_arrives :
    (oid location : Objid) (view : Objid → List Objid)
    → mem oid (moved true oid location view location) ≡ true
unfolding moved view_without view_with
moved_arrives oid location view =
    rw (==ℤ-refl location, mem-append_one oid oid (without oid (view location)), ==ℤ-refl oid)
      (ground arith)
