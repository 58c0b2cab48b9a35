-- ===== src/Properties/Kin.antt =====
-- db_objects.c: objects, with their verbs and parents, on two tables, and the lists of children.
use wp_lambdamoo.Verbs.Stores.{find_absent, store-modify, ok_injective, bind_ok}
use wp_lambdamoo.Db.Links.Chains.{num_objects-modify, find_object-modify, modify}
use wp_lambdamoo.Db.{at, store, find_object, Db, Object}
use wp_lambdamoo.Db.Links.{ll_append, link_loop, ll_remove, child_links, unlink_loop}
use wp_lambdamoo.Prelude.{
  ==ℤ-refl, clash, ℕ, zero, suc, ◌≡◌, refl, sym, ap, ◌∙◌, inl, inr, Bool, true, false, none, some,
  if◌then◌else◌, Bool-cases, ◌==ℤ◌, ==ℤ_iff,
}
use wp_lambdamoo.Var.{Objid, nothing}
use wp_lambdamoo.Db.Outcomes.{Outcome, ok, fault, ◌>>=◌}

-- The same objects, with the same verbs, and but for `oid` with the same parents.
pub record Alike (oid : Objid) (db db' : Db) : Type 0 where
  pub found :
      (q : Objid) (o : Object)
      → find_object db q ≡ some o
      → (o' : Object) × (find_object db' q ≡ some o')
        × (o'.id ≡ o.id)
        × (o'.verbdefs ≡ o.verbdefs)
        × ((q ==ℤ oid) ≡ false → o'.parent ≡ o.parent)
  pub absent : (q : Objid) → find_object db q ≡ none → find_object db' q ≡ none
  pub size : db'.num_objects ≡ db.num_objects

-- A change of the object `p` of that kind.
abbrev pub KeepsKin : Objid → Objid → (Object → Object) → Type 0
KeepsKin oid p f =
    (o : Object)
    → ((f o).id ≡ o.id)
      × ((f o).verbdefs ≡ o.verbdefs)
      × ((p ==ℤ oid) ≡ false → (f o).parent ≡ o.parent)

module _ (oid : Objid) where
  pub Alike-refl : (db : Db) → Alike oid db db
  Alike-refl db = record {
    found = λ q o e. (o, e, refl, refl, λ ne. refl);
    absent = λ q e. e;
    size = refl;
  }

  pub Alike-trans : (a b c : Db) → Alike oid a b → Alike oid b c → Alike oid a c
  Alike-trans a b c ab bc = record {
    found = λ q o e.
        let (o₁, e₁, i₁, v₁, p₁) = ab.found q o e in
        let (o₂, e₂, i₂, v₂, p₂) = bc.found q o₁ e₁ in
        (o₂, e₂, i₂ ∙ i₁, v₂ ∙ v₁, λ ne. p₂ ne ∙ p₁ ne);
    absent = λ q e. bc.absent q (ab.absent q e);
    size = bc.size ∙ ab.size;
  }

  Alike-modify :
      (db : Db) (p : Objid) (f : Object → Object) → KeepsKin oid p f → Alike oid db (modify db p f)
  Alike-modify db p f k = record {
    found = λ q o e. changed q o e;
    absent = λ q e. find_absent db p f q e;
    size = num_objects-modify db p f;
  }
    where
      changed :
          (q : Objid) (o : Object)
          → find_object db q ≡ some o
          → (o' : Object) × (find_object (modify db p f) q ≡ some o')
            × (o'.id ≡ o.id)
            × (o'.verbdefs ≡ o.verbdefs)
            × ((q ==ℤ oid) ≡ false → o'.parent ≡ o.parent)
      changed q o e = elim (Bool-cases (p ==ℤ q)) [
        | inl same ↦
            let pq = (==ℤ_iff p q).0 same in
            (
              f o,
              rw (find_object-modify db p q f, same, e),
              (k o).0,
              (k o).1,
              λ ne. (k o).2 (ap (λ x. x ==ℤ oid) pq ∙ ne),
            )
        | inr other ↦ (o, rw (find_object-modify db p q f, other) e, refl, refl, λ ne. refl)
      ]

  pub store-Alike :
      (db db' : Db) (p : Objid) (f : Object → Object)
      → KeepsKin oid p f
      → store db p f ≡ ok db'
      → Alike oid db db'
  store-Alike db db' p f k e =
      coe 0 1 (i. Alike oid db (sym (store-modify db p f db' e) i)) (Alike-modify db p f k)

  -- An outcome whose table, if there is one, is alike.
  abbrev pub Yields : Db → Outcome Db → Type 0
  Yields db m = (db' : Db) → m ≡ ok db' → Alike oid db db'

  pub then-Yields :
      (db : Db) (m : Outcome Db) (k : Db → Outcome Db)
      → Yields db m
      → ((d : Db) → Yields d (k d))
      → Yields db (m >>= k)
  then-Yields db m k first rest db' e =
      let (d, em, ek) = bind_ok m k db' e in Alike-trans db d db' (first d em) (rest d db' ek)

  pub after-Yields {ℓ} :
      {A : Type ℓ} (db : Db) (m : Outcome A) (k : A → Outcome Db)
      → ((a : A) → Yields db (k a))
      → Yields db (m >>= k)
  after-Yields db m k rest db' e = let (a, em, ek) = bind_ok m k db' e in rest a db' ek

  pub if_Yields :
      (db : Db) (b : Bool) (m n : Outcome Db)
      → Yields db m
      → Yields db n
      → Yields db (if b then m else n)
  if_Yields db true m n x y = x
  if_Yields db false m n x y = y

  pub ok-Yields : (db : Db) → Yields db (ok db)
  ok-Yields db db' e = coe 0 1 (i. Alike oid db (ok_injective e i)) (Alike-refl db)

  pub fault-Yields : (db : Db) → Yields db fault
  fault-Yields db db' e = cc

  link-Yields :
      (db : Db) (p : Objid) (f : Object → Object) → KeepsKin oid p f → Yields db (store db p f)
  link-Yields db p f k db' e = store-Alike db db' p f k e

  set_next-Yields : (db : Db) (p v : Objid) → Yields db (store db p (child_links.set_next v))
  set_next-Yields db p v = link-Yields db p (child_links.set_next v) (λ o. (refl, refl, λ ne. refl))

  set_first-Yields : (db : Db) (p v : Objid) → Yields db (store db p (child_links.set_first v))
  set_first-Yields db p v =
      link-Yields db p (child_links.set_first v) (λ o. (refl, refl, λ ne. refl))

  unlink_loop-Yields :
      (fuel : ℕ) (lid what : Objid) (db : Db) → Yields db (unlink_loop child_links fuel lid what db)
  unfolding unlink_loop
  unlink_loop-Yields zero lid what db = fault-Yields db
  unlink_loop-Yields (suc fuel) lid what db = if_Yields db (lid ==ℤ nothing) _ _ (ok-Yields db) (
      after-Yields db (at db lid) _ (λ o.
        if_Yields db (o.sibling ==ℤ what) _ _
          (after-Yields db (at db what) _ (λ x. set_next-Yields db lid x.sibling))
          (unlink_loop-Yields fuel o.sibling what db)))

  pub ll_remove-Yields :
      (holder what : Objid) (db : Db) → Yields db (ll_remove child_links holder what db)
  unfolding ll_remove
  ll_remove-Yields holder what db = after-Yields db (at db holder) _ (λ w.
      then-Yields db _ (λ d. store d what (child_links.set_next nothing))
        (if_Yields db (w.child ==ℤ what) _ _
          (after-Yields db (at db what) _ (λ x. set_first-Yields db holder x.sibling))
          (unlink_loop-Yields (suc db.num_objects) w.child what db))
        (λ d. set_next-Yields d what nothing))

  link_loop-Yields :
      (fuel : ℕ) (lid what : Objid) (db : Db) → Yields db (link_loop child_links fuel lid what db)
  unfolding link_loop
  link_loop-Yields zero lid what db = fault-Yields db
  link_loop-Yields (suc fuel) lid what db = after-Yields db (at db lid) _ (λ o.
      if_Yields db (o.sibling ==ℤ nothing) _ _ (set_next-Yields db lid what)
        (link_loop-Yields fuel o.sibling what db))

  pub ll_append-Yields :
      (holder what : Objid) (db : Db) → Yields db (ll_append child_links holder what db)
  unfolding ll_append
  ll_append-Yields holder what db = after-Yields db (at db holder) _ (λ w.
      then-Yields db _ (λ d. store d what (child_links.set_next nothing))
        (if_Yields db (w.child ==ℤ nothing) _ _ (set_first-Yields db holder what)
          (link_loop-Yields (suc db.num_objects) w.child what db))
        (λ d. set_next-Yields d what nothing))

  pub set_parent-Yields :
      (parent : Objid) (db : Db) → Yields db (store db oid (λ o. record o { parent = parent }))
  set_parent-Yields parent db =
      link-Yields db oid (λ o. record o { parent = parent })
        (λ o. (refl, refl, λ ne. absurd (clash (==ℤ-refl oid) ne)))
