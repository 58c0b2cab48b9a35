-- ===== src/Db/Links/Removal.antt =====
-- LL_REMOVE of db_objects.c as an operation on the list that an object holds.
use wp_lambdamoo.Prelude.{
  suc, ◌≤◌, ◌≡◌, refl, sym, ap, ◌∙◌, inl, inr, true, false, some, List, [], ◌∷◌, arith,
  if◌then◌else◌, Bool-cases, length, ◌==ℤ◌, ==ℤ_iff, ==ℤ-refl, ==ℤ-sym,
}
use wp_lambdamoo.Var.{Objid, nothing}
use wp_lambdamoo.Db.{Object, Db, find_object}
use wp_lambdamoo.Db.Outcomes.{ok}
use wp_lambdamoo.Db.Links.{Links, ll_remove}
use wp_lambdamoo.Db.Links.Chains.{
  mem, Distinct, without, modify, find_object-modify, store_found, Chain-modify_keep,
}
use wp_lambdamoo.Db.Links.Unlink.{
  pred_of, pred_of-mem, unlink_run, Chain-unlinked, without_absent, without_here, without_there,
}
use wp_lambdamoo.Db.Links.Operations.{
  HoldsList, Rewired, at_holder, at_element, find_kept, find_valid, HoldsList-modify,
  HoldsList-along, some-inj, without-absent,
}

module _ (l : Links) (holder what : Objid) (y : Object) where
  -- The table that the first half of LL_REMOVE leaves.
  unfoldable pub cut : Objid → List Objid → Db → Db
  cut q qs db =
      if q ==ℤ what
      then modify db holder (l.set_first (l.next y))
      else modify db (pred_of q qs what) (l.set_next (l.next y))

  unfoldable pub removed : Objid → List Objid → Db → Db
  removed q qs db = modify (cut q qs db) what (l.set_next nothing)

  pub ll_remove_run :
      (db : Db) (q : Objid) (qs : List Objid)
      → HoldsList l db holder (q ∷ qs)
      → mem what (q ∷ qs) ≡ true
      → find_object db what ≡ some y
      → length qs ≤ db.num_objects
      → ll_remove l holder what db ≡ ok (removed q qs db)
  unfolding ll_remove mem cut removed
  ll_remove_run db q qs (w, found, (start, more)) m e h = elim (Bool-cases (q ==ℤ what)) [
    | inl same ↦
        let (y', found') = find_valid db holder what (l.set_first (l.next y)) y e in
        rw (
          found,
          start,
          same,
          e,
          store_found db holder (l.set_first (l.next y)) w found,
          store_found (modify db holder (l.set_first (l.next y))) what (l.set_next nothing) y'
              found',
        )
    | inr other ↦
        let (y', found') = find_valid db (pred_of q qs what) what (l.set_next (l.next y)) y e in
        rw (
          found,
          start,
          other,
          unlink_run l what y (suc db.num_objects) q qs db (refl, more)
              (rw (==ℤ-sym what q, other) at m) e (omega arith),
          store_found (modify db (pred_of q qs what) (l.set_next (l.next y))) what
              (l.set_next nothing) y' found',
        )
  ]

  cut_here :
      (db : Db) (q : Objid) (qs : List Objid)
      → (q ==ℤ what) ≡ true
      → cut q qs db ≡ modify db holder (l.set_first (l.next y))
  unfolding cut
  cut_here db q qs e = rw e

  cut_there :
      (db : Db) (q : Objid) (qs : List Objid)
      → (q ==ℤ what) ≡ false
      → cut q qs db ≡ modify db (pred_of q qs what) (l.set_next (l.next y))
  unfolding cut
  cut_there db q qs e = rw e

  cut-HoldsList :
      (db : Db) (q : Objid) (qs : List Objid)
      → HoldsList l db holder (q ∷ qs)
      → mem what (q ∷ qs) ≡ true
      → Distinct (q ∷ qs)
      → find_object db what ≡ some y
      → HoldsList l (cut q qs db) holder (without what (q ∷ qs))
  unfolding mem
  cut-HoldsList db q qs (w, found, (start, (x, found', more))) m (nq, d) e =
      elim (Bool-cases (q ==ℤ what)) [
        | inl same ↦
            let qw : q ≡ what = (==ℤ_iff q what).0 same in
            let xy : x ≡ y = some-inj (sym found' ∙ ap (find_object db) qw ∙ e) in
            let wq : mem what qs ≡ false = rw qw at nq in
            HoldsList-along l (cut q qs db) (modify db holder (l.set_first (l.next y))) holder
              (without what (q ∷ qs)) qs (cut_here db q qs same)
              (without_here what q qs same ∙ without_absent what qs wq)
              (
                l.set_first (l.next y) w,
                rw (
                  find_object-modify db holder holder (l.set_first (l.next y)),
                  ==ℤ-refl holder,
                  found,
                ),
                rw (l.first-set_first (l.next y) w) (
                    Chain-modify_keep l db holder (l.set_first (l.next y)) (l.next y) qs
                      (l.next-set_first (l.next y)) (rw xy at more)),
              )
        | inr other ↦
            let m' : mem what qs ≡ true = rw (==ℤ-sym what q, other) at m in
            let rest = Chain-unlinked l what y q qs db (refl, (x, found', more)) m' (nq, d) e in
            let (w', kept, first) =
              find_kept l db (pred_of q qs what) holder (l.set_next (l.next y)) w
                (l.first-set_next (l.next y)) found in
            HoldsList-along l (cut q qs db) (modify db (pred_of q qs what) (l.set_next (l.next y)))
              holder (without what (q ∷ qs)) (q ∷ without what qs) (cut_there db q qs other)
              (without_there what q qs other) (w', kept, (first ∙ start, rest.1))
      ]

  pub removed-HoldsList :
      (db : Db) (q : Objid) (qs : List Objid)
      → HoldsList l db holder (q ∷ qs)
      → mem what (q ∷ qs) ≡ true
      → Distinct (q ∷ qs)
      → find_object db what ≡ some y
      → HoldsList l (removed q qs db) holder (without what (q ∷ qs))
  unfolding removed
  removed-HoldsList db q qs held m d e =
      HoldsList-modify l (cut q qs db) holder what (l.set_next nothing) (without what (q ∷ qs))
        (l.first-set_next nothing) (without-absent what (q ∷ qs) d)
        (cut-HoldsList db q qs held m d e)

  removed-Rewired :
      (db : Db) (q : Objid) (qs : List Objid) → Rewired l holder (q ∷ qs) what db (removed q qs db)
  unfolding removed
  removed-Rewired db q qs = elim (Bool-cases (q ==ℤ what)) [
    | inl same ↦ rw (cut_here db q qs same) (at_holder (l.next y))
    | inr other ↦
        rw (cut_there db q qs other)
          (at_element (pred_of q qs what) (l.next y) (pred_of-mem q qs what))
  ]

-- LL_REMOVE finds the element and takes it out of the list, which keeps its order. The condition
-- on the length is one that a list of distinct valid objects meets.
pub ll_remove_lem :
    (l : Links) (db : Db) (holder what : Objid) (y : Object) (qs : List Objid)
    → HoldsList l db holder qs
    → mem what qs ≡ true
    → Distinct qs
    → find_object db what ≡ some y
    → length qs ≤ db.num_objects
    → (db' : Db) × (ll_remove l holder what db ≡ ok db')
      × HoldsList l db' holder (without what qs)
      × Rewired l holder qs what db db'
unfolding mem
ll_remove_lem l db holder what y [] held m d e h = cc
ll_remove_lem l db holder what y (q ∷ qs) held m d e h = (
  removed l holder what y q qs db,
  ll_remove_run l holder what y db q qs held m e (omega arith),
  removed-HoldsList l holder what y db q qs held m d e,
  removed-Rewired l holder what y db q qs,
)
