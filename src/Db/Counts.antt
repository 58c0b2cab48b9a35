-- ===== src/Db/Counts.antt =====
-- The loops of db_objects.c over the contents and the children of an object.
use mathlib.Core.Path.{fun_ext}
use wp_lambdamoo.Prelude.{
  ℕ, zero, suc, ◌+◌, ◌<◌, ◌≡◌, ap, Bool, true, false, List, [], ◌∷◌, arith, if◌then◌else◌, length,
}
use wp_lambdamoo.Var.{Objid}
use wp_lambdamoo.Db.{Db, valid}
use wp_lambdamoo.Db.Outcomes.{Outcome, ok, ◌>>=◌}
use wp_lambdamoo.Db.Attributes.{count_loop, db_count, for_all_loop, db_for_all}
use wp_lambdamoo.Db.Links.{Links}
use wp_lambdamoo.Db.Links.Chains.{Chain, Chain-start}
use wp_lambdamoo.Db.Links.Counting.{Chain-short}
use wp_lambdamoo.Db.Links.Views.{AreLists}

-- The visit of a list by the callback, which ends at its first `true`.
unfoldable pub visit {κ} :
    {S : Type κ} → List Objid → (S → Objid → Outcome (Bool × S)) → S → Outcome (Bool × S)
visit [] func s = ok (false, s)
visit (q ∷ qs) func s =
    func s q >>= λ r. let rest = visit qs func r.1 in if r.0 then ok (true, r.1) else rest

module _ (l : Links) where
  count_run :
      (fuel : ℕ) (db : Db) (start : Objid) (qs : List Objid) (i : ℕ)
      → Chain l db start qs
      → length qs < fuel
      → count_loop l fuel db start i ≡ ok (i + length qs)
  unfolding count_loop
  count_run zero db start qs i c h = elim h [ ]
  count_run (suc fuel) db start [] i c h = rw c (ap ok (omega arith))
  count_run (suc fuel) db start (q ∷ qs) i c h =
      rw
        (
          Chain-start l db start q qs c,
          c.0,
          c.1.1,
          count_run fuel db (l.next c.1.0) qs (i + 1) c.1.2 (omega arith),
        )
        (ap ok (omega arith))

  -- `db_count_children` and `db_count_contents` return the length of the list.
  pub db_count_lem :
      (db : Db) (view : Objid → List Objid) (oid : Objid)
      → AreLists l db view
      → valid db oid ≡ true
      → db_count l db oid ≡ ok (length (view oid))
  unfolding db_count
  db_count_lem db view oid lists v =
      let (w, found, c) = lists.holds oid v in
      let short = Chain-short l db (l.first w) (view oid) c (lists.distinct oid) in
      rw (found, count_run (suc db.num_objects) db (l.first w) (view oid) 0 c (omega arith))
        (ap ok (omega arith))

  module _ {κ} {S : Type κ} (func : S → Objid → Outcome (Bool × S)) where
    for_all_run :
        (fuel : ℕ) (db : Db) (start : Objid) (qs : List Objid) (s : S)
        → Chain l db start qs
        → length qs < fuel
        → for_all_loop l fuel db start func s ≡ visit qs func s
    unfolding for_all_loop visit
    for_all_run zero db start qs s c h = elim h [ ]
    for_all_run (suc fuel) db start [] s c h = rw c
    for_all_run (suc fuel) db start (q ∷ qs) s c h =
        rw (Chain-start l db start q qs c, c.0, c.1.1)
          (ap (λ f. func s q >>= f)
            (fun_ext (λ r. rw (for_all_run fuel db (l.next c.1.0) qs r.1 c.1.2 (omega arith)))))

    -- `db_for_all_children` and `db_for_all_contents` call `func` on the elements in their order,
    -- until it answers `true`.
    pub db_for_all_lem :
        (db : Db) (view : Objid → List Objid) (oid : Objid) (s : S)
        → AreLists l db view
        → valid db oid ≡ true
        → db_for_all l db oid func s ≡ visit (view oid) func s
    unfolding db_for_all
    db_for_all_lem db view oid s lists v =
        let (w, found, c) = lists.holds oid v in
        let short = Chain-short l db (l.first w) (view oid) c (lists.distinct oid) in
        rw (found, for_all_run (suc db.num_objects) db (l.first w) (view oid) s c (omega arith))
