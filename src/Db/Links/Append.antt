-- ===== src/Db/Links/Append.antt =====
-- The walk of LL_APPEND: it stores behind the last element of the list.
use wp_lambdamoo.Prelude.{
  ℕ, zero, suc, ◌<◌, ◌≡◌, refl, true, false, some, List, [], ◌∷◌, ◌++◌, arith, length, ◌==ℤ◌,
  ==ℤ-refl, or-eq-false, ==ℤ-sym,
}
use wp_lambdamoo.Var.{Objid, nothing}
use wp_lambdamoo.Db.{Object, Db, find_object}
use wp_lambdamoo.Db.Outcomes.{ok}
use wp_lambdamoo.Db.Links.{Links, link_loop}
use wp_lambdamoo.Db.Links.Chains.{
  mem, Distinct, Chain, modify, find_object-modify, store_found, Chain-start,
}
use wp_lambdamoo.Db.Links.Unlink.{apart}

pub last_of : Objid → List Objid → Objid
last_of p [] = p
last_of p (q ∷ qs) = last_of q qs

pub last_of-mem : (p : Objid) (qs : List Objid) → mem (last_of p qs) (p ∷ qs) ≡ true
unfolding last_of mem
last_of-mem p [] = rw (==ℤ-refl p)
last_of-mem p (q ∷ qs) = ground (arith, last_of-mem q qs)

module _ (l : Links) (what : Objid) where
  pub link_run :
      (fuel : ℕ) (p : Objid) (qs : List Objid) (db : Db)
      → Chain l db p (p ∷ qs)
      → length qs < fuel
      → link_loop l fuel p what db ≡ ok (modify db (last_of p qs) (l.set_next what))
  unfolding link_loop last_of
  link_run zero p qs db c h = elim h [ ]
  link_run (suc fuel) p [] db (start, (x, found, end)) h =
      rw (found, end, store_found db p (l.set_next what) x found)
  link_run (suc fuel) p (q ∷ qs) db (start, (x, found, (nx, more))) h =
      rw (found, nx, Chain-start l db q q qs (refl, more))
        (link_run fuel q qs db (refl, more) (omega arith))

  -- The table after both stores.
  unfoldable pub linked : Objid → List Objid → Db → Db
  linked p qs db = modify (modify db (last_of p qs) (l.set_next what)) what (l.set_next nothing)

  find_object-linked :
      (p : Objid) (qs : List Objid) (db : Db) (q : Objid)
      → (last_of p qs ==ℤ q) ≡ false
      → (what ==ℤ q) ≡ false
      → find_object (linked p qs db) q ≡ find_object db q
  unfolding linked
  find_object-linked p qs db q e e' = rw (
    find_object-modify (modify db (last_of p qs) (l.set_next what)) what q (l.set_next nothing),
    e',
    find_object-modify db (last_of p qs) q (l.set_next what),
    e,
  )

  pub Chain-linked :
      (p : Objid) (qs : List Objid) (db : Db) (y : Object)
      → Chain l db p (p ∷ qs)
      → Distinct (p ∷ qs)
      → mem what (p ∷ qs) ≡ false
      → find_object db what ≡ some y
      → Chain l (linked p qs db) p (p ∷ qs ++ (what ∷ []))
  unfolding mem linked last_of
  Chain-linked p [] db y (start, (x, found, end)) d m e =
      let pw = or-eq-false (what ==ℤ p) false m in
      (
        start,
        (
          l.set_next what x,
          rw (
            find_object-modify (modify db p (l.set_next what)) what p (l.set_next nothing),
            pw.0,
            find_object-modify db p p (l.set_next what),
            ==ℤ-refl p,
            found,
          ),
          (
            l.next-set_next what x,
            (
              l.set_next nothing y,
              rw (
                find_object-modify (modify db p (l.set_next what)) what what (l.set_next nothing),
                ==ℤ-refl what,
                find_object-modify db p what (l.set_next what),
                ==ℤ-sym p what,
                pw.0,
                e,
              ),
              l.next-set_next nothing y,
            ),
          ),
        ),
      )
  Chain-linked p (q ∷ qs) db y (start, (x, found, (nx, more))) (np, d) m e =
      let (wp, wq) = or-eq-false (what ==ℤ p) (mem what (q ∷ qs)) m in
      let ne = apart (last_of q qs) p (q ∷ qs) (last_of-mem q qs) np in
      let ih = Chain-linked q qs db y (refl, more) d wq e in
      (start, (x, rw (find_object-linked q qs db p ne wp) found, (nx, ih.1)))
