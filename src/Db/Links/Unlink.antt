-- ===== src/Db/Links/Unlink.antt =====
-- The search loop of LL_REMOVE: it finds the element in front of the one to remove.
use wp_lambdamoo.Prelude.{
  ℕ, zero, suc, ◌≤◌, ◌≡◌, refl, sym, ap, ◌∙◌, inl, inr, true, false, some, List, [], ◌∷◌, arith,
  if◌then◌else◌, Bool-cases, length, ◌==ℤ◌, ==ℤ_iff, ==ℤ-refl, or-eq-false, ==ℤ-sym, clash,
}
use wp_lambdamoo.Var.{Objid}
use wp_lambdamoo.Db.{Object, Db, find_object}
use wp_lambdamoo.Db.Outcomes.{ok}
use wp_lambdamoo.Db.Links.{Links, unlink_loop}
use wp_lambdamoo.Db.Links.Chains.{
  mem, Distinct, without, Chain, modify, find_object-modify, store_found, Chain-modify_outside,
  Chain-start,
}

some-inj : {a b : Object} → some a ≡ some b → a ≡ b
some-inj p = cc

-- The element in front of `what` in the list `p ∷ qs`.
pub pred_of : Objid → List Objid → Objid → Objid
pred_of p [] what = p
pred_of p (q ∷ qs) what = let rest = pred_of q qs what in if q ==ℤ what then p else rest

pub pred_of-mem :
    (p : Objid) (qs : List Objid) (what : Objid) → mem (pred_of p qs what) (p ∷ qs) ≡ true
unfolding pred_of mem
pred_of-mem p [] what = rw (==ℤ-refl p)
pred_of-mem p (q ∷ qs) what = elim (Bool-cases (q ==ℤ what)) [
  | inl e ↦ rw (e, ==ℤ-refl p)
  | inr e ↦ ground (arith, e, pred_of-mem q qs what)
]

pub without_absent : (x : Objid) (qs : List Objid) → mem x qs ≡ false → without x qs ≡ qs
unfolding mem without
without_absent x [] m = refl
without_absent x (q ∷ qs) m =
    let (ne, m') = or-eq-false (x ==ℤ q) (mem x qs) m in rw (ne, without_absent x qs m')

-- An element of the one list is none that is not on it.
pub apart : (a p : Objid) (qs : List Objid) → mem a qs ≡ true → mem p qs ≡ false → (a ==ℤ p) ≡ false
apart a p qs ma mp = elim (Bool-cases (a ==ℤ p)) [
  | inl e ↦ absurd (clash (rw ((==ℤ_iff a p).0 e) at ma) mp)
  | inr e ↦ e
]

pub pred_here :
    (p q : Objid) (qs : List Objid) (what : Objid)
    → (q ==ℤ what) ≡ true
    → pred_of p (q ∷ qs) what ≡ p
unfolding pred_of
pred_here p q qs what e = rw e

pred_there :
    (p q : Objid) (qs : List Objid) (what : Objid)
    → (q ==ℤ what) ≡ false
    → pred_of p (q ∷ qs) what ≡ pred_of q qs what
unfolding pred_of
pred_there p q qs what e = rw e

pub without_here :
    (x q : Objid) (qs : List Objid) → (q ==ℤ x) ≡ true → without x (q ∷ qs) ≡ without x qs
unfolding without
without_here x q qs e = rw (==ℤ-sym x q, e)

pub without_there :
    (x q : Objid) (qs : List Objid) → (q ==ℤ x) ≡ false → without x (q ∷ qs) ≡ q ∷ without x qs
unfolding without
without_there x q qs e = rw (==ℤ-sym x q, e)

Chain-along :
    (l : Links) (db : Db) (f : Object → Object) (p a b : Objid) (qs qs' : List Objid)
    → a ≡ b
    → qs ≡ qs'
    → Chain l (modify db b f) p (p ∷ qs')
    → Chain l (modify db a f) p (p ∷ qs)
Chain-along l db f p a b qs qs' e e' c =
    coe 0 1 (i. Chain l (modify db (sym e i) f) p (p ∷ sym e' i)) c

module _ (l : Links) (what : Objid) (y : Object) where
  pub unlink_run :
      (fuel : ℕ) (p : Objid) (qs : List Objid) (db : Db)
      → Chain l db p (p ∷ qs)
      → mem what qs ≡ true
      → find_object db what ≡ some y
      → length qs ≤ fuel
      → unlink_loop l fuel p what db ≡ ok (modify db (pred_of p qs what) (l.set_next (l.next y)))
  unfolding unlink_loop pred_of mem
  unlink_run fuel p [] db c m e h = cc
  unlink_run zero p (q ∷ qs) db c m e h = elim h [ ]
  unlink_run (suc fuel) p (q ∷ qs) db (start, (x, found, (nx, more))) m e h =
      elim (Bool-cases (q ==ℤ what)) [
        | inl same ↦ rw (
          Chain-start l db p p (q ∷ qs) (start, (x, found, (nx, more))),
          found,
          nx,
          same,
          e,
          store_found db p (l.set_next (l.next y)) x found,
        )
        | inr other ↦
            rw (Chain-start l db p p (q ∷ qs) (start, (x, found, (nx, more))), found, nx, other)
              (unlink_run fuel q qs db (refl, more) (rw (==ℤ-sym what q, other) at m) e
                (omega arith))
      ]

  -- What the loop leaves is the chain without `what`.
  pub Chain-unlinked :
      (p : Objid) (qs : List Objid) (db : Db)
      → Chain l db p (p ∷ qs)
      → mem what qs ≡ true
      → Distinct (p ∷ qs)
      → find_object db what ≡ some y
      → Chain l (modify db (pred_of p qs what) (l.set_next (l.next y))) p (p ∷ without what qs)
  unfolding mem
  Chain-unlinked p [] db c m d e = cc
  Chain-unlinked p (q ∷ qs) db (start, (x, found, (nx, (x', found', more)))) m (np, (nq, d)) e =
      elim (Bool-cases (q ==ℤ what)) [
        | inl same ↦
            let qw : q ≡ what = (==ℤ_iff q what).0 same in
            let xy : x' ≡ y = some-inj (sym found' ∙ ap (find_object db) qw ∙ e) in
            let pq = or-eq-false (p ==ℤ q) (mem p qs) np in
            let wq : mem what qs ≡ false = rw (qw) at nq in
            Chain-along l db (l.set_next (l.next y)) p (pred_of p (q ∷ qs) what) p
              (without what (q ∷ qs)) qs (pred_here p q qs what same)
              (without_here what q qs same ∙ without_absent what qs wq)
              (
                start,
                (
                  l.set_next (l.next y) x,
                  rw (find_object-modify db p p (l.set_next (l.next y)), ==ℤ-refl p, found),
                  rw (l.next-set_next (l.next y) x)
                      (Chain-modify_outside l db p _ (l.next y) qs pq.1 (rw xy at more)),
                ),
              )
        | inr other ↦
            let wo : (what ==ℤ q) ≡ false = ==ℤ-sym what q ∙ other in
            let m' : mem what qs ≡ true = rw wo at m in
            let ih = Chain-unlinked q qs db (refl, (x', found', more)) m' (nq, d) e in
            let ne = apart (pred_of q qs what) p (q ∷ qs) (pred_of-mem q qs what) np in
            Chain-along l db (l.set_next (l.next y)) p (pred_of p (q ∷ qs) what) (pred_of q qs what)
              (without what (q ∷ qs)) (q ∷ without what qs) (pred_there p q qs what other)
              (without_there what q qs other)
              (
                start,
                (
                  x,
                  rw (find_object-modify db (pred_of q qs what) p (l.set_next (l.next y)), ne)
                      found,
                  (nx, ih.1),
                ),
              )
      ]
