-- ===== src/Db/Links/Moves.antt =====
-- LL_REMOVE and LL_APPEND keep every list of the table, but for the object they are called with.
use wp_lambdamoo.Prelude.{
  ◌≡◌, refl, sym, ap, ◌∙◌, ◌⊎◌, inl, inr, Bool, true, false, ◌||◌, List, [], ◌∷◌, ◌++◌, arith,
  Bool-cases, ◌==ℤ◌, ==ℤ_iff, ==ℤ-refl, or-eq-false, ==ℤ-sym, clash,
}
use wp_lambdamoo.Var.{Objid}
use wp_lambdamoo.Db.{Db, valid}
use wp_lambdamoo.Db.Outcomes.{ok}
use wp_lambdamoo.Db.Links.{Links, ll_remove, ll_append}
use wp_lambdamoo.Db.Links.Chains.{mem, Distinct, without}
use wp_lambdamoo.Db.Links.Unlink.{without_absent}
use wp_lambdamoo.Db.Links.Operations.{HoldsList, HoldsList-along, Rewired}
use wp_lambdamoo.Db.Links.Removal.{ll_remove_lem}
use wp_lambdamoo.Db.Links.Appending.{ll_append_lem}
use wp_lambdamoo.Db.Links.Counting.{mem-without, without-Distinct, Chain-valid, Chain-short, both}
use wp_lambdamoo.Db.Links.Views.{
  AreLists, Rewired-HoldsList, Rewired-valid, Rewired-up, view_without, view_with, up_of,
  valid-find,
}

-- No object of one list is on another.
elsewhere :
    (l : Links) (db : Db) (view : Objid → List Objid) (p q x : Objid)
    → AreLists l db view
    → (p ==ℤ q) ≡ false
    → mem x (view p) ≡ true
    → mem x (view q) ≡ false
elsewhere l db view p q x lists ne m = elim (Bool-cases (mem x (view q))) [
  | inl m' ↦ absurd (clash (rw (lists.disjoint p q x m m') (==ℤ-refl q)) ne)
  | inr m' ↦ m'
]

without_nil : (x : Objid) → without x [] ≡ []
unfolding without
without_nil x = refl

module _ (l : Links) (db : Db) (view : Objid → List Objid) (holder what : Objid) where
  removed-AreLists :
      (db' : Db)
      → AreLists l db view
      → mem what (view holder) ≡ true
      → HoldsList l db' holder (without what (view holder))
      → Rewired l holder (view holder) what db db'
      → AreLists l db' (view_without what view)
  unfolding view_without
  removed-AreLists db' lists m here rewired = record {
    holds = λ p vp. elim (Bool-cases (holder ==ℤ p)) [
      | inl same ↦
          let e : holder ≡ p = (==ℤ_iff holder p).0 same in
          coe 0 1 (i. HoldsList l db' (e i) (without what (view (e i)))) here
      | inr other ↦
          let absent = elsewhere l db view holder p what lists other m in
          HoldsList-along l db' db' p (without what (view p)) (view p) refl
            (without_absent what (view p) absent)
            (Rewired-HoldsList l db holder what p (view holder) (view p) db' rewired other absent
              (λ z zm. elsewhere l db view holder p z lists other zm)
              (lists.holds p
                (sym (Rewired-valid l db holder what p (view holder) db' rewired) ∙ vp)))
    ];
    empty = λ p vp.
        rw (lists.empty p (sym (Rewired-valid l db holder what p (view holder) db' rewired) ∙ vp))
          (without_nil what);
    distinct = λ p. without-Distinct what (view p) (lists.distinct p);
    disjoint = λ p q x mp mq.
        lists.disjoint p q x
          (both (what ==ℤ x) (mem x (view p)) (sym (mem-without what x (view p)) ∙ mp)).1
          (both (what ==ℤ x) (mem x (view q)) (sym (mem-without what x (view q)) ∙ mq)).1;
  }

  -- LL_REMOVE takes an object off its list and changes no other list, no back pointer, and no
  -- object's validity.
  pub ll_remove_view :
      AreLists l db view
      → valid db holder ≡ true
      → mem what (view holder) ≡ true
      → (db' : Db) × (ll_remove l holder what db ≡ ok db')
        × AreLists l db' (view_without what view)
        × ((q : Objid) → valid db' q ≡ valid db q)
        × ((q : Objid) → up_of l db' q ≡ up_of l db q)
  ll_remove_view lists v m =
      let held = lists.holds holder v in
      let (y, found) = Chain-valid l db (l.first held.0) (view holder) what held.2 m in
      let short = Chain-short l db (l.first held.0) (view holder) held.2 (lists.distinct holder) in
      let (db', run, here, rewired) =
        ll_remove_lem l db holder what y (view holder) held m (lists.distinct holder) found short in
      (
        db',
        run,
        removed-AreLists db' lists m here rewired,
        (λ q. Rewired-valid l db holder what q (view holder) db' rewired),
        (λ q. Rewired-up l db holder what q (view holder) db' rewired),
      )

pub mem-append_one :
    (x w : Objid) (qs : List Objid) → mem x (qs ++ (w ∷ [])) ≡ (mem x qs || (x ==ℤ w))
unfolding mem
mem-append_one x w [] = ground arith
mem-append_one x w (q ∷ qs) = rw (mem-append_one x w qs) (ground arith)

last_one : (a b : Bool) → a ≡ false → (a || b) ≡ true → b ≡ true
last_one a b e m = rw e at m

Distinct-append :
    (w : Objid) (qs : List Objid) → Distinct qs → mem w qs ≡ false → Distinct (qs ++ (w ∷ []))
unfolding mem
Distinct-append w [] d m = (refl, d)
Distinct-append w (q ∷ qs) (nq, d) m =
    let (ne, m') = or-eq-false (w ==ℤ q) (mem w qs) m in
    (rw (mem-append_one q w qs, nq, ==ℤ-sym q w) ne, Distinct-append w qs d m')

view_with_here :
    (holder what p : Objid) (view : Objid → List Objid)
    → holder ≡ p
    → view_with holder what view p ≡ view p ++ (what ∷ [])
unfolding view_with
view_with_here holder what p view e = rw (sym e, ==ℤ-refl holder)

view_with_there :
    (holder what p : Objid) (view : Objid → List Objid)
    → (holder ==ℤ p) ≡ false
    → view_with holder what view p ≡ view p
unfolding view_with
view_with_there holder what p view e = rw (==ℤ-sym p holder, e)

pub view_with-mem :
    (holder what p x : Objid) (view : Objid → List Objid)
    → mem x (view_with holder what view p) ≡ true
    → (mem x (view p) ≡ true) ⊎ ((x ≡ what) × (holder ≡ p))
view_with-mem holder what p x view m = elim (Bool-cases (holder ==ℤ p)) [
  | inl same ↦
      let e : holder ≡ p = (==ℤ_iff holder p).0 same in
      let m' =
        sym (mem-append_one x what (view p))
        ∙ ap (mem x) (sym (view_with_here holder what p view e))
        ∙ m in
      elim (Bool-cases (mem x (view p))) [
        | inl here ↦ inl here
        | inr gone ↦ inr ((==ℤ_iff x what).0 (last_one (mem x (view p)) (x ==ℤ what) gone m'), e)
      ]
  | inr other ↦ inl (ap (mem x) (sym (view_with_there holder what p view other)) ∙ m)
]

module _ (l : Links) (db : Db) (view : Objid → List Objid) (holder what : Objid) where
  appended-AreLists :
      (db' : Db)
      → AreLists l db view
      → valid db holder ≡ true
      → ((q : Objid) → mem what (view q) ≡ false)
      → HoldsList l db' holder (view holder ++ (what ∷ []))
      → Rewired l holder (view holder) what db db'
      → AreLists l db' (view_with holder what view)
  appended-AreLists db' lists v free here rewired = record {
    holds = λ p vp. elim (Bool-cases (holder ==ℤ p)) [
      | inl same ↦
          let e : holder ≡ p = (==ℤ_iff holder p).0 same in
          HoldsList-along l db' db' p (view_with holder what view p) (view p ++ (what ∷ [])) refl
            (view_with_here holder what p view e)
            (coe 0 1 (i. HoldsList l db' (e i) (view (e i) ++ (what ∷ []))) here)
      | inr other ↦
          HoldsList-along l db' db' p (view_with holder what view p) (view p) refl
            (view_with_there holder what p view other)
            (Rewired-HoldsList l db holder what p (view holder) (view p) db' rewired other (free p)
              (λ z zm. elsewhere l db view holder p z lists other zm)
              (lists.holds p
                (sym (Rewired-valid l db holder what p (view holder) db' rewired) ∙ vp)))
    ];
    empty = λ p vp.
        let vp' = sym (Rewired-valid l db holder what p (view holder) db' rewired) ∙ vp in
        elim (Bool-cases (holder ==ℤ p)) [
          | inl same ↦ absurd (clash v (ap (valid db) ((==ℤ_iff holder p).0 same) ∙ vp'))
          | inr other ↦ view_with_there holder what p view other ∙ lists.empty p vp'
        ];
    distinct = λ p. elim (Bool-cases (holder ==ℤ p)) [
      | inl same ↦
          coe 0 1
            (i. Distinct (sym (view_with_here holder what p view ((==ℤ_iff holder p).0 same)) i))
            (Distinct-append what (view p) (lists.distinct p) (free p))
      | inr other ↦
          coe 0 1 (i. Distinct (sym (view_with_there holder what p view other) i))
            (lists.distinct p)
    ];
    disjoint = λ p q x mp mq. elim (view_with-mem holder what p x view mp) [
      | inl mp' ↦ elim (view_with-mem holder what q x view mq) [
        | inl mq' ↦ lists.disjoint p q x mp' mq'
        | inr r ↦ absurd (clash mp' (ap (λ z. mem z (view p)) r.0 ∙ free p))
      ]
      | inr r ↦ elim (view_with-mem holder what q x view mq) [
        | inl mq' ↦ absurd (clash mq' (ap (λ z. mem z (view q)) r.0 ∙ free q))
        | inr r' ↦ sym r.1 ∙ r'.1
      ]
    ];
  }

  -- LL_APPEND puts an object that is on no list at the end of the holder's and changes no other
  -- list, no back pointer, and no object's validity.
  pub ll_append_view :
      AreLists l db view
      → valid db holder ≡ true
      → valid db what ≡ true
      → ((q : Objid) → mem what (view q) ≡ false)
      → (db' : Db) × (ll_append l holder what db ≡ ok db')
        × AreLists l db' (view_with holder what view)
        × ((q : Objid) → valid db' q ≡ valid db q)
        × ((q : Objid) → up_of l db' q ≡ up_of l db q)
  ll_append_view lists v vw free =
      let held = lists.holds holder v in
      let (y, found) = valid-find db what vw in
      let short = Chain-short l db (l.first held.0) (view holder) held.2 (lists.distinct holder) in
      let (db', run, here, rewired) =
        ll_append_lem l db holder what y (view holder) held (free holder) (lists.distinct holder)
          found short in
      (
        db',
        run,
        appended-AreLists db' lists v free here rewired,
        (λ q. Rewired-valid l db holder what q (view holder) db' rewired),
        (λ q. Rewired-up l db holder what q (view holder) db' rewired),
      )
