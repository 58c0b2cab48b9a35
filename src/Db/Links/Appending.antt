-- ===== src/Db/Links/Appending.antt =====
-- LL_APPEND of db_objects.c as an operation on the list that an object holds.
use wp_lambdamoo.Prelude.{
  suc, ◌≤◌, ◌≡◌, refl, ◌∙◌, false, some, List, [], ◌∷◌, ◌++◌, arith, length, ==ℤ-refl,
}
use wp_lambdamoo.Var.{Objid, nothing}
use wp_lambdamoo.Db.{Object, Db, find_object}
use wp_lambdamoo.Db.Outcomes.{ok}
use wp_lambdamoo.Db.Links.{Links, ll_append}
use wp_lambdamoo.Db.Links.Chains.{
  mem, Distinct, modify, find_object-modify, store_found, Chain-start,
}
use wp_lambdamoo.Db.Links.Append.{last_of, last_of-mem, link_run, linked, Chain-linked}
use wp_lambdamoo.Db.Links.Operations.{
  HoldsList, Rewired, at_holder, at_element, find_kept, find_valid,
}

-- LL_APPEND puts an object that is not on the list behind its last element.
pub ll_append_lem :
    (l : Links) (db : Db) (holder what : Objid) (y : Object) (qs : List Objid)
    → HoldsList l db holder qs
    → mem what qs ≡ false
    → Distinct qs
    → find_object db what ≡ some y
    → length qs ≤ db.num_objects
    → (db' : Db) × (ll_append l holder what db ≡ ok db')
      × HoldsList l db' holder (qs ++ (what ∷ []))
      × Rewired l holder qs what db db'
unfolding ll_append linked
ll_append_lem l db holder what y [] (w, found, end) m d e h =
    let db' = modify db holder (l.set_first what) in
    let (y', found') = find_valid db holder what (l.set_first what) y e in
    let here : find_object (modify db holder (l.set_first what)) holder
        ≡ some (l.set_first what w) =
      rw (find_object-modify db holder holder (l.set_first what), ==ℤ-refl holder, found) in
    let (w', kept, first) =
      find_kept l db' what holder (l.set_next nothing) (l.set_first what w)
        (l.first-set_next nothing) here in
    (
      modify (modify db holder (l.set_first what)) what (l.set_next nothing),
      rw (
        found,
        end,
        store_found db holder (l.set_first what) w found,
        store_found (modify db holder (l.set_first what)) what (l.set_next nothing) y' found',
      ),
      (
        w',
        kept,
        (
          first ∙ l.first-set_first what w,
          (
            l.set_next nothing y',
            rw (
              find_object-modify (modify db holder (l.set_first what)) what what
                  (l.set_next nothing),
              ==ℤ-refl what,
              found',
            ),
            l.next-set_next nothing y',
          ),
        ),
      ),
      at_holder what,
    )
ll_append_lem l db holder what y (q ∷ qs) (w, found, (start, more)) m d e h =
    let db' = modify db (last_of q qs) (l.set_next what) in
    let (y', found') = find_valid db (last_of q qs) what (l.set_next what) y e in
    let (w', kept, first) =
      find_kept l db (last_of q qs) holder (l.set_next what) w (l.first-set_next what) found in
    let (w'', kept', first') =
      find_kept l db' what holder (l.set_next nothing) w' (l.first-set_next nothing) kept in
    let chain = Chain-linked l what q qs db y (refl, more) d m e in
    (
      linked l what q qs db,
      rw (
        found,
        start,
        Chain-start l db q q qs (refl, more),
        link_run l what (suc db.num_objects) q qs db (refl, more) (omega arith),
        store_found (modify db (last_of q qs) (l.set_next what)) what (l.set_next nothing) y'
            found',
      ),
      (w'', kept', (first' ∙ first ∙ start, chain.1)),
      at_element (last_of q qs) what (last_of-mem q qs),
    )
