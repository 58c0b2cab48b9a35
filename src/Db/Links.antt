-- ===== src/Db/Links.antt =====
-- The macros LL_REMOVE and LL_APPEND of db_objects.c: lists of objects that are threaded through the
-- objects themselves, contents by `next` and children by `sibling`.
pub mod Chains
pub mod Unlink
pub mod Append
pub mod Operations
pub mod Removal
pub mod Appending
pub mod Counting
pub mod Views
pub mod Moves
use wp_lambdamoo.Prelude.{
  ℕ, zero, suc, ◌+◌, ◌-◌, ◌*◌, ◌/◌, ◌%◌, ◌^◌, ◌≤◌, ◌<◌, ◌≡◌, refl, sym, ap, ◌∙◌, ◌≢◌, ◌↔◌, ◌⊎◌, inl,
  inr, Bool, true, false, not, ◌&&◌, ◌||◌, Option, none, some, List, [], ◌∷◌, ◌++◌, map,
  append_assoc, append-nil, arith, ltb, leb, ◌==◌, if◌then◌else◌, ltb→lt, lt→ltb, leb→le, ==_iff,
  ==-refl, Bool-cases, Option-cases, every, every_at, length, get_elem?, set, take, drop,
  length-append, length-take, length-drop, take-append-drop, drop-append, take-append, All, ℤ, pos,
  negsuc, pos_part, neg_part, sub_ℕ, ◌+ℤ◌, ◌-ℤ◌, ◌*ℤ◌, ◌≤ℤ◌, leb_ℤ, ltb_ℤ, ◌==ℤ◌, ==ℤ_iff, ==ℤ-refl,
  drop-nil, take-nil, pred_pos, pred_negsuc, suc-ne-zero, take_all, drop_all, succ_pos, sub_pos,
  drop-drop,
}
use wp_lambdamoo.Var.{Objid, nothing}
use wp_lambdamoo.Db.{Object, Db, at, store, find_object}
use wp_lambdamoo.Db.Outcomes.{Outcome, ok, fault, ◌>>=◌}

-- The fields that a use of the macros names, and the field that points back at the holder.
pub record Links : Type 0 where
  pub first : Object → Objid
  pub set_first : Objid → Object → Object
  pub next : Object → Objid
  pub set_next : Objid → Object → Object
  pub up : Object → Objid
  pub next-set_next : (v : Objid) (o : Object) → next (set_next v o) ≡ v
  pub next-set_first : (v : Objid) (o : Object) → next (set_first v o) ≡ next o
  pub first-set_next : (v : Objid) (o : Object) → first (set_next v o) ≡ first o
  pub first-set_first : (v : Objid) (o : Object) → first (set_first v o) ≡ v
  pub up-set_next : (v : Objid) (o : Object) → up (set_next v o) ≡ up o
  pub up-set_first : (v : Objid) (o : Object) → up (set_first v o) ≡ up o

abbrev pub contents_links : Links
contents_links = record {
  first = λ o. o.contents;
  set_first = λ v o. record o { contents = v };
  next = λ o. o.next;
  set_next = λ v o. record o { next = v };
  up = λ o. o.location;
  next-set_next = λ v o. refl;
  next-set_first = λ v o. refl;
  first-set_next = λ v o. refl;
  first-set_first = λ v o. refl;
  up-set_next = λ v o. refl;
  up-set_first = λ v o. refl;
}

abbrev pub child_links : Links
child_links = record {
  first = λ o. o.child;
  set_first = λ v o. record o { child = v };
  next = λ o. o.sibling;
  set_next = λ v o. record o { sibling = v };
  up = λ o. o.parent;
  next-set_next = λ v o. refl;
  next-set_first = λ v o. refl;
  first-set_next = λ v o. refl;
  first-set_first = λ v o. refl;
  up-set_next = λ v o. refl;
  up-set_first = λ v o. refl;
}

module _ (l : Links) where
  -- The search of LL_REMOVE for the element in front of `what`. Out of fuel, the list is a cycle.
  unfoldable pub unlink_loop : ℕ → Objid → Objid → Db → Outcome Db
  unlink_loop zero lid what db = fault
  unlink_loop (suc fuel) lid what db =
      if lid ==ℤ nothing
      then ok db
      else at db lid >>= λ o.
          let rest = unlink_loop fuel (l.next o) what db in
          if l.next o ==ℤ what
          then (at db what >>= λ x. store db lid (l.set_next (l.next x)))
          else rest

  unfoldable pub ll_remove : Objid → Objid → Db → Outcome Db
  ll_remove holder what db = do
    w ← at db holder
    db' ←
        if l.first w ==ℤ what
        then (at db what >>= λ x. store db holder (l.set_first (l.next x)))
        else unlink_loop (suc db.num_objects) (l.first w) what db
    store db' what (l.set_next nothing)

  -- The walk of LL_APPEND to the last element.
  unfoldable pub link_loop : ℕ → Objid → Objid → Db → Outcome Db
  link_loop zero lid what db = fault
  link_loop (suc fuel) lid what db = at db lid >>= λ o.
      let rest = link_loop fuel (l.next o) what db in
      if l.next o ==ℤ nothing then store db lid (l.set_next what) else rest

  unfoldable pub ll_append : Objid → Objid → Db → Outcome Db
  ll_append holder what db = do
    w ← at db holder
    db' ←
        if l.first w ==ℤ nothing
        then store db holder (l.set_first what)
        else link_loop (suc db.num_objects) (l.first w) what db
    store db' what (l.set_next nothing)
