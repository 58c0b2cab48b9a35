-- ===== src/Db/Links/Chains.antt =====
-- Lists of objects as chains through the table, and what a store to one object leaves of them.
use wp_lambdamoo.Prelude.{
  ◌≡◌, refl, inl, inr, Bool, false, ◌||◌, Option, none, some, List, [], ◌∷◌, arith, if◌then◌else◌,
  Bool-cases, pos, negsuc, ◌==ℤ◌, or-eq-false,
}
use wp_lambdamoo.Var.{Objid, nothing}
use wp_lambdamoo.Db.{Object, Db, put, store, find_object}
use wp_lambdamoo.Db.Outcomes.{ok}
use wp_lambdamoo.Db.Links.{Links}

-- Membership in a list of object numbers.
unfoldable pub mem : Objid → List Objid → Bool
mem x [] = false
mem x (q ∷ l) = (x ==ℤ q) || mem x l

abbrev pub Distinct : List Objid → Type 0
Distinct [] = Unit
Distinct (q ∷ l) = (mem q l ≡ false) × Distinct l

-- The list without `x`.
unfoldable pub without : Objid → List Objid → List Objid
without x [] = []
without x (q ∷ l) = let rest = without x l in if x ==ℤ q then rest else q ∷ rest

-- `start` and the `next` fields run through exactly the objects of the list, and end by NOTHING.
abbrev pub Chain : Links → Db → Objid → List Objid → Type 0
Chain l db start [] = start ≡ nothing
Chain l db start (q ∷ qs) =
    (start ≡ q) × ((x : Object) × (find_object db q ≡ some x) × Chain l db (l.next x) qs)

-- A store as a total function on tables.
abbrev pub change : (Object → Object) → Option Object → Option Object
change f none = none
change f (some o) = some (f o)

unfoldable pub modify : Db → Objid → (Object → Object) → Db
modify db p f = elim (find_object db p) [ none ↦ db | some o ↦ put db p (f o) ]

pub find_object-modify :
    (db : Db) (p q : Objid) (f : Object → Object)
    → find_object (modify db p f) q
      ≡ (if p ==ℤ q then change f (find_object db q) else find_object db q)
unfolding modify find_object
find_object-modify db (negsuc n) (negsuc m) f = ground arith
find_object-modify db (negsuc n) (pos m) f = ground arith
find_object-modify db (pos n) (negsuc m) f = ground arith
find_object-modify db (pos n) (pos m) f = ground arith

pub store_found :
    (db : Db) (p : Objid) (f : Object → Object) (o : Object)
    → find_object db p ≡ some o
    → store db p f ≡ ok (modify db p f)
unfolding store modify
store_found db p f o e = rw (e, modify)

pub num_objects-modify :
    (db : Db) (p : Objid) (f : Object → Object) → (modify db p f).num_objects ≡ db.num_objects
unfolding modify find_object
num_objects-modify db (negsuc n) f = refl
num_objects-modify db (pos n) f = ground arith

module _ (l : Links) where
  -- A chain does not see a store to an object outside it.
  pub Chain-modify_outside :
      (db : Db) (p : Objid) (f : Object → Object) (start : Objid) (qs : List Objid)
      → mem p qs ≡ false
      → Chain l db start qs
      → Chain l (modify db p f) start qs
  unfolding mem
  Chain-modify_outside db p f start [] m c = c
  Chain-modify_outside db p f start (q ∷ qs) m (e, (x, found, rest)) =
      let (ne, m') = or-eq-false (p ==ℤ q) (mem p qs) m in
      (
        e,
        (
          x,
          rw (find_object-modify db p q f, ne) found,
          Chain-modify_outside db p f (l.next x) qs m' rest,
        ),
      )

  -- Nor a store that keeps the `next` field.
  pub Chain-modify_keep :
      (db : Db) (p : Objid) (f : Object → Object) (start : Objid) (qs : List Objid)
      → ((o : Object) → l.next (f o) ≡ l.next o)
      → Chain l db start qs
      → Chain l (modify db p f) start qs
  Chain-modify_keep db p f start [] k c = c
  Chain-modify_keep db p f start (q ∷ qs) k (e, (x, found, rest)) =
      let rest' = Chain-modify_keep db p f (l.next x) qs k rest in
      elim (Bool-cases (p ==ℤ q)) [
        | inl same ↦ (e, (f x, rw (find_object-modify db p q f, same, found), rw (k x) rest'))
        | inr other ↦ (e, (x, rw (find_object-modify db p q f, other) found, rest'))
      ]

  -- The end of a chain is NOTHING and every object on it is valid, so NOTHING is not on it.
  pub Chain-start :
      (db : Db) (start q : Objid) (qs : List Objid)
      → Chain l db start (q ∷ qs)
      → (start ==ℤ nothing) ≡ false
  unfolding find_object
  Chain-start db start (pos n) qs (e, (x, found, rest)) = rw e
  Chain-start db start (negsuc n) qs (e, (x, found, rest)) = cc
