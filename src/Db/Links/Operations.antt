-- ===== src/Db/Links/Operations.antt =====
-- The list that an object holds, and the stores that LL_REMOVE and LL_APPEND of db_objects.c make.
use wp_lambdamoo.Prelude.{
  ◌≡◌, refl, sym, inl, inr, true, false, some, List, [], ◌∷◌, Bool-cases, ◌==ℤ◌,
}
use wp_lambdamoo.Var.{Objid, nothing}
use wp_lambdamoo.Db.{Object, Db, find_object}
use wp_lambdamoo.Db.Links.{Links}
use wp_lambdamoo.Db.Links.Chains.{
  mem, Distinct, without, Chain, modify, find_object-modify, Chain-modify_outside,
}

-- `holder` is valid and the list it holds has exactly these elements in this order.
abbrev pub HoldsList : Links → Db → Objid → List Objid → Type 0
HoldsList l db holder qs =
    (w : Object) × (find_object db holder ≡ some w) × Chain l db (l.first w) qs

-- The two shapes of the stores that a list operation makes.
pub data Rewired (l : Links) (holder : Objid) (qs : List Objid) (what : Objid) (db : Db)
    : Db → Type 0 where
  at_holder :
      (v : Objid)
      → Rewired l holder qs what db
          (modify (modify db holder (l.set_first v)) what (l.set_next nothing))
  at_element :
      (z v : Objid)
      → mem z qs ≡ true
      → Rewired l holder qs what db (modify (modify db z (l.set_next v)) what (l.set_next nothing))

-- A store leaves an object valid, and its `first` field alone where the store does.
pub find_kept :
    (l : Links) (db : Db) (p q : Objid) (f : Object → Object) (o : Object)
    → ((x : Object) → l.first (f x) ≡ l.first x)
    → find_object db q ≡ some o
    → (o' : Object) × (find_object (modify db p f) q ≡ some o') × (l.first o' ≡ l.first o)
find_kept l db p q f o k e = elim (Bool-cases (p ==ℤ q)) [
  | inl same ↦ (f o, rw (find_object-modify db p q f, same, e), k o)
  | inr other ↦ (o, rw (find_object-modify db p q f, other) e, refl)
]

pub find_valid :
    (db : Db) (p q : Objid) (f : Object → Object) (o : Object)
    → find_object db q ≡ some o
    → (o' : Object) × (find_object (modify db p f) q ≡ some o')
find_valid db p q f o e = elim (Bool-cases (p ==ℤ q)) [
  | inl same ↦ (f o, rw (find_object-modify db p q f, same, e))
  | inr other ↦ (o, rw (find_object-modify db p q f, other) e)
]

pub HoldsList-modify :
    (l : Links) (db : Db) (holder p : Objid) (f : Object → Object) (qs : List Objid)
    → ((x : Object) → l.first (f x) ≡ l.first x)
    → mem p qs ≡ false
    → HoldsList l db holder qs
    → HoldsList l (modify db p f) holder qs
HoldsList-modify l db holder p f qs k m (w, found, c) =
    let (w', found', same) = find_kept l db p holder f w k found in
    (w', found', rw same (Chain-modify_outside l db p f (l.first w) qs m c))

pub HoldsList-along :
    (l : Links) (a b : Db) (holder : Objid) (qs qs' : List Objid)
    → a ≡ b
    → qs ≡ qs'
    → HoldsList l b holder qs'
    → HoldsList l a holder qs
HoldsList-along l a b holder qs qs' e e' h = coe 0 1 (i. HoldsList l (sym e i) holder (sym e' i)) h

pub some-inj : {a b : Object} → some a ≡ some b → a ≡ b
some-inj p = cc

pub without-absent : (x : Objid) (qs : List Objid) → Distinct qs → mem x (without x qs) ≡ false
unfolding mem without
without-absent x [] d = refl
without-absent x (q ∷ qs) (nq, d) = elim (Bool-cases (x ==ℤ q)) [
  | inl same ↦ rw same (without-absent x qs d)
  | inr other ↦ rw (other, other) (without-absent x qs d)
]
