-- ===== src/Db/Links/Views.antt =====
-- All the lists of one family at once: what LL_REMOVE and LL_APPEND do to the whole table.
use wp_lambdamoo.Prelude.{
  ◌≡◌, refl, ap, ◌∙◌, inl, inr, true, false, Option, none, some, List, [], ◌∷◌, ◌++◌, if◌then◌else◌,
  Bool-cases, Option-cases, ◌==ℤ◌, clash,
}
use wp_lambdamoo.Var.{Objid, nothing}
use wp_lambdamoo.Db.{Object, Db, find_object, valid, is_some}
use wp_lambdamoo.Db.Links.{Links}
use wp_lambdamoo.Db.Links.Chains.{
  mem, Distinct, without, change, modify, find_object-modify, Chain-modify_keep,
}
use wp_lambdamoo.Db.Links.Operations.{HoldsList, HoldsList-modify, Rewired, at_holder, at_element}

-- `view` names the list of each valid object. No object is on two lists.
pub record AreLists (l : Links) (db : Db) (view : Objid → List Objid) : Type 0 where
  pub holds : (p : Objid) → valid db p ≡ true → HoldsList l db p (view p)
  pub empty : (p : Objid) → valid db p ≡ false → view p ≡ []
  pub distinct : (p : Objid) → Distinct (view p)
  pub disjoint : (p q x : Objid) → mem x (view p) ≡ true → mem x (view q) ≡ true → p ≡ q

valid-change : (o : Option Object) (f : Object → Object) → is_some (change f o) ≡ is_some o
valid-change none f = refl
valid-change (some o) f = refl

pub valid-modify :
    (db : Db) (p q : Objid) (f : Object → Object) → valid (modify db p f) q ≡ valid db q
unfolding valid
valid-modify db p q f = elim (Bool-cases (p ==ℤ q)) [
  | inl same ↦ rw (find_object-modify db p q f, same) (valid-change (find_object db q) f)
  | inr other ↦ rw (find_object-modify db p q f, other)
]

pub HoldsList-keep :
    (l : Links) (db : Db) (holder p : Objid) (f : Object → Object) (qs : List Objid)
    → (p ==ℤ holder) ≡ false
    → ((x : Object) → l.next (f x) ≡ l.next x)
    → HoldsList l db holder qs
    → HoldsList l (modify db p f) holder qs
HoldsList-keep l db holder p f qs ne k (w, found, c) = (
  w,
  rw (find_object-modify db p holder f, ne) found,
  Chain-modify_keep l db p f (l.first w) qs k c,
)

-- The lists of other objects stay as they are.
pub Rewired-HoldsList :
    (l : Links) (db : Db) (holder what r : Objid) (qs rs : List Objid) (db' : Db)
    → Rewired l holder qs what db db'
    → (holder ==ℤ r) ≡ false
    → mem what rs ≡ false
    → ((z : Objid) → mem z qs ≡ true → mem z rs ≡ false)
    → HoldsList l db r rs
    → HoldsList l db' r rs
Rewired-HoldsList l db holder what r qs rs db' (at_holder v) ne wm apart held =
    HoldsList-modify l _ r what (l.set_next nothing) rs (l.first-set_next nothing) wm
      (HoldsList-keep l db r holder (l.set_first v) rs ne (l.next-set_first v) held)
Rewired-HoldsList l db holder what r qs rs db' (at_element z v zm) ne wm apart held =
    HoldsList-modify l _ r what (l.set_next nothing) rs (l.first-set_next nothing) wm
      (HoldsList-modify l db r z (l.set_next v) rs (l.first-set_next v) (apart z zm) held)

pub Rewired-valid :
    (l : Links) (db : Db) (holder what q : Objid) (qs : List Objid) (db' : Db)
    → Rewired l holder qs what db db'
    → valid db' q ≡ valid db q
Rewired-valid l db holder what q qs db' (at_holder v) =
    valid-modify _ what q (l.set_next nothing) ∙ valid-modify db holder q (l.set_first v)
Rewired-valid l db holder what q qs db' (at_element z v zm) =
    valid-modify _ what q (l.set_next nothing) ∙ valid-modify db z q (l.set_next v)

-- The object's back pointer, if it is valid.
abbrev pub up_in : Links → Option Object → Option Objid
up_in l none = none
up_in l (some o) = some (l.up o)

up_in-change :
    (l : Links) (f : Object → Object) (o : Option Object)
    → ((x : Object) → l.up (f x) ≡ l.up x)
    → up_in l (change f o) ≡ up_in l o
up_in-change l f none k = refl
up_in-change l f (some o) k = rw (k o)

unfoldable pub up_of : Links → Db → Objid → Option Objid
up_of l db q = up_in l (find_object db q)

up_of-modify :
    (l : Links) (db : Db) (p q : Objid) (f : Object → Object)
    → ((x : Object) → l.up (f x) ≡ l.up x)
    → up_of l (modify db p f) q ≡ up_of l db q
unfolding up_of
up_of-modify l db p q f k = elim (Bool-cases (p ==ℤ q)) [
  | inl same ↦ rw (find_object-modify db p q f, same) (up_in-change l f (find_object db q) k)
  | inr other ↦ rw (find_object-modify db p q f, other)
]

pub Rewired-up :
    (l : Links) (db : Db) (holder what q : Objid) (qs : List Objid) (db' : Db)
    → Rewired l holder qs what db db'
    → up_of l db' q ≡ up_of l db q
Rewired-up l db holder what q qs db' (at_holder v) =
    up_of-modify l _ what q (l.set_next nothing) (l.up-set_next nothing)
    ∙ up_of-modify l db holder q (l.set_first v) (l.up-set_first v)
Rewired-up l db holder what q qs db' (at_element z v zm) =
    up_of-modify l _ what q (l.set_next nothing) (l.up-set_next nothing)
    ∙ up_of-modify l db z q (l.set_next v) (l.up-set_next v)

-- The view with `what` taken off all lists, and the one with `what` at the end of `holder`'s.
unfoldable pub view_without : Objid → (Objid → List Objid) → Objid → List Objid
view_without what view p = without what (view p)

unfoldable pub view_with : Objid → Objid → (Objid → List Objid) → Objid → List Objid
view_with holder what view p = if p ==ℤ holder then view p ++ (what ∷ []) else view p

pub valid-find :
    (db : Db) (q : Objid) → valid db q ≡ true → (o : Object) × (find_object db q ≡ some o)
unfolding valid
valid-find db q v = elim (Option-cases (find_object db q)) [
  | inl e ↦ absurd (clash v (ap is_some e))
  | inr e ↦ e
]
