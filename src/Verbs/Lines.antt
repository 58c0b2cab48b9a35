-- ===== src/Verbs/Lines.antt =====
-- The ancestors of an object as a list, and the loops of db_verbs.c over them.
use wp_lambdamoo.Prelude.{
  some_injective, ℕ, zero, suc, ◌≤◌, ◌<◌, ◌≡◌, refl, sym, ap, ◌∙◌, inl, inr, true, Option, none,
  some, List, [], ◌∷◌, arith, Bool-cases, length, ◌==ℤ◌, ==ℤ_iff,
}
use wp_lambdamoo.Var.{Objid}
use wp_lambdamoo.Db.{Object, Db, find_object}
use wp_lambdamoo.Db.Outcomes.{ok}
use wp_lambdamoo.Db.Links.Chains.{mem, Distinct}
use wp_lambdamoo.Db.Links.Counting.{find_below, pigeonhole}
use wp_lambdamoo.Verbs.{first_of, walk, rounds}

-- `o`, its parent, and so on up to an object whose parent is no object.
abbrev pub Line : List Object → Db → Option Object → Type 0
Line [] db o = o ≡ none
Line (x ∷ os) db o = (o ≡ some x) × Line os db (find_object db x.parent)

-- Every object stands at its own number.
abbrev pub Numbered : Db → Type 0
Numbered db = (p : Objid) (o : Object) → find_object db p ≡ some o → o.id ≡ p

-- No object is its own ancestor: the ancestors of each are a finite list.
abbrev pub Lines : Db → Type 0
Lines db = (p : Objid) → (os : List Object) × Line os db (find_object db p)

abbrev pub or_first {ℓ} : {B : Type ℓ} → Option B → Option B → Option B
or_first none rest = rest
or_first (some b) rest = some b

abbrev pub first_in {ℓ} : {B : Type ℓ} → (Object → Option B) → List Object → Option B
first_in f [] = none
first_in f (o ∷ os) = or_first (f o) (first_in f os)

first_of_ok {ℓ} : {B : Type ℓ} (a b : Option B) → first_of a (ok b) ≡ ok (or_first a b)
first_of_ok none b = refl
first_of_ok (some a) b = refl

walk-Line_run {ℓ} :
    {B : Type ℓ} (fuel : ℕ) (f : Object → Option B) (os : List Object) (o : Option Object) (db : Db)
    → length os < fuel
    → Line os db o
    → walk fuel db f o ≡ ok (first_in f os)
unfolding walk
walk-Line_run zero f os o db h l = elim h [ ]
walk-Line_run (suc fuel) f [] o db h l = rw l
walk-Line_run (suc fuel) f (x ∷ os) o db h (e, l) = rw (
  e,
  walk-Line_run fuel f os (find_object db x.parent) db (omega arith) l,
  first_of_ok (f x) (first_in f os),
)

abbrev pub ids : List Object → List Objid
ids [] = []
ids (o ∷ os) = o.id ∷ ids os

length-ids : (os : List Object) → length (ids os) ≡ length os
length-ids [] = refl
length-ids (o ∷ os) = ap suc (length-ids os)

Line-unique :
    (os ps : List Object) (o : Option Object) (db : Db)
    → Line os db o
    → Line ps db o
    → length os ≡ length ps
Line-unique [] [] o db l m = refl
Line-unique [] (y ∷ ps) o db l (e, m) = cc
Line-unique (x ∷ os) [] o db (e, l) m = cc
Line-unique (x ∷ os) (y ∷ ps) o db (e, l) (d, m) =
    let xy : x ≡ y = some_injective (sym e ∙ d) in
    ap suc (Line-unique os ps (find_object db x.parent) db l (rw xy m))

-- The line of an object on a line is a tail of it.
Line-tail :
    (os : List Object) (p q : Objid) (db : Db)
    → Numbered db
    → mem q (ids os) ≡ true
    → Line os db (find_object db p)
    → (ps : List Object) × (length ps ≤ length os) × Line ps db (find_object db q)
unfolding mem
Line-tail [] p q db n m l = cc
Line-tail (x ∷ os) p q db n m (e, l) = elim (Bool-cases (q ==ℤ x.id)) [
  | inl same ↦
      let qp : q ≡ p = (==ℤ_iff q x.id).0 same ∙ n p x e in (x ∷ os, omega arith, (rw qp e, l))
  | inr other ↦
      let (ps, short, m') = Line-tail os x.parent q db n (rw other at m) l in (ps, omega arith, m')
]

-- So no object is on a line twice.
Line-Distinct :
    (os : List Object) (p : Objid) (db : Db)
    → Numbered db
    → Line os db (find_object db p)
    → Distinct (ids os)
Line-Distinct [] p db n l = tt
Line-Distinct (x ∷ os) p db n (e, l) = elim (Bool-cases (mem x.id (ids os))) [
  | inl m ↦
      let (ps, short, l') = Line-tail os x.parent x.id db n m l in
      let same =
        Line-unique ps (x ∷ os) (find_object db x.id) db l'
          (ap (find_object db) (n p x e) ∙ e, l) in
      absurd (omega arith)
  | inr m ↦ (m, Line-Distinct os x.parent db n l)
]

Line-valid :
    (os : List Object) (p q : Objid) (db : Db)
    → Numbered db
    → mem q (ids os) ≡ true
    → Line os db (find_object db p)
    → (o : Object) × (find_object db q ≡ some o)
unfolding mem
Line-valid [] p q db n m l = cc
Line-valid (x ∷ os) p q db n m (e, l) = elim (Bool-cases (q ==ℤ x.id)) [
  | inl same ↦ (x, rw ((==ℤ_iff q x.id).0 same ∙ n p x e) e)
  | inr other ↦ Line-valid os x.parent q db n (rw other at m) l
]

-- A line is no longer than the table.
pub Line-short :
    (os : List Object) (p : Objid) (db : Db)
    → Numbered db
    → Line os db (find_object db p)
    → length os ≤ db.num_objects
Line-short os p db n l =
    let h =
      pigeonhole db.num_objects (ids os) (Line-Distinct os p db n l)
        (λ q m. let (o, e) = Line-valid os p q db n m l in find_below db q o e) in
    rw (length-ids os) at h

-- The loops over the ancestors end, with the first answer on the line.
pub walk-Line {ℓ} :
    {B : Type ℓ} (f : Object → Option B) (os : List Object) (p : Objid) (db : Db)
    → Numbered db
    → Line os db (find_object db p)
    → walk (rounds db) db f (find_object db p) ≡ ok (first_in f os)
walk-Line f os p db n l =
    walk-Line_run (rounds db) f os (find_object db p) db
      (let h = Line-short os p db n l in omega arith) l
