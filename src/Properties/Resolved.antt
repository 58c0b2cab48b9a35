-- ===== src/Properties/Resolved.antt =====
-- db_properties.c: the value of a property is found on an ancestor, within the slots that are there.
use wp_lambdamoo.Verbs.{rounds}
use wp_lambdamoo.Strings.{str_hash}
use wp_lambdamoo.Verbs.Lines.{Line-short, Line, Numbered}
use wp_lambdamoo.Properties.Found.{find_slot_lem, Undefined, Rooted, total, Filled, Points}
use wp_lambdamoo.Properties.{ptable, slot, find_built_in, is_clear, missing, resolve}
use wp_lambdamoo.Db.{Pval, find_object, Object, Db}
use wp_lambdamoo.Properties.Values.{pval_at, db_find_property}
use wp_lambdamoo.Prelude.{
  ◌≤◌, ℕ, zero, suc, ◌+◌, ◌-◌, ◌<◌, ◌≡◌, refl, ◌⊎◌, inl, inr, true, false, Option, none, some, List,
  [], ◌∷◌, arith, ltb, Bool-cases, length, get_elem?, clash,
}
use wp_lambdamoo.Var.{Var, Objid}
use wp_lambdamoo.Db.Outcomes.{ok}

get_elem?-inside {ℓ} :
    {A : Type ℓ} (xs : List A) (m : ℕ) → m < length xs → (x : A) × (get_elem? xs m ≡ some x)
get_elem?-inside [] m h = absurd (omega arith)
get_elem?-inside (x ∷ xs) zero h = (x, refl)
get_elem?-inside (x ∷ xs) (suc m) h = get_elem?-inside xs m (omega arith)

get_elem?-bound {ℓ} :
    {A : Type ℓ} (xs : List A) (m : ℕ) (x : A) → get_elem? xs m ≡ some x → m < length xs
get_elem?-bound [] m x e = cc
get_elem?-bound (y ∷ xs) zero x e = omega arith
get_elem?-bound (y ∷ xs) (suc m) x e = let h = get_elem?-bound xs m x e in omega arith

Points-bound :
    (hash : ℕ) (name : List ℕ) (os : List Object) (m : ℕ) (definer : Objid)
    → Points hash name os m definer
    → m < total os
Points-bound hash name [] m definer points = absurd points
Points-bound hash name (o ∷ os) m definer (inl (e, def, at_m, named)) =
    let h = get_elem?-bound o.propdefs m def at_m in omega arith
Points-bound hash name (o ∷ os) m definer (inr (past, points)) =
    let h = Points-bound hash name os (m - length o.propdefs) definer points in omega arith

-- The value of the property in slot `m` of a line's first object: that of the slot, or where the slot
-- is clear, the parent's, whose slots do not count the definitions of the object.
abbrev pub HasValue : List Object → ℕ → Var → Type 0
HasValue [] m v = ⊥
HasValue (o ∷ os) m v =
    (pv : Pval) × (get_elem? o.propval m ≡ some pv)
    × (((is_clear pv.var ≡ false) × (v ≡ pv.var))
        ⊎ ((is_clear pv.var ≡ true)
            × (length o.propdefs ≤ m)
            × HasValue os (m - length o.propdefs) v))

-- The value that a property has on an object: not clear, and found within the fuel.
abbrev Resolves : ℕ → Db → ℕ → Option Object → List Object → Type 0
Resolves fuel db m o os =
    (v : Var) × (resolve fuel db m o ≡ ok v) × (is_clear v ≡ false) × HasValue os m v

resolve_lem :
    (fuel : ℕ) (hash : ℕ) (name : List ℕ) (os : List Object) (p : Objid) (m : ℕ) (definer : Objid)
    (db : Db)
    → length os < fuel
    → Filled db
    → Rooted db
    → Points hash name os m definer
    → Line os db (find_object db p)
    → Resolves fuel db m (find_object db p) os
unfolding resolve
resolve_lem zero hash name os p m definer db h filled rooted points l = elim h [ ]
resolve_lem (suc fuel) hash name [] p m definer db h filled rooted points l = absurd points
resolve_lem (suc fuel) hash name (o ∷ os) p m definer db h filled rooted points (e, l) =
    let bound = Points-bound hash name (o ∷ os) m definer points in
    let size = filled p o os e l in
    let (pv, at_m) = get_elem?-inside o.propval m (omega arith) in
    elim (Bool-cases (is_clear pv.var)) [
      | inr kept ↦ (pv.var, rw (e, at_m, kept), kept, (pv, at_m, inl (kept, refl)))
      | inl passed ↦ elim points [
        | inl (d, def, at_def, named) ↦
            let own = get_elem?-bound o.propdefs m def at_def in
            absurd (clash passed (rooted p o m pv e own at_m))
        | inr (past, points') ↦
            let past_own : ltb m (length o.propdefs) ≡ false = ground arith in
            let (v, found, kept, value) =
              resolve_lem fuel hash name os o.parent (m - length o.propdefs) definer db
                (omega arith) filled rooted points' l in
            (v, rw (e, at_m, passed, past_own) found, kept, (pv, at_m, inr (passed, past, value)))
      ]
    ]

-- What db_find_property answers for a name that is not built-in.
abbrev pub Answered : Db → Objid → List ℕ → List Object → Type 0
Answered db oid name os =
    ((db_find_property db oid name true ≡ ok (missing, none)) × Undefined (str_hash name) name os)
    ⊎ ((definer : Objid) × (m : ℕ) × (v : Var) × (pv : Pval) × (db_find_property db oid name true
          ≡ ok (slot definer oid m, some v))
        × Points (str_hash name) name os m definer
        × (is_clear v ≡ false)
        × HasValue os m v
        × (pval_at db oid m ≡ ok pv))

no_offset : (m : ℕ) → 0 + m ≡ m
no_offset m = omega arith

-- On a table in which every object has its own number, none is its own ancestor, every object has a
-- slot for each of its properties, and no definer's slot is clear, db_find_property of a name that
-- is not built-in ends without a fault: either the line `os` of the object has no such property and
-- the handle is null, or the handle is the slot of a property of this name of an object of the line,
-- which exists, and the value is that of the first slot on the line, from the object on, that is not
-- clear.
pub db_find_property_lem :
    (db : Db) (oid : Objid) (name : List ℕ) (os : List Object)
    → Numbered db
    → Filled db
    → Rooted db
    → Line os db (find_object db oid)
    → find_built_in (str_hash name) name ptable ≡ none
    → Answered db oid name os
unfolding db_find_property pval_at
db_find_property_lem db oid name os n filled rooted l user =
    let short = Line-short os oid db n l in
    elim (find_slot_lem (rounds db) (str_hash name) name 0 os (find_object db oid) db (omega arith)
      l) [
        | inl (absent, u) ↦ inl (rw (user, absent), u)
        | inr (definer, m, found, points) ↦
            let (v, value, kept, held) =
              resolve_lem (rounds db) (str_hash name) name os oid m definer db (omega arith) filled
                rooted points l in
            let (pv, there) = slot_there os l m definer points in
            inr (definer, m, v, pv, rw (user, found, no_offset m, value), points, kept, held, there)
      ]
  where
    slot_there :
        (ps : List Object)
        → Line ps db (find_object db oid)
        → (m : ℕ) (definer : Objid) → Points (str_hash name) name ps m definer
        → (pv : Pval) × (pval_at db oid m ≡ ok pv)
    slot_there [] k m definer points = absurd points
    slot_there (o ∷ ps) (e, k) m definer points =
        let bound = Points-bound (str_hash name) name (o ∷ ps) m definer points in
        let size = filled oid o ps e k in
        let (pv, at_m) = get_elem?-inside o.propval m (omega arith) in
        (pv, unfold pval_at in rw (e, at_m))
