-- ===== src/Properties/Found.antt =====
-- db_properties.c: the search for a property ends, and reads slots that are there.
use wp_lambdamoo.Verbs.Lines.{Line}
use wp_lambdamoo.Db.{find_object, Pval, Object, Db, Propdef}
use wp_lambdamoo.Properties.{is_clear, is_named, find_slot, find_def}
use wp_lambdamoo.Prelude.{
  ℕ, zero, suc, ◌+◌, ◌-◌, ◌≤◌, ◌<◌, ◌≡◌, refl, ap, ◌∙◌, ◌⊎◌, inl, inr, true, false, Option, none,
  some, List, [], ◌∷◌, arith, Bool-cases, length, get_elem?, All,
}
use wp_lambdamoo.Var.{Objid}
use wp_lambdamoo.Db.Outcomes.{ok}

-- The properties that an object has: those that are defined on its line.
abbrev pub total : List Object → ℕ
total [] = 0
total (o ∷ os) = length o.propdefs + total os

-- Every object has one slot for each of its properties.
abbrev pub Filled : Db → Type 0
Filled db =
    (p : Objid) (o : Object) (os : List Object)
    → find_object db p ≡ some o
    → Line os db (find_object db o.parent)
    → length o.propval ≡ total (o ∷ os)

-- The slots of the properties that an object defines itself are not clear.
abbrev pub Rooted : Db → Type 0
Rooted db =
    (p : Objid) (o : Object) (i : ℕ) (pv : Pval)
    → find_object db p ≡ some o
    → i < length o.propdefs
    → get_elem? o.propval i ≡ some pv
    → is_clear pv.var ≡ false

-- The m-th property of a line is one of this name, and `definer` defines it.
abbrev pub Points : ℕ → List ℕ → List Object → ℕ → Objid → Type 0
Points hash name [] m definer = ⊥
Points hash name (o ∷ os) m definer =
    ((o.id ≡ definer)
      × (def : Propdef) × (get_elem? o.propdefs m ≡ some def)
      × (is_named hash name def ≡ true))
    ⊎ ((length o.propdefs ≤ m) × Points hash name os (m - length o.propdefs) definer)

-- No object of a line defines the name.
abbrev pub Undefined : ℕ → List ℕ → List Object → Type 0
Undefined hash name = All (λ o. find_def hash name 0 o.propdefs ≡ none)

abbrev FoundDef : ℕ → List ℕ → ℕ → List Propdef → Type 0
FoundDef hash name n defs =
    (find_def hash name n defs ≡ none)
    ⊎ ((i : ℕ) × (def : Propdef) × (find_def hash name n defs ≡ some (n + i))
        × (get_elem? defs i ≡ some def)
        × (is_named hash name def ≡ true))

find_def_lem : (hash : ℕ) (name : List ℕ) (n : ℕ) (defs : List Propdef) → FoundDef hash name n defs
unfolding find_def
find_def_lem hash name n [] = inl refl
find_def_lem hash name n (def ∷ defs) = elim (Bool-cases (is_named hash name def)) [
  | inl t ↦ inr (0, def, rw t (ap some (omega arith)), refl, t)
  | inr t ↦ elim (find_def_lem hash name (suc n) defs) [
    | inl e ↦ inl (rw t e)
    | inr (i, d, e, at_i, named) ↦ inr (suc i, d, rw t (e ∙ ap some (omega arith)), at_i, named)
  ]
]

find_def-none :
    (hash : ℕ) (name : List ℕ) (n m : ℕ) (defs : List Propdef)
    → find_def hash name n defs ≡ none
    → find_def hash name m defs ≡ none
unfolding find_def
find_def-none hash name n m [] e = refl
find_def-none hash name n m (def ∷ defs) e = elim (Bool-cases (is_named hash name def)) [
  | inl t ↦ absurd (clash_some (rw t at e))
  | inr t ↦ rw t (find_def-none hash name (suc n) (suc m) defs (rw t at e))
]
  where
    clash_some : {k : ℕ} → some k ≡ none → ⊥
    clash_some q = cc

-- What the loop over the ancestors finds, from slot `n` on.
abbrev pub FoundSlot : ℕ → Db → ℕ → List ℕ → ℕ → Option Object → List Object → Type 0
FoundSlot fuel db hash name n o os =
    ((find_slot fuel db hash name n o ≡ ok none) × Undefined hash name os)
    ⊎ ((definer : Objid) × (m : ℕ) × (find_slot fuel db hash name n o ≡ ok (some (definer, n + m)))
        × Points hash name os m definer)

pub find_slot_lem :
    (fuel : ℕ) (hash : ℕ) (name : List ℕ) (n : ℕ) (os : List Object) (o : Option Object) (db : Db)
    → length os < fuel
    → Line os db o
    → FoundSlot fuel db hash name n o os
unfolding find_slot
find_slot_lem zero hash name n os o db h l = elim h [ ]
find_slot_lem (suc fuel) hash name n [] o db h l = inl (rw l, tt)
find_slot_lem (suc fuel) hash name n (x ∷ os) o db h (e, l) =
    elim (find_def_lem hash name n x.propdefs) [
      | inl absent ↦
          elim (find_slot_lem fuel hash name (n + length x.propdefs) os (find_object db x.parent) db
            (omega arith) l) [
              | inl (none_there, u) ↦
                  inl
                    (rw (e, absent) none_there, (find_def-none hash name n 0 x.propdefs absent, u))
              | inr (definer, m, found, points) ↦
                  let sum : (n + length x.propdefs) + m ≡ n + (length x.propdefs + m) =
                    omega arith in
                  let back : (length x.propdefs + m) - length x.propdefs ≡ m = omega arith in
                  inr (
                    definer,
                    length x.propdefs + m,
                    rw (e, absent) (found ∙ ap (λ k. ok (some (definer, k))) sum),
                    inr (omega arith, rw back points),
                  )
            ]
      | inr (i, def, found, at_i, named) ↦
          inr (x.id, i, rw (e, found), inl (refl, def, at_i, named))
    ]
