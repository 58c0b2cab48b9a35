-- ===== src/Properties/Reparented.antt =====
-- db_objects.c: db_change_parent and the cache of verbs.
use wp_lambdamoo.Verbs.Stores.{bind_ok, ok_injective}
use mathlib.Core.Bool.{and-eq-true_iff}
use wp_lambdamoo.Verbs.Invalidation.{affected-Coherent, All-IsRight}
use wp_lambdamoo.Verbs.Coherent.{IsRight, Coherent}
use wp_lambdamoo.Properties.Parents.{
  move_to_parent, dbpriv_check_properties_for_chparent, chparent_cache,
  dbpriv_fix_properties_after_chparent, db_change_parent,
}
use wp_lambdamoo.Db.Links.{ll_append, child_links, ll_remove}
use wp_lambdamoo.Verbs.Harmless.{found_same, found_on}
use wp_lambdamoo.Verbs.FoldedNames.{elsewhere}
use wp_lambdamoo.Verbs.Keys.{IsKey}
use wp_lambdamoo.Properties.KinSlots.{fix_after-Yields}
use wp_lambdamoo.Properties.Kin.{
  Alike-trans, set_parent-Yields, ll_append-Yields, ll_remove-Yields, ok-Yields, if_Yields, Alike,
}
use wp_lambdamoo.Verbs.Cache.{
  buckets, find_callable_uncached, Entry, Cache, callable_on, with_verbs,
}
use wp_lambdamoo.Db.{at, store, find_object, Verbdef, Db, Object}
use wp_lambdamoo.Verbs.{rounds, walk}
use wp_lambdamoo.Prelude.{
  ℕ, zero, suc, ◌≡◌, refl, sym, ap, ◌∙◌, inl, inr, Bool, true, false, ◌&&◌, none, some, List, [],
  ◌∷◌, ◌==◌, if◌then◌else◌, Bool-cases, Option-cases, length, ◌==ℤ◌, ==ℤ_iff, suc-ne-zero, clash,
  some_injective, none-some,
}
use wp_lambdamoo.Var.{Objid, nothing}
use wp_lambdamoo.Db.Outcomes.{ok, fault}

-- No object has `oid` for its parent.
abbrev pub Childless : Db → Objid → Type 0
Childless db oid = (p : Objid) (o : Object) → find_object db p ≡ some o → (o.parent ==ℤ oid) ≡ false

same_callable :
    (verb : List ℕ) (o o' : Object)
    → o'.id ≡ o.id
    → o'.verbdefs ≡ o.verbdefs
    → callable_on elsewhere verb o' ≡ callable_on elsewhere verb o
same_callable verb o o' i v = ap (λ vs. found_on o' vs verb) v ∙ found_same o.verbdefs verb o o' i

-- A lookup at another object goes past `oid` in neither table.
walk-Alike :
    (fuel : ℕ) (oid q : Objid) (verb : List ℕ) (db db' : Db)
    → Alike oid db db'
    → Childless db oid
    → (q ==ℤ oid) ≡ false
    → walk fuel db' (callable_on elsewhere verb) (find_object db' q)
      ≡ walk fuel db (callable_on elsewhere verb) (find_object db q)
unfolding walk
walk-Alike zero oid q verb db db' a childless ne = refl
walk-Alike (suc fuel) oid q verb db db' a childless ne = elim (Option-cases (find_object db q)) [
  | inl none_there ↦ rw (none_there, a.absent q none_there)
  | inr (o, e) ↦
      let (o', e', i, v, p) = a.found q o e in
      rw (
        e,
        e',
        same_callable verb o o' i v,
        p ne,
        walk-Alike fuel oid o.parent verb db db' a childless (childless q o e),
      )
]

no_verbs : (vs : List Verbdef) → (length vs == 0) ≡ true → vs ≡ []
no_verbs [] e = refl
no_verbs (v ∷ vs) e = absurd (clash e (suc-ne-zero (length vs)))

verbless : (o : Object) → o.verbdefs ≡ [] → with_verbs o ≡ none
verbless o e = rw e

still_verbs :
    (vs : List Verbdef) (x x' : Object)
    → x.verbdefs ≡ vs
    → x'.verbdefs ≡ x.verbdefs
    → with_verbs x ≡ some x
    → with_verbs x' ≡ some x'
still_verbs [] x x' e v has = absurd (none-some (sym (verbless x e) ∙ has))
still_verbs (w ∷ vs) x x' e v has = let e' = v ∙ e in rw e'

no_object : (db : Db) → find_object db nothing ≡ none
unfolding find_object
no_object db = refl

-- A key is not a verbless object, and stays a key.
IsKey-Alike :
    (oid key : Objid) (o : Object) (db db' : Db)
    → Alike oid db db'
    → find_object db oid ≡ some o
    → o.verbdefs ≡ []
    → IsKey db key
    → ((key ==ℤ oid) ≡ false) × IsKey db' key
IsKey-Alike oid key o db db' a found none_here (inl e) = (not_nothing, inl e)
  where
    not_nothing : (key ==ℤ oid) ≡ false
    not_nothing = elim (Bool-cases (key ==ℤ oid)) [
      | inr ne ↦ ne
      | inl same ↦
          let q = sym e ∙ (==ℤ_iff key oid).0 same in
          absurd (none-some (sym (no_object db) ∙ ap (find_object db) q ∙ found))
    ]
IsKey-Alike oid key o db db' a found none_here (inr (x, e, has)) =
    let (x', e', i, v, p) = a.found key x e in
    (other, inr (x', e', still_verbs x.verbdefs x x' refl v has))
  where
    other : (key ==ℤ oid) ≡ false
    other = elim (Bool-cases (key ==ℤ oid)) [
      | inr ne ↦ ne
      | inl same ↦
          let xo : x ≡ o =
            some_injective (sym e ∙ ap (find_object db) ((==ℤ_iff key oid).0 same) ∙ found) in
          let empty : x.verbdefs ≡ [] = ap (λ y. y.verbdefs) xo ∙ none_here in
          absurd (none-some (sym (verbless x empty) ∙ has))
    ]

-- So the entries of the cache stay right.
Coherent-Alike :
    (oid : Objid) (o : Object) (db db' : Db) (c : Cache)
    → Alike oid db db'
    → Childless db oid
    → find_object db oid ≡ some o
    → o.verbdefs ≡ []
    → Coherent db c
    → Coherent db' c
Coherent-Alike oid o db db' c a childless found none_here co = record {
  right = λ i. All-IsRight db db' (buckets c i) still_right (co.right i);
  beyond = co.beyond;
  sized = co.sized;
}
  where
    still_right : (vc : Entry) → IsRight db vc → IsRight db' vc
    still_right vc (text, key, e) =
        let (ne, key') = IsKey-Alike oid vc.oid_key o db db' a found none_here key in
        (
          text,
          key',
          unfold find_callable_uncached in
              (ap
                  (λ n.
                    walk (suc n) db' (callable_on elsewhere vc.verbname)
                      (find_object db' vc.oid_key))
                  a.size
                ∙ walk-Alike (rounds db) oid vc.oid_key vc.verbname db db' a childless ne
                ∙ e),
        )

-- An object whose list of children is empty is no object's parent.
abbrev pub KnowsChildren : Db → Type 0
KnowsChildren db =
    (p : Objid) (o : Object)
    → find_object db p ≡ some o
    → (o.child ==ℤ nothing) ≡ true
    → Childless db p

-- What the cache may still hold after the change.
Coherent-chparent_cache :
    (oid : Objid) (o : Object) (db db' : Db) (c : Cache)
    → Alike oid db db'
    → KnowsChildren db
    → find_object db oid ≡ some o
    → Coherent db c
    → Coherent db' (chparent_cache o c)
Coherent-chparent_cache oid o db db' c a knows found co =
    elim (Bool-cases ((o.child ==ℤ nothing) && (length o.verbdefs == 0))) [
      | inr t ↦ rw t (affected-Coherent db db' c co)
      | inl t ↦
          let (childless, none_here) = (and-eq-true_iff _ _).0 t in
          rw t (
            Coherent-Alike oid o db db' c a (knows oid o found childless) found
              (no_verbs o.verbdefs none_here) co)
    ]

found_from : (db : Db) (p : Objid) (o : Object) → at db p ≡ ok o → find_object db p ≡ some o
found_from db p o e = elim (Option-cases (find_object db p)) [
  | inl absent ↦ absurd (no_result (rw absent at e))
  | inr (x, found) ↦ found ∙ ap some (ok_injective (rw found at e))
]
  where
    no_result : {b : Object} → fault ≡ ok b → ⊥
    no_result q = cc

-- The table that move_to_parent leaves.
move_to_parent-Coherent :
    (db : Db) (c : Cache) (oid parent : Objid)
    → KnowsChildren db
    → Coherent db c
    → (r : Bool × Db × Cache) → move_to_parent db c oid parent ≡ ok r
    → Coherent r.1 r.2
unfolding move_to_parent
move_to_parent-Coherent db c oid parent knows co r q =
    let (o, f, q₁) = bind_ok (at db oid) _ r q in
    let (db₁, e₁, q₂) =
      bind_ok (if o.parent ==ℤ nothing then ok db else ll_remove child_links o.parent oid db) _ r
        q₁ in
    let (db₂, e₂, q₃) =
      bind_ok (if parent ==ℤ nothing then ok db₁ else ll_append child_links parent oid db₁) _ r
        q₂ in
    let (db₃, e₃, q₄) = bind_ok (store db₂ oid (λ o. record o { parent = parent })) _ r q₃ in
    let (db₄, e₄, q₅) = bind_ok (dbpriv_fix_properties_after_chparent db₃ oid o.parent) _ r q₄ in
    let a₁ =
      if_Yields oid db (o.parent ==ℤ nothing) (ok db) (ll_remove child_links o.parent oid db)
        (ok-Yields oid db) (ll_remove-Yields oid o.parent oid db) db₁ e₁ in
    let a₂ =
      if_Yields oid db₁ (parent ==ℤ nothing) (ok db₁) (ll_append child_links parent oid db₁)
        (ok-Yields oid db₁) (ll_append-Yields oid parent oid db₁) db₂ e₂ in
    let a₃ = set_parent-Yields oid parent db₂ db₃ e₃ in
    let a₄ = fix_after-Yields oid oid o.parent db₃ db₄ e₄ in
    let a =
      Alike-trans oid db db₂ db₄ (Alike-trans oid db db₁ db₂ a₁ a₂)
        (Alike-trans oid db₂ db₃ db₄ a₃ a₄) in
    coe 0 1 (i. Coherent (ok_injective q₅ i).1 (ok_injective q₅ i).2)
      (Coherent-chparent_cache oid o db db₄ c a knows (found_from db oid o f) co)

-- Where every object that is a parent has children on its list, db_change_parent, if it returns,
-- leaves a coherent cache coherent with the new table: also where it does not clear it, for an object
-- without children and verbs.
pub db_change_parent-Coherent :
    (db : Db) (c : Cache) (oid parent : Objid)
    → KnowsChildren db
    → Coherent db c
    → (r : Bool × Db × Cache) → db_change_parent db c oid parent ≡ ok r
    → Coherent r.1 r.2
unfolding db_change_parent
db_change_parent-Coherent db c oid parent knows co r e =
    let (allowed, e₀, q₀) = bind_ok (dbpriv_check_properties_for_chparent db oid parent) _ r e in
    decide allowed q₀
  where
    decide :
        (b : Bool)
        → (if b then move_to_parent db c oid parent else ok (false, db, c)) ≡ ok r
        → Coherent r.1 r.2
    decide false q = coe 0 1 (i. Coherent (ok_injective q i).1 (ok_injective q i).2) co
    decide true q = move_to_parent-Coherent db c oid parent knows co r q
