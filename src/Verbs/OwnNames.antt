-- ===== src/Verbs/OwnNames.antt =====
-- db_verbs.c: lookups of a string that is a verb's own, which verbcasecmp takes without a look at it.
use wp_lambdamoo.Var.{Objid}
use wp_lambdamoo.Verbs.{rounds, walk, find_verbdef_by_name}
use wp_lambdamoo.Db.{find_object, Db, Object, Verbdef}
use wp_lambdamoo.Prelude.{
  ℕ, ◌%◌, ◌≡◌, refl, ap, inl, inr, Bool, true, false, Option, List, [], ◌∷◌, Bool-cases,
}
use wp_lambdamoo.Db.Outcomes.{◌>>=◌}
use wp_lambdamoo.Verbs.Cache.{
  buckets, find_entry, ensure_table, answer, key_of, cache_hash, with_verbs, Cache, callable_on,
  miss, db_find_callable_verb, find_callable_uncached,
}
use wp_lambdamoo.Verbs.FoldedNames.{elsewhere}
use wp_lambdamoo.Strings.{verbcasecmp}

-- Where the string that is looked up is at the address of a verb's names, these accept it as any
-- other string with its bytes.
abbrev pub AcceptsOwn : (Verbdef → Bool) → List ℕ → Type 0
AcceptsOwn same verb = (v : Verbdef) → same v ≡ true → verbcasecmp false v.name verb ≡ true

taken : (v w : List ℕ) → verbcasecmp true v w ≡ true
unfolding verbcasecmp
taken v w = refl

same_function {ℓ κ} : {A : Type ℓ} {B : Type κ} (f g : A → B) → ((x : A) → f x ≡ g x) → f ≡ g
same_function f g h = λ i. λ x. h x i

module _ (same : Verbdef → Bool) (verb : List ℕ) (own : AcceptsOwn same verb) where
  name_accepted : (v : Verbdef) → verbcasecmp (same v) v.name verb ≡ verbcasecmp false v.name verb
  name_accepted v = elim (Bool-cases (same v)) [
    | inr other ↦ rw other
    | inl here ↦ rw (here, own v here) (taken v.name verb)
  ]

  find_verbdef-elsewhere :
      (vs : List Verbdef) (x : Bool)
      → find_verbdef_by_name same vs verb x ≡ find_verbdef_by_name elsewhere vs verb x
  unfolding find_verbdef_by_name
  find_verbdef-elsewhere [] x = refl
  find_verbdef-elsewhere (v ∷ vs) x = rw (name_accepted v, find_verbdef-elsewhere vs x)

  callable_on-elsewhere : (o : Object) → callable_on same verb o ≡ callable_on elsewhere verb o
  callable_on-elsewhere o = rw (find_verbdef-elsewhere o.verbdefs true)

  walk-elsewhere :
      (fuel : ℕ) (db : Db) (o : Option Object)
      → walk fuel db (callable_on same verb) o ≡ walk fuel db (callable_on elsewhere verb) o
  walk-elsewhere fuel db o = ap (λ f. walk fuel db f o) (same_function _ _ callable_on-elsewhere)

  miss-elsewhere :
      (db : Db) (c : Cache) (o : Option Object) → miss same db c o verb ≡ miss elsewhere db c o verb
  unfolding miss
  miss-elsewhere db c o = rw (walk-elsewhere (rounds db) db o)

  pub uncached-elsewhere :
      (db : Db) (oid : Objid)
      → find_callable_uncached same db oid verb ≡ find_callable_uncached elsewhere db oid verb
  unfolding find_callable_uncached
  uncached-elsewhere db oid = walk-elsewhere (rounds db) db (find_object db oid)

  pub lookup-elsewhere :
      (db : Db) (c : Cache) (oid : Objid)
      → db_find_callable_verb same db c oid verb ≡ db_find_callable_verb elsewhere db c oid verb
  unfolding db_find_callable_verb
  lookup-elsewhere db c oid =
      ap
        (λ m. walk (rounds db) db with_verbs (find_object db oid) >>= λ o.
          let hash = cache_hash (key_of o) verb in
          answer elsewhere (ensure_table c)
            (find_entry hash (key_of o) verb
              (buckets (ensure_table c) (hash % (ensure_table c).vc_size)))
            (m o))
        (same_function _ _ (miss-elsewhere db (ensure_table c)))
