-- ===== src/Verbs/Cleared.antt =====
-- What each operation that changes verbs does to the table and to the cache.
use wp_lambdamoo.Lists.Copy.{}
use wp_lambdamoo.Db.Links.Chains.{modify}
use wp_lambdamoo.Verbs.Harmless.{write_verb-modify, on_verb-IsHarmless, on_verb, KeepsCall}
use wp_lambdamoo.Verbs.Invalidation.{harmless-Coherent, affected-Coherent, IsHarmless}
use wp_lambdamoo.Verbs.Stores.{
  store-modify, Lines-modify, Numbered-modify, bind_ok, ok_injective, Keeps,
}
use wp_lambdamoo.Verbs.Coherent.{Coherent}
use wp_lambdamoo.Db.Outcomes.{◌>>=◌, Outcome, ok}
use wp_lambdamoo.Var.{Objid}
use wp_lambdamoo.Verbs.Lines.{Lines, Numbered}
use wp_lambdamoo.Verbs.Cache.{db_priv_affected_callable_verb_lookup, Cache}
use wp_lambdamoo.Verbs.{write_verb, Handle}
use wp_lambdamoo.Db.{at, store, Object, Verbdef, Db}
use wp_lambdamoo.Verbs.Steps.{Verbs}
use wp_lambdamoo.Verbs.Access.{unlink_verb, set_and_clear, new_verb, db_add_verb, db_delete_verb}
use wp_lambdamoo.Prelude.{
  ℕ, ◌+◌, ◌≡◌, refl, sym, ap, ◌∙◌, Option, none, some, List, [], ◌∷◌, ◌++◌, length, ℤ,
}

-- Every object has its own number, none is its own ancestor, and the cache is coherent.
pub record IsSound (s : Verbs) : Type 0 where
  pub numbered : Numbered s.db
  pub lines : Lines s.db
  pub coherent : Coherent s.db s.cache

-- A change of an object that keeps its number and its parent, with the cache cleared.
pub cleared :
    (s : Verbs) (p : Objid) (f : Object → Object) (db : Db) (cache : Cache)
    → Keeps f
    → db ≡ modify s.db p f
    → cache ≡ db_priv_affected_callable_verb_lookup s.cache
    → IsSound s
    → IsSound (record { db = db; cache = cache })
cleared s p f db cache k d c i =
    coe 0 1 (j. IsSound (record { db = sym d j; cache = sym c j })) (record {
      numbered = Numbered-modify s.db p f k i.numbered;
      lines = Lines-modify s.db p f k i.numbered i.lines;
      coherent = affected-Coherent s.db (modify s.db p f) s.cache i.coherent;
    })

-- A harmless change, with the cache as it was.
pub kept :
    (s : Verbs) (p : Objid) (f : Object → Object) (db : Db)
    → IsHarmless f
    → db ≡ modify s.db p f
    → IsSound s
    → IsSound (record { db = db; cache = s.cache })
kept s p f db h d i = coe 0 1 (j. IsSound (record { db = sym d j; cache = s.cache })) (record {
  numbered = Numbered-modify s.db p f h.0 i.numbered;
  lines = Lines-modify s.db p f h.0 i.numbered i.lines;
  coherent = harmless-Coherent s.db p f s.cache h i.numbered i.lines i.coherent;
})

abbrev Cleared : Verbs → Db → Cache → Type 0
Cleared s db cache =
    (p : Objid) × (f : Object → Object) × Keeps f
    × (db ≡ modify s.db p f)
    × (cache ≡ db_priv_affected_callable_verb_lookup s.cache)

same_pair :
    {a a' : Db} {b b' : Cache}
    → ◌≡◌ {A = Outcome (Db × Cache)} (ok (a, b)) (ok (a', b'))
    → (a' ≡ a) × (b' ≡ b)
same_pair e = let q = ok_injective e in (ap (λ r. r.0) (sym q), ap (λ r. r.1) (sym q))

pub set_and_clear_lem :
    (s : Verbs) (vh : Option Handle) (f : Verbdef → Verbdef) (db : Db) (cache : Cache)
    → set_and_clear s.db s.cache vh f ≡ ok (db, cache)
    → Cleared s db cache
set_and_clear_lem s none f db cache e = cc
set_and_clear_lem s (some h) f db cache e =
    let (db', w, r) =
      bind_ok (write_verb s.db h f) (λ d. ok (d, db_priv_affected_callable_verb_lookup s.cache))
        (db, cache) e in
    let (d, c) = same_pair r in
    (h.definer, on_verb h.verbdef f, λ o. (refl, refl), d ∙ write_verb-modify s.db db' h f w, c)

pub add_lem :
    (s : Verbs) (address : ℕ) (oid : Objid) (vnames : List ℕ) (owner : Objid) (flags dobj : ℕ)
    (prep : ℤ) (iobj n : ℕ) (db : Db) (cache : Cache)
    → db_add_verb address s.db s.cache oid vnames owner flags dobj prep iobj ≡ ok (n, db, cache)
    → Cleared s db cache
unfolding db_add_verb
add_lem s address oid vnames owner flags dobj prep iobj n db cache e =
    let v = new_verb address vnames owner flags dobj prep iobj in
    let f : Object → Object = λ o. record o { verbdefs = o.verbdefs ++ v ∷ [] } in
    let (o, found, e₁) =
      bind_ok (at s.db oid)
        (λ o. store s.db oid f >>= λ db'.
          ok (length o.verbdefs + 1, db', db_priv_affected_callable_verb_lookup s.cache))
        (n, db, cache) e in
    let (db', stored, e₂) =
      bind_ok (store s.db oid f)
        (λ db'. ok (length o.verbdefs + 1, db', db_priv_affected_callable_verb_lookup s.cache))
        (n, db, cache) e₁ in
    let q = sym (ok_injective e₂) in
    (
      oid,
      f,
      λ o. (refl, refl),
      ap (λ r. r.1) q ∙ store-modify s.db oid f db' stored,
      ap (λ r. r.2) q,
    )

pub delete_lem :
    (s : Verbs) (vh : Option Handle) (db : Db) (cache : Cache)
    → db_delete_verb s.db s.cache vh ≡ ok (db, cache)
    → Cleared s db cache
unfolding db_delete_verb
delete_lem s none db cache e = cc
delete_lem s (some h) db cache e =
    let f : List Verbdef → Object → Object = λ vs o. record o { verbdefs = vs } in
    let finish : List Verbdef → Outcome (Db × Cache) = λ vs. store s.db h.definer (f vs) >>= λ db'.
    ok (db', db_priv_affected_callable_verb_lookup s.cache) in
    let (o, found, e₁) =
      bind_ok (at s.db h.definer) (λ o. unlink_verb h.verbdef o.verbdefs >>= finish) (db, cache)
        e in
    let (vs, unlinked, e₂) = bind_ok (unlink_verb h.verbdef o.verbdefs) finish (db, cache) e₁ in
    let (db', stored, e₃) =
      bind_ok (store s.db h.definer (f vs))
        (λ db'. ok (db', db_priv_affected_callable_verb_lookup s.cache)) (db, cache) e₂ in
    let (d, c) = same_pair e₃ in
    (h.definer, f vs, λ o. (refl, refl), d ∙ store-modify s.db h.definer (f vs) db' stored, c)

pub Cleared-IsSound :
    (s : Verbs) (db : Db) (cache : Cache)
    → Cleared s db cache
    → IsSound s
    → IsSound (record { db = db; cache = cache })
Cleared-IsSound s db cache (p, f, k, d, c) i = cleared s p f db cache k d c i

pub verb_kept :
    (s : Verbs) (h : Handle) (f : Verbdef → Verbdef) (db : Db)
    → KeepsCall f
    → write_verb s.db h f ≡ ok db
    → IsSound s
    → IsSound (record { db = db; cache = s.cache })
verb_kept s h f db k e i =
    kept s h.definer (on_verb h.verbdef f) db (on_verb-IsHarmless h.verbdef f k)
      (write_verb-modify s.db db h f e) i
