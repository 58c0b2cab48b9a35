-- ===== src/Verbs/Steps.antt =====
-- db_verbs.c: the table and the cache of verbs as a state machine.
use wp_lambdamoo.Verbs.OwnNames.{AcceptsOwn}
use wp_lambdamoo.Verbs.{Handle}
use wp_lambdamoo.Verbs.Cache.{db_find_callable_verb, Cache}
use wp_lambdamoo.Verbs.Access.{
  db_set_verb_program, db_set_verb_owner, db_set_verb_arg_specs, db_set_verb_flags,
  db_set_verb_names, db_add_verb, db_delete_verb,
}
use wp_lambdamoo.Prelude.{Bool, ℕ, ◌≡◌, Option, List, ℤ}
use wp_lambdamoo.Var.{Objid}
use wp_lambdamoo.Strings.Fold.{IsText}
use wp_lambdamoo.Db.{Verbdef, Db}
use wp_lambdamoo.Db.Outcomes.{ok}

-- What the operations of db_verbs.c work on.
pub record Verbs : Type 0 where
  pub db : Db
  pub cache : Cache

-- One call of an operation that returns. A lookup is of a C string, at any address but that of a
-- verb's names which do not accept it as a word, as those with a star inside do not accept themselves.
pub data Step : Verbs → Verbs → Type 0 where
  adds :
      {s : Verbs} {db : Db} {cache : Cache} (address : ℕ) (oid : Objid) (vnames : List ℕ)
      (owner : Objid) (flags dobj : ℕ) (prep : ℤ) (iobj n : ℕ)
      → db_add_verb address s.db s.cache oid vnames owner flags dobj prep iobj ≡ ok (n, db, cache)
      → Step s (record { db = db; cache = cache })
  deletes :
      {s : Verbs} {db : Db} {cache : Cache} (vh : Option Handle)
      → db_delete_verb s.db s.cache vh ≡ ok (db, cache)
      → Step s (record { db = db; cache = cache })
  renames :
      {s : Verbs} {db : Db} {cache : Cache} (vh : Option Handle) (names : List ℕ)
      → db_set_verb_names s.db s.cache vh names ≡ ok (db, cache)
      → Step s (record { db = db; cache = cache })
  sets_flags :
      {s : Verbs} {db : Db} {cache : Cache} (vh : Option Handle) (flags : ℕ)
      → db_set_verb_flags s.db s.cache vh flags ≡ ok (db, cache)
      → Step s (record { db = db; cache = cache })
  sets_arg_specs :
      {s : Verbs} {db : Db} {cache : Cache} (vh : Option Handle) (dobj : ℕ) (prep : ℤ) (iobj : ℕ)
      → db_set_verb_arg_specs s.db s.cache vh dobj prep iobj ≡ ok (db, cache)
      → Step s (record { db = db; cache = cache })
  sets_owner :
      {s : Verbs} {db : Db} (vh : Option Handle) (owner : Objid)
      → db_set_verb_owner s.db vh owner ≡ ok db
      → Step s (record { db = db; cache = s.cache })
  sets_program :
      {s : Verbs} {db : Db} (vh : Option Handle) (program : Option ℕ)
      → db_set_verb_program s.db vh program ≡ ok db
      → Step s (record { db = db; cache = s.cache })
  looks_up :
      {s : Verbs} {cache : Cache} (same : Verbdef → Bool) (oid : Objid) (verb : List ℕ)
      (found : Option Handle)
      → IsText verb
      → AcceptsOwn same verb
      → db_find_callable_verb same s.db s.cache oid verb ≡ ok (found, cache)
      → Step s (record { db = s.db; cache = cache })

pub data Run : Verbs → Verbs → Type 0 where
  stays : {s : Verbs} → Run s s
  goes_on : {s t u : Verbs} → Run s t → Step t u → Run s u
