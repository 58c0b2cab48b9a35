-- ===== src/Verbs/Runs.antt =====
-- db_verbs.c: the runs of its operations.
use wp_lambdamoo.Verbs.OwnNames.{uncached-elsewhere, AcceptsOwn, lookup-elsewhere}
use wp_lambdamoo.Verbs.Stores.{ok_injective}
use wp_lambdamoo.Verbs.Access.{
  db_set_verb_program, db_set_verb_owner, db_set_verb_arg_specs, with_specs, db_set_verb_flags,
  with_flags, db_set_verb_names,
}
use wp_lambdamoo.Verbs.Coherent.{Coherent, db_find_callable_verb-Coherent}
use wp_lambdamoo.Db.Outcomes.{ok}
use wp_lambdamoo.Verbs.{Handle}
use wp_lambdamoo.Strings.Fold.{IsText}
use wp_lambdamoo.Verbs.Cache.{find_callable_uncached, db_find_callable_verb, Cache, no_cache}
use wp_lambdamoo.Verbs.Cleared.{
  verb_kept, set_and_clear_lem, delete_lem, add_lem, Cleared-IsSound, IsSound,
}
use wp_lambdamoo.Var.{Objid}
use wp_lambdamoo.Verbs.Lines.{Lines, Numbered}
use wp_lambdamoo.Db.{Verbdef, Db}
use wp_lambdamoo.Verbs.Steps.{
  stays, looks_up, sets_program, sets_owner, sets_arg_specs, sets_flags, renames, deletes, goes_on,
  adds, Step, Run, Verbs,
}
use wp_lambdamoo.Prelude.{Bool, ℕ, ◌≡◌, refl, sym, ap, ◌∙◌, inl, Option, none, some, List}

pub Step-IsSound : (s t : Verbs) → Step s t → IsSound s → IsSound t
Step-IsSound s t (adds {db = db} {cache = cache} address oid vnames owner flags dobj prep iobj n e)
      i =
    Cleared-IsSound s db cache
      (add_lem s address oid vnames owner flags dobj prep iobj n db cache e) i
Step-IsSound s t (deletes {db = db} {cache = cache} vh e) i =
    Cleared-IsSound s db cache (delete_lem s vh db cache e) i
Step-IsSound s t (renames {db = db} {cache = cache} vh names e) i =
    Cleared-IsSound s db cache
      (set_and_clear_lem s vh (λ v. record v { name = names }) db cache
        (unfold db_set_verb_names in e))
      i
Step-IsSound s t (sets_flags {db = db} {cache = cache} vh flags e) i =
    Cleared-IsSound s db cache
      (set_and_clear_lem s vh (λ v. record v { perms = with_flags v.perms flags }) db cache
        (unfold db_set_verb_flags in e))
      i
Step-IsSound s t (sets_arg_specs {db = db} {cache = cache} vh dobj prep iobj e) i =
    Cleared-IsSound s db cache
      (set_and_clear_lem s vh (with_specs dobj prep iobj) db cache
        (unfold db_set_verb_arg_specs in e))
      i
Step-IsSound s t (sets_owner {db = db} none owner e) i = unfold db_set_verb_owner in cc
Step-IsSound s t (sets_owner {db = db} (some h) owner e) i =
    verb_kept s h (λ v. record v { owner = owner }) db (λ v. (refl, refl, refl))
      (unfold db_set_verb_owner in e) i
Step-IsSound s t (sets_program {db = db} none program e) i = unfold db_set_verb_program in cc
Step-IsSound s t (sets_program {db = db} (some h) program e) i =
    verb_kept s h (λ v. record v { program = program }) db (λ v. (refl, refl, refl))
      (unfold db_set_verb_program in e) i
Step-IsSound s t (looks_up {cache = cache} same oid verb found text own e) i =
    let (found', c', e', answer, co) =
      db_find_callable_verb-Coherent s.db s.cache oid verb i.numbered i.lines text i.coherent in
    let e₀ = sym (lookup-elsewhere same verb own s.db s.cache oid) ∙ e in
    let after : c' ≡ cache = ap (λ r. r.1) (ok_injective (sym e' ∙ e₀)) in
    record {
      numbered = i.numbered;
      lines = i.lines;
      coherent = coe 0 1 (j. Coherent s.db (after j)) co;
    }

-- The cache as the server starts is sound with any table whose objects have their own numbers and
-- no object that is its own ancestor.
pub no_cache-IsSound :
    (db : Db) → Numbered db → Lines db → IsSound (record { db = db; cache = no_cache })
no_cache-IsSound db n l = record {
  numbered = n;
  lines = l;
  coherent = record { right = λ i. tt; beyond = λ i h. refl; sized = inl refl };
}

Run-IsSound : (s t : Verbs) → Run s t → IsSound s → IsSound t
Run-IsSound s t stays i = i
Run-IsSound s u (goes_on {t = t} run step) i = Step-IsSound t u step (Run-IsSound s t run i)

-- Whatever operations of db_verbs.c ran since the server started, with no panic or fault, on a table
-- in which every object has its own number and none is its own ancestor: the next lookup returns, and
-- answers as the build without VERB_CACHE does on the table as it is then. All lookups, the earlier
-- ones too, are of C strings that are not at the address of a verb's names which do not accept them
-- as a word.
pub db_find_callable_verb-Run :
    (db : Db) (s : Verbs) (same : Verbdef → Bool) (oid : Objid) (verb : List ℕ)
    → Numbered db
    → Lines db
    → Run (record { db = db; cache = no_cache }) s
    → IsText verb
    → AcceptsOwn same verb
    → (found : Option Handle) × (c' : Cache) × (db_find_callable_verb same s.db s.cache oid verb
        ≡ ok (found, c'))
      × (find_callable_uncached same s.db oid verb ≡ ok found)
db_find_callable_verb-Run db s same oid verb n l run text own =
    let i = Run-IsSound (record { db = db; cache = no_cache }) s run (no_cache-IsSound db n l) in
    let (found, c', e, answer, co) =
      db_find_callable_verb-Coherent s.db s.cache oid verb i.numbered i.lines text i.coherent in
    (
      found,
      c',
      lookup-elsewhere same verb own s.db s.cache oid ∙ e,
      uncached-elsewhere same verb own s.db oid ∙ answer,
    )
