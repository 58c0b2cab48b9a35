-- ===== src/Verbs/OwnKept.antt =====
-- db_verbs.c: what the cache makes of a lookup of a verb's own string.
use wp_lambdamoo.Var.{Objid}
use wp_lambdamoo.Verbs.{Handle, walk}
use wp_lambdamoo.Db.{find_object, Db, Verbdef, Object}
use wp_lambdamoo.Prelude.{
  ℕ, suc, ◌+◌, ◌%◌, ◌≡◌, Bool, Option, some, List, [], ◌∷◌, ==-refl, ==ℤ-refl,
}
use wp_lambdamoo.Db.Outcomes.{ok}
use wp_lambdamoo.Verbs.Cache.{
  count_hit, buckets, push_entry, Entry, with_verbs, cache_hash, Cache, find_entry, miss,
  db_find_callable_verb, find_callable_uncached, no_cache, make_vc_table, default_vc_size,
}
use wp_lambdamoo.Strings.Fold.{IsText, strcasecmp_eq_refl}

-- The first round of a walk from an object that answers.
first_round :
    (fuel : ℕ) (db : Db) (o : Object)
    → with_verbs o ≡ some o
    → walk (suc fuel) db with_verbs (some o) ≡ ok (some o)
unfolding walk
first_round fuel db o e = rw e

abbrev fresh : Cache
fresh = make_vc_table default_vc_size no_cache

abbrev kept_entry : Object → List ℕ → Option Handle → Entry
kept_entry o verb h = record { hash = cache_hash o.id verb; oid_key = o.id; verbname = verb; h = h }

abbrev filled : Object → List ℕ → Option Handle → Cache
filled o verb h = record fresh {
  verbcache_miss = fresh.verbcache_miss + 1;
  vc_table =
      some
        (push_entry (buckets fresh) (cache_hash o.id verb % fresh.vc_size) (kept_entry o verb h));
}

first_lookup :
    (same : Verbdef → Bool) (db : Db) (oid : Objid) (o : Object) (verb : List ℕ) (h : Option Handle)
    → find_object db oid ≡ some o
    → with_verbs o ≡ some o
    → find_callable_uncached same db oid verb ≡ ok h
    → db_find_callable_verb same db no_cache oid verb ≡ ok (h, filled o verb h)
unfolding db_find_callable_verb find_callable_uncached miss make_vc_table find_entry
first_lookup same db oid o verb h found has e =
    let from_o = rw found at e in rw (found, first_round db.num_objects db o has, from_o)

entry_found :
    (o : Object) (verb : List ℕ) (h : Option Handle)
    → IsText verb
    → find_entry (cache_hash o.id verb) o.id verb (kept_entry o verb h ∷ [])
      ≡ some (kept_entry o verb h)
unfolding find_entry
entry_found o verb h text =
    rw (==-refl (cache_hash o.id verb), ==ℤ-refl o.id, strcasecmp_eq_refl verb text)

second_lookup :
    (same : Verbdef → Bool) (db : Db) (oid : Objid) (o : Object) (verb : List ℕ) (h : Option Handle)
    → find_object db oid ≡ some o
    → with_verbs o ≡ some o
    → IsText verb
    → db_find_callable_verb same db (filled o verb h) oid verb
      ≡ ok (h, count_hit h (filled o verb h))
unfolding db_find_callable_verb make_vc_table
second_lookup same db oid o verb h found has text = rw (
  found,
  first_round db.num_objects db o has,
  ==-refl (cache_hash o.id verb % default_vc_size),
  entry_found o verb h text,
)

-- From the start of the server, at an object with verbs: what db_find_callable_verb finds for a C
-- string at one address it answers next for a string with the same bytes at any other address, whatever
-- the build without VERB_CACHE finds for that.
pub db_find_callable_verb_kept :
    (same other : Verbdef → Bool) (db : Db) (oid : Objid) (o : Object) (verb : List ℕ)
    (h : Option Handle)
    → IsText verb
    → find_object db oid ≡ some o
    → with_verbs o ≡ some o
    → find_callable_uncached same db oid verb ≡ ok h
    → (c c' : Cache) × (db_find_callable_verb same db no_cache oid verb ≡ ok (h, c))
      × (db_find_callable_verb other db c oid verb ≡ ok (h, c'))
db_find_callable_verb_kept same other db oid o verb h text found has e = (
  filled o verb h,
  count_hit h (filled o verb h),
  first_lookup same db oid o verb h found has e,
  second_lookup other db oid o verb h found has text,
)
