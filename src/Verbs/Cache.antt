-- ===== src/Verbs/Cache.antt =====
-- db_verbs.c: the cache of callable verbs, and db_find_callable_verb with it (VERB_CACHE) and without.
use Prim.Native.Nat.{bit_xor, min}
use wp_lambdamoo.Prelude.{
  ℕ, zero, suc, ◌+◌, ◌%◌, Bool, true, ◌&&◌, Option, none, some, List, [], ◌∷◌, ltb, ◌==◌,
  if◌then◌else◌, length, ℤ, pos, negsuc, ◌==ℤ◌,
}
use wp_lambdamoo.Var.{Var, int, list, nil, cons, Vars, Objid, nothing}
use wp_lambdamoo.Strings.{strcasecmp_eq, str_hash}
use wp_lambdamoo.Strings.Strtol.{to_unsigned}
use wp_lambdamoo.Db.{Verbdef, Object, Db, find_object}
use wp_lambdamoo.Db.Outcomes.{Outcome, ok, ◌>>=◌}
use wp_lambdamoo.Verbs.{Handle, handle_found, walk, rounds, find_verbdef_by_name}

-- struct vc_entry; `h` is none where `h.verbdef` is NULL.
pub record Entry : Type 0 where
  pub hash : ℕ
  pub oid_key : Objid
  pub verbname : List ℕ
  pub h : Option Handle

-- The static variables of the cache. The counters are unbounded here; `vc_table` is none before the
-- first lookup.
pub record Cache : Type 0 where
  pub vc_table : Option (ℕ → List Entry)
  pub vc_size : ℕ
  pub db_verb_generation : ℕ
  pub verbcache_hit : ℕ
  pub verbcache_neg_hit : ℕ
  pub verbcache_miss : ℕ

-- The cache as the server starts.
abbrev pub no_cache : Cache
no_cache = record {
  vc_table = none;
  vc_size = 0;
  db_verb_generation = 0;
  verbcache_hit = 0;
  verbcache_neg_hit = 0;
  verbcache_miss = 0;
}

abbrev pub default_vc_size : ℕ
default_vc_size = 7507

abbrev pub empty_buckets : ℕ → (ℕ → List Entry) → ℕ → List Entry
empty_buckets size table i = if ltb i size then [] else table i

unfoldable pub db_priv_affected_callable_verb_lookup : Cache → Cache
db_priv_affected_callable_verb_lookup c = elim c.vc_table [
  | none ↦ c
  | some table ↦ record c {
    db_verb_generation = c.db_verb_generation + 1;
    vc_table = some (empty_buckets c.vc_size table);
  }
]

unfoldable pub make_vc_table : ℕ → Cache → Cache
make_vc_table size c = record c { vc_size = size; vc_table = some (λ i. []) }

abbrev pub vc_cache_stats_max : ℕ
vc_cache_stats_max = 16

-- `histogram[depth]++`
abbrev pub count_depth : ℕ → List ℕ → List ℕ
count_depth depth [] = []
count_depth zero (n ∷ ns) = suc n ∷ ns
count_depth (suc d) (n ∷ ns) = n ∷ count_depth d ns

-- The loop over the buckets i to i + n - 1.
unfoldable pub histogram_loop : ℕ → ℕ → (ℕ → List Entry) → List ℕ → List ℕ
histogram_loop zero i table histogram = histogram
histogram_loop (suc n) i table histogram =
    histogram_loop n (suc i) table
      (count_depth (min (length (table i)) vc_cache_stats_max) histogram)

abbrev pub replicate_zero : ℕ → List ℕ
replicate_zero zero = []
replicate_zero (suc n) = 0 ∷ replicate_zero n

abbrev pub buckets : Cache → ℕ → List Entry
buckets c i = elim c.vc_table [ none ↦ [] | some table ↦ table i ]

abbrev pub ints : List ℕ → Vars
ints [] = nil
ints (n ∷ ns) = cons (int (pos n)) (ints ns)

abbrev pub cons_list : Vars → Vars → Vars
cons_list nil r = r
cons_list (cons v vs) r = cons v (cons_list vs r)

unfoldable pub histogram_of : Cache → List ℕ
unfolding histogram_loop
histogram_of c = histogram_loop c.vc_size 0 (buckets c) (replicate_zero (suc vc_cache_stats_max))

unfoldable pub db_verb_cache_stats : Cache → Var
unfolding histogram_of
db_verb_cache_stats c = list (
    cons_list
      (ints (c.verbcache_hit ∷ c.verbcache_neg_hit ∷ c.verbcache_miss ∷ c.db_verb_generation ∷ []))
      (cons (list (ints (histogram_of c))) nil))

-- `!vc->h.verbdef`, `verbcache_hit++` and `verbcache_neg_hit++`
abbrev pub count_hit : Option Handle → Cache → Cache
count_hit none c = record c { verbcache_neg_hit = c.verbcache_neg_hit + 1 }
count_hit (some h) c = record c { verbcache_hit = c.verbcache_hit + 1 }

unfoldable pub find_entry : ℕ → Objid → List ℕ → List Entry → Option Entry
find_entry hash key verb [] = none
find_entry hash key verb (vc ∷ vcs) =
    let rest = find_entry hash key verb vcs in
    if (hash == vc.hash) && (key ==ℤ vc.oid_key) && strcasecmp_eq verb vc.verbname
    then some vc
    else rest

-- `str_hash(verb) ^ (~first_parent_with_verbs)`
abbrev pub complement : Objid → ℤ
complement (pos n) = negsuc n
complement (negsuc n) = pos n

unfoldable pub cache_hash : Objid → List ℕ → ℕ
cache_hash key verb = bit_xor (str_hash verb) (to_unsigned (complement key))

abbrev pub with_verbs : Object → Option Object
with_verbs o = elim o.verbdefs [ [] ↦ none | v ∷ vs ↦ some o ]

abbrev pub key_of : Option Object → Objid
key_of none = nothing
key_of (some o) = o.id

-- `new_vc->next = vc_table[bucket]; vc_table[bucket] = new_vc;`
abbrev pub push_entry : (ℕ → List Entry) → ℕ → Entry → ℕ → List Entry
push_entry table bucket vc i = if i == bucket then vc ∷ table i else table i

abbrev pub ensure_table : Cache → Cache
ensure_table c = elim c.vc_table [ none ↦ make_vc_table default_vc_size c | some table ↦ c ]

module _ (same : Verbdef → Bool) where
  abbrev pub callable_on : List ℕ → Object → Option Handle
  callable_on verb o = handle_found o (find_verbdef_by_name same o.verbdefs verb true)

  -- The build without VERB_CACHE.
  unfoldable pub find_callable_uncached : Db → Objid → List ℕ → Outcome (Option Handle)
  unfolding walk find_verbdef_by_name
  find_callable_uncached db oid verb = walk (rounds db) db (callable_on verb) (find_object db oid)

  -- What a lookup does at the first ancestor with verbs, `o`, when no entry answers it.
  unfoldable pub miss : Db → Cache → Option Object → List ℕ → Outcome (Option Handle × Cache)
  unfolding walk cache_hash
  miss db c o verb =
      let hash = cache_hash (key_of o) verb in
      walk (rounds db) db (callable_on verb) o >>= λ found.
      let vc : Entry = record { hash = hash; oid_key = key_of o; verbname = verb; h = found } in
      ok (
        found,
        record c {
          verbcache_miss = c.verbcache_miss + 1;
          vc_table = some (push_entry (buckets c) (hash % c.vc_size) vc);
        },
      )

  abbrev pub answer :
      Cache → Option Entry → Outcome (Option Handle × Cache) → Outcome (Option Handle × Cache)
  answer c none missed = missed
  answer c (some vc) missed = ok (vc.h, count_hit vc.h c)

  unfoldable pub db_find_callable_verb :
      Db → Cache → Objid → List ℕ → Outcome (Option Handle × Cache)
  unfolding walk make_vc_table find_entry cache_hash miss
  db_find_callable_verb db cache oid verb =
      let c = ensure_table cache in
      walk (rounds db) db with_verbs (find_object db oid) >>= λ o.
      let hash = cache_hash (key_of o) verb in
      answer c (find_entry hash (key_of o) verb (buckets c (hash % c.vc_size))) (miss db c o verb)
