-- ===== src/Verbs/Coherent.antt =====
-- The cache of callable verbs answers as the lookup without it does.
use wp_lambdamoo.Verbs.Lines.{first_in, Lines, Numbered}
use wp_lambdamoo.Prelude.{
  some_injective, ◌∙◌, ◌%◌, ◌+◌, ap, sym, ℕ, ◌≤◌, ◌<◌, ◌≡◌, refl, ◌⊎◌, inl, inr, Bool, true, false,
  ◌&&◌, Option, none, some, List, [], ◌∷◌, arith, ◌==◌, Bool-cases, Option-cases, All, ◌==ℤ◌,
  ==ℤ_iff,
}
use wp_lambdamoo.Var.{Objid}
use wp_lambdamoo.Strings.{strcasecmp_eq}
use wp_lambdamoo.Strings.Fold.{strcasecmp_eq_iff, IsText}
use wp_lambdamoo.Db.{find_object, Object, Db}
use wp_lambdamoo.Db.Outcomes.{ok}
use wp_lambdamoo.Verbs.{Handle}
use wp_lambdamoo.Verbs.Cache.{
  callable_on, cache_hash, key_of, db_find_callable_verb, miss, Entry, Cache, default_vc_size,
  make_vc_table, buckets, count_hit, find_entry, push_entry, ensure_table, find_callable_uncached,
}
use wp_lambdamoo.Verbs.FoldedNames.{elsewhere}
use wp_lambdamoo.Verbs.Keys.{uncached-fold, uncached-Line, lookup-IsKey, IsKey}

-- An entry has a C string for a name, a key, and the answer of the lookup without the cache.
abbrev pub IsRight : Db → Entry → Type 0
IsRight db vc =
    IsText vc.verbname
    × IsKey db vc.oid_key
    × (find_callable_uncached elsewhere db vc.oid_key vc.verbname ≡ ok vc.h)

-- All entries are right, none is outside the table, and a table has buckets.
pub record Coherent (db : Db) (c : Cache) : Type 0 where
  pub right : (i : ℕ) → All (IsRight db) (buckets c i)
  pub beyond : (i : ℕ) → c.vc_size ≤ i → buckets c i ≡ []
  pub sized : (c.vc_table ≡ none) ⊎ (0 < c.vc_size)

Coherent-make : (db : Db) (c : Cache) → Coherent db (make_vc_table default_vc_size c)
unfolding make_vc_table
Coherent-make db c = record { right = λ i. tt; beyond = λ i h. refl; sized = inr (omega arith) }

ensured :
    (c : Cache) (t : Option (ℕ → List Entry))
    → c.vc_table ≡ t
    → ensure_table c ≡ elim t [ none ↦ make_vc_table default_vc_size c | some table ↦ c ]
ensured c t e = ap (λ u. elim u [ none ↦ make_vc_table default_vc_size c | some table ↦ c ]) e

-- The first lookup makes the table, and leaves the cache as right as it was.
abbrev Ready : Db → Cache → Type 0
Ready db c = Coherent db c × (0 < c.vc_size)

ensure_table-Ready : (db : Db) (c : Cache) → Coherent db c → Ready db (ensure_table c)
ensure_table-Ready db c co = elim (Option-cases c.vc_table) [
  | inl e ↦
      coe 0 1 (i. Ready db (sym (ensured c none e) i))
        (Coherent-make db c, unfold make_vc_table in omega arith)
  | inr (table, e) ↦
      coe 0 1 (i. Ready db (sym (ensured c (some table) e) i))
        (co, (elim co.sized [ inl no_table ↦ cc | inr h ↦ h ]))
]

found_entry :
    (P : Entry → Type 0) (hash : ℕ) (key : Objid) (verb : List ℕ) (vcs : List Entry) (vc : Entry)
    → All P vcs
    → find_entry hash key verb vcs ≡ some vc
    → P vc × (key ≡ vc.oid_key) × (strcasecmp_eq verb vc.verbname ≡ true)
unfolding find_entry
found_entry P hash key verb [] vc all e = cc
found_entry P hash key verb (x ∷ vcs) vc (px, all) e =
    elim (Bool-cases ((hash == x.hash) && (key ==ℤ x.oid_key) && strcasecmp_eq verb x.verbname)) [
      | inl t ↦
          let (h, k, s) =
            conjuncts (hash == x.hash) (key ==ℤ x.oid_key) (strcasecmp_eq verb x.verbname) t in
          let xvc : x ≡ vc = some_injective (rw t at e) in
          coe 0 1
            (i. P (xvc i) × (key ≡ (xvc i).oid_key) × (strcasecmp_eq verb (xvc i).verbname ≡ true))
            (px, (==ℤ_iff key x.oid_key).0 k, s)
      | inr t ↦ found_entry P hash key verb vcs vc all (rw t at e)
    ]
  where
    conjuncts : (a b c : Bool) → (a && b && c) ≡ true → (a ≡ true) × (b ≡ true) × (c ≡ true)
    conjuncts true true true e = (refl, refl, refl)
    conjuncts true true false e = cc
    conjuncts true false c e = cc
    conjuncts false b c e = cc

count_hit-Coherent :
    (db : Db) (h : Option Handle) (c : Cache) → Coherent db c → Coherent db (count_hit h c)
count_hit-Coherent db none c co = record { right = co.right; beyond = co.beyond; sized = co.sized }
count_hit-Coherent db (some h) c co = record {
  right = co.right;
  beyond = co.beyond;
  sized = co.sized;
}

push-IsRight :
    (db : Db) (table : ℕ → List Entry) (bucket : ℕ) (vc : Entry)
    → IsRight db vc
    → ((i : ℕ) → All (IsRight db) (table i))
    → (i : ℕ) → All (IsRight db) (push_entry table bucket vc i)
push-IsRight db table bucket vc r all i = elim (Bool-cases (i == bucket)) [
  | inl e ↦ rw e (r, all i)
  | inr e ↦ rw e (all i)
]

push_beyond :
    (table : ℕ → List Entry) (bucket size : ℕ) (vc : Entry)
    → bucket < size
    → ((i : ℕ) → size ≤ i → table i ≡ [])
    → (i : ℕ) → size ≤ i
    → push_entry table bucket vc i ≡ []
push_beyond table bucket size vc lt none_there i h =
    let ne : (i == bucket) ≡ false = ground arith in rw ne (none_there i h)

-- A lookup that no entry answers puts a right entry in its place.
miss_lem :
    (db : Db) (c : Cache) (start : Option Object) (verb : List ℕ)
    → IsText verb
    → Ready db c
    → IsKey db (key_of start)
    → find_object db (key_of start) ≡ start
    → (found : Option Handle) → find_callable_uncached elsewhere db (key_of start) verb ≡ ok found
    → (c' : Cache) × (miss elsewhere db c start verb ≡ ok (found, c')) × Coherent db c'
unfolding miss find_callable_uncached
miss_lem db c start verb text (co, size) key home found e =
    let hash = cache_hash (key_of start) verb in
    let vc : Entry = record { hash = hash; oid_key = key_of start; verbname = verb; h = found } in
    let c' : Cache = record c {
      verbcache_miss = c.verbcache_miss + 1;
      vc_table = some (push_entry (buckets c) (hash % c.vc_size) vc);
    } in
    let from_start = rw home at e in
    (
      c',
      rw from_start,
      record {
        right = push-IsRight db (buckets c) (hash % c.vc_size) vc (text, key, e) co.right;
        beyond = push_beyond (buckets c) (hash % c.vc_size) c.vc_size vc (omega arith) co.beyond;
        sized = inr size;
      },
    )

-- The lookup returns, with the answer of the build without VERB_CACHE and a coherent cache.
abbrev pub Answers : Db → Cache → Objid → List ℕ → Type 0
Answers db c oid verb =
    (found : Option Handle) × (c' : Cache) × (db_find_callable_verb elsewhere db c oid verb
      ≡ ok (found, c'))
    × (find_callable_uncached elsewhere db oid verb ≡ ok found)
    × Coherent db c'

-- On a table in which every object has its own number and no object is its own ancestor, with a
-- coherent cache, db_find_callable_verb ends without a panic or a fault; it finds for any C string
-- that is at no verb's address what the build without VERB_CACHE finds, and leaves a coherent cache.
pub db_find_callable_verb-Coherent :
    (db : Db) (c : Cache) (oid : Objid) (verb : List ℕ)
    → Numbered db
    → Lines db
    → IsText verb
    → Coherent db c
    → Answers db c oid verb
unfolding db_find_callable_verb
db_find_callable_verb-Coherent db c₀ oid verb n lines text co₀ =
    let (start, goes, key, home, same) = lookup-IsKey db oid n lines in
    let (os, l) = lines (key_of start) in
    let found = first_in (callable_on elsewhere verb) os in
    let e = uncached-Line os (key_of start) db verb n l in
    let c = ensure_table c₀ in
    let hash = cache_hash (key_of start) verb in
    let ready = ensure_table-Ready db c₀ co₀ in
    elim (Option-cases (find_entry hash (key_of start) verb (buckets c (hash % c.vc_size)))) [
      | inl none_there ↦
          let (c', missed, co') = miss_lem db c start verb text ready key home found e in
          (found, c', rw (goes, none_there) missed, same verb ∙ e, co')
      | inr (vc, there) ↦
          let ((text', key', right), k, s) =
            found_entry (IsRight db) hash (key_of start) verb (buckets c (hash % c.vc_size)) vc
              (ready.0.right (hash % c.vc_size)) there in
          let folded = (strcasecmp_eq_iff verb vc.verbname text text').0 s in
          (
            vc.h,
            count_hit vc.h c,
            rw (goes, there),
            same verb
                ∙ uncached-fold db (key_of start) verb vc.verbname folded
                ∙ ap (λ p. find_callable_uncached elsewhere db p vc.verbname) k
                ∙ right,
            count_hit-Coherent db vc.h c ready.0,
          )
    ]
