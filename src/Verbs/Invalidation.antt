-- ===== src/Verbs/Invalidation.antt =====
-- Which changes of verbs must clear the cache, and that those that do not clear it need not.
use wp_lambdamoo.Prelude.{
  ℕ, ◌+◌, ◌<◌, ◌≡◌, sym, ap, ◌∙◌, ◌⊎◌, inl, inr, Option, none, some, List, [], ◌∷◌, arith, ltb,
  Bool-cases, Option-cases, All,
}
use wp_lambdamoo.Var.{Objid}
use wp_lambdamoo.Db.{Object, Db}
use wp_lambdamoo.Db.Links.Chains.{modify}
use wp_lambdamoo.Verbs.Cache.{
  Entry, Cache, db_priv_affected_callable_verb_lookup, empty_buckets, buckets, with_verbs,
  callable_on,
}
use wp_lambdamoo.Verbs.Lines.{Lines, Numbered}
use wp_lambdamoo.Verbs.FoldedNames.{elsewhere}
use wp_lambdamoo.Verbs.Coherent.{IsRight, Coherent}
use wp_lambdamoo.Verbs.Stores.{Keeps, uncached-modify, IsKey-modify}

affected_none : (c : Cache) → c.vc_table ≡ none → db_priv_affected_callable_verb_lookup c ≡ c
unfolding db_priv_affected_callable_verb_lookup
affected_none c e =
    ap
      (λ t. elim t [
        | none ↦ c
        | some table ↦ record c {
          db_verb_generation = c.db_verb_generation + 1;
          vc_table = some (empty_buckets c.vc_size table);
        }
      ])
      e

affected_some :
    (c : Cache) (table : ℕ → List Entry)
    → c.vc_table ≡ some table
    → db_priv_affected_callable_verb_lookup c ≡ record c {
      db_verb_generation = c.db_verb_generation + 1;
      vc_table = some (empty_buckets c.vc_size table);
    }
unfolding db_priv_affected_callable_verb_lookup
affected_some c table e =
    ap
      (λ t. elim t [
        | none ↦ c
        | some table ↦ record c {
          db_verb_generation = c.db_verb_generation + 1;
          vc_table = some (empty_buckets c.vc_size table);
        }
      ])
      e

buckets_at :
    (c : Cache) (t : Option (ℕ → List Entry)) (i : ℕ)
    → c.vc_table ≡ t
    → buckets c i ≡ elim t [ none ↦ [] | some table ↦ table i ]
buckets_at c t i e = ap (λ u. elim u [ none ↦ [] | some table ↦ table i ]) e

Coherent-empty :
    (db : Db) (c : Cache)
    → ((i : ℕ) → buckets c i ≡ [])
    → (c.vc_table ≡ none) ⊎ (0 < c.vc_size)
    → Coherent db c
Coherent-empty db c e sized = record {
  right = λ i. rw (e i) tt;
  beyond = λ i h. e i;
  sized = sized;
}

-- After db_priv_affected_callable_verb_lookup the cache is coherent with whatever table.
pub affected-Coherent :
    (db db' : Db) (c : Cache)
    → Coherent db c
    → Coherent db' (db_priv_affected_callable_verb_lookup c)
affected-Coherent db db' c co = elim (Option-cases c.vc_table) [
  | inl e ↦
      coe 0 1 (i. Coherent db' (sym (affected_none c e) i))
        (Coherent-empty db' c (λ i. buckets_at c none i e) (inl e))
  | inr (table, e) ↦ coe 0 1 (i. Coherent db' (sym (affected_some c table e) i)) (
      Coherent-empty db'
        (record c {
          db_verb_generation = c.db_verb_generation + 1;
          vc_table = some (empty_buckets c.vc_size table);
        })
        (λ i. emptied table e i) (elim co.sized [ inl n ↦ cc | inr h ↦ inr h ]))
]
  where
    emptied :
        (table : ℕ → List Entry)
        → c.vc_table ≡ some table
        → (i : ℕ) → empty_buckets c.vc_size table i ≡ []
    emptied table e i = elim (Bool-cases (ltb i c.vc_size)) [
      | inl inside ↦ rw inside
      | inr outside ↦ rw outside (sym (buckets_at c (some table) i e) ∙ co.beyond i (ground arith))
    ]

-- A change that keeps numbers, parents and the callable verbs of each object.
abbrev pub IsHarmless : (Object → Object) → Type 0
IsHarmless f =
    Keeps f
    × ((verb : List ℕ) (o : Object)
        → callable_on elsewhere verb (f o) ≡ callable_on elsewhere verb o)
    × ((o : Object) → with_verbs o ≡ some o → with_verbs (f o) ≡ some (f o))

pub All-IsRight :
    (db db' : Db) (es : List Entry)
    → ((vc : Entry) → IsRight db vc → IsRight db' vc)
    → All (IsRight db) es
    → All (IsRight db') es
All-IsRight db db' [] step all = tt
All-IsRight db db' (vc ∷ es) step (r, all) = (step vc r, All-IsRight db db' es step all)

-- So a harmless change needs no clearing.
pub harmless-Coherent :
    (db : Db) (p : Objid) (f : Object → Object) (c : Cache)
    → IsHarmless f
    → Numbered db
    → Lines db
    → Coherent db c
    → Coherent (modify db p f) c
harmless-Coherent db p f c (k, calls, has) n lines co = record {
  right = λ i.
      All-IsRight db (modify db p f) (buckets c i)
        (λ vc (text, key, e). (
          text,
          IsKey-modify db p f vc.oid_key n has key,
          uncached-modify db p f vc.oid_key vc.verbname k n lines (calls vc.verbname) ∙ e,
        ))
        (co.right i);
  beyond = co.beyond;
  sized = co.sized;
}
