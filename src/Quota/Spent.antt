-- ===== src/Quota/Spent.antt =====
-- quota.c: what the quota of a player is after decr_quota and incr_quota.
use wp_lambdamoo.Properties.Resolved.{db_find_property_lem}
use wp_lambdamoo.Strings.{mystrcasecmp, str_hash}
use wp_lambdamoo.Verbs.Lines.{Line, Numbered}
use wp_lambdamoo.Properties.Found.{Rooted, Filled, Undefined}
use wp_lambdamoo.Properties.Rewritten.{
  valid-db_set_property_value, db_find_property-db_set_property_value,
}
use wp_lambdamoo.Properties.Values.{pval_at, db_find_property, db_set_property_value}
use wp_lambdamoo.Db.{find_object, Object, valid, Db}
use wp_lambdamoo.Var.{int, Var, Num, Objid, Doubles}
use wp_lambdamoo.Prelude.{
  zero, negsuc, none, ◌≤ℤ◌, inr, List, inl, ◌⊎◌, ◌≢◌, ℕ, suc, ◌^◌, ◌<◌, ◌≡◌, refl, ap, ◌∙◌, true,
  false, ◌&&◌, Option, some, arith, ◌==◌, set, pos, ◌-ℤ◌, leb_ℤ, ◌==ℤ◌,
}
use wp_lambdamoo.Db.Outcomes.{ok}
use wp_lambdamoo.Properties.{missing, ptable, find_built_in, PropHandle, slot}
use wp_lambdamoo.Quota.{successor, charge, credit, decr_quota, incr_quota, quota_name}

-- db_find_property finds the quota `n` of the player, in slot `k`.
abbrev pub HasQuota : Db → Objid → Objid → ℕ → Num → Type 0
HasQuota db player definer k n =
    db_find_property db player quota_name true ≡ ok (slot definer player k, some (int n))

decr_quota-charge :
    (fl : Doubles) (db : Db) (player : Objid) (r : PropHandle × Option Var)
    → valid db player ≡ true
    → db_find_property db player quota_name true ≡ ok r
    → decr_quota fl db player ≡ charge fl db r
unfolding decr_quota
decr_quota-charge fl db player r v e = rw (v, e)

incr_quota-credit :
    (fl : Doubles) (db : Db) (player : Objid) (r : PropHandle × Option Var)
    → valid db player ≡ true
    → db_find_property db player quota_name true ≡ ok r
    → incr_quota fl db player ≡ credit fl db r
unfolding incr_quota
incr_quota-credit fl db player r v e = rw (v, e)

over_zero : (m : ℕ) → leb_ℤ (pos (suc m)) (pos 0) ≡ false
over_zero m = ground arith

less_one : (m : ℕ) → pos (suc m) -ℤ pos 1 ≡ pos m
unfolding ◌-ℤ◌
less_one m = ground arith

charge_positive :
    (fl : Doubles) (db db' : Db) (player definer : Objid) (k m : ℕ)
    → db_set_property_value fl db (slot definer player k) (int (pos m)) ≡ ok db'
    → charge fl db (slot definer player k, some (int (pos (suc m)))) ≡ ok (true, db')
charge_positive fl db db' player definer k m e = rw (over_zero m, less_one m, e)

successor_pos : (m : ℕ) → suc m < 2 ^ 63 → successor (pos m) ≡ pos (suc m)
successor_pos m h = ground arith

abbrev pub KeepsOthers : Db → Objid → ℕ → Db → Type 0
KeepsOthers db player k db' =
    (q : Objid) (j : ℕ) → ((player ==ℤ q) && (k == j)) ≡ false → pval_at db' q j ≡ pval_at db q j

-- decr_quota of a positive quota takes one off it, and leaves every other slot as it was.
abbrev pub TakesOne : Doubles → Db → Objid → Objid → ℕ → ℕ → Db → Type 0
TakesOne fl db player definer k m db' =
    (decr_quota fl db player ≡ ok (true, db'))
    × HasQuota db' player definer k (pos m)
    × KeepsOthers db player k db'

decr_quota_positive :
    (fl : Doubles) (db : Db) (player definer : Objid) (k m : ℕ)
    → valid db player ≡ true
    → HasQuota db player definer k (pos (suc m))
    → (db' : Db) × TakesOne fl db player definer k m db' × (valid db' player ≡ true)
decr_quota_positive fl db player definer k m v has =
    let (db', set, found, others) =
      db_find_property-db_set_property_value fl db player quota_name definer k (int (pos (suc m)))
        (int (pos m)) has refl in
    (
      db',
      (
        decr_quota-charge fl db player (slot definer player k, some (int (pos (suc m)))) v has
            ∙ charge_positive fl db db' player definer k m set,
        found,
        others,
      ),
      valid-db_set_property_value fl db definer player k (int (pos m)) db' player set ∙ v,
    )

-- For a valid player with a positive quota of 64 bits decr_quota answers 1 and takes one off the
-- quota, incr_quota then brings it back, and both leave every other slot as it was.
pub incr_quota-decr_quota :
    (fl : Doubles) (db : Db) (player definer : Objid) (k m : ℕ)
    → valid db player ≡ true
    → HasQuota db player definer k (pos (suc m))
    → suc m < 2 ^ 63
    → (db' db'' : Db) × TakesOne fl db player definer k m db'
      × (incr_quota fl db' player ≡ ok db'')
      × HasQuota db'' player definer k (pos (suc m))
      × KeepsOthers db player k db''
incr_quota-decr_quota fl db player definer k m v has h =
    let (db', takes, v') = decr_quota_positive fl db player definer k m v has in
    let (charged, has', others') = takes in
    let (db'', set, found, others) =
      db_find_property-db_set_property_value fl db' player quota_name definer k (int (pos m))
        (int (pos (suc m))) has' refl in
    (
      db',
      db'',
      takes,
      incr_quota-credit fl db' player (slot definer player k, some (int (pos m))) v' has'
          ∙ ap (λ n. db_set_property_value fl db' (slot definer player k) (int n))
              (successor_pos m h)
          ∙ set,
      found,
      λ q j ne. others q j ne ∙ others' q j ne,
    )

-- The value that was found is no int.
abbrev pub NotInt : Var → Type 0
NotInt v = (n : Num) → v ≢ int n

-- A value other than an int is no quota.
charge_other :
    (fl : Doubles) (db : Db) (definer player : Objid) (k : ℕ) (v : Var)
    → ((n : Num) × (v ≡ int n))
      ⊎ ((charge fl db (slot definer player k, some v) ≡ ok (true, db)) × NotInt v)
charge_other fl db definer player k (int n) = inl (n, refl)
charge_other fl db definer player k v = inr (refl, λ n q. cc)

-- All that decr_quota answers for a valid player whose ancestors are `os`.
abbrev pub Charged : Doubles → Db → Objid → List Object → Type 0
Charged fl db player os =
    (Undefined (str_hash quota_name) quota_name os × (decr_quota fl db player ≡ ok (true, db)))
    ⊎ ((definer : Objid) × (k : ℕ) × (v : Var) × (db_find_property db player quota_name true
          ≡ ok (slot definer player k, some v))
        × NotInt v
        × (decr_quota fl db player ≡ ok (true, db)))
    ⊎ ((definer : Objid) × (k : ℕ) × (n : Num) × HasQuota db player definer k n
        × (n ≤ℤ pos 0)
        × (decr_quota fl db player ≡ ok (false, db)))
    ⊎ ((definer : Objid) × (k : ℕ) × (m : ℕ) × (db' : Db) × HasQuota db player definer k
          (pos (suc m))
        × TakesOne fl db player definer k m db')

spent :
    (fl : Doubles) (db : Db) (player definer : Objid) (k : ℕ) (n : Num)
    → valid db player ≡ true
    → HasQuota db player definer k n
    → leb_ℤ n (pos 0) ≡ true
    → decr_quota fl db player ≡ ok (false, db)
spent fl db player definer k n v has used =
    decr_quota-charge fl db player (slot definer player k, some (int n)) v has ∙ refused
  where
    refused : charge fl db (slot definer player k, some (int n)) ≡ ok (false, db)
    refused = rw used

Charged-int :
    (fl : Doubles) (db : Db) (player : Objid) (os : List Object) (definer : Objid) (k : ℕ) (n : Num)
    → valid db player ≡ true
    → HasQuota db player definer k n
    → Charged fl db player os
Charged-int fl db player os definer k (pos zero) v has =
    let used = spent fl db player definer k (pos zero) v has refl in
    inr (inr (inl (definer, k, pos zero, has, omega arith, used)))
Charged-int fl db player os definer k (negsuc j) v has =
    let used = spent fl db player definer k (negsuc j) v has (ground arith) in
    inr (inr (inl (definer, k, negsuc j, has, omega arith, used)))
Charged-int fl db player os definer k (pos (suc m)) v has =
    let (db', takes, v') = decr_quota_positive fl db player definer k m v has in
    inr (inr (inr (definer, k, m, db', has, takes)))

-- decr_quota of a found value.
Charged-found :
    (fl : Doubles) (db : Db) (player : Objid) (os : List Object) (definer : Objid) (k : ℕ) (w : Var)
    → valid db player ≡ true
    → db_find_property db player quota_name true ≡ ok (slot definer player k, some w)
    → Charged fl db player os
Charged-found fl db player os definer k w v found = elim (charge_other fl db definer player k w) [
  | inl (n, q) ↦
      Charged-int fl db player os definer k n v
        (found ∙ ap (λ x. ok (slot definer player k, some x)) q)
  | inr (free, other) ↦
      let answer = decr_quota-charge fl db player (slot definer player k, some w) v found ∙ free in
      inr (inl (definer, k, w, found, other, answer))
]

not_built_in : find_built_in (str_hash quota_name) quota_name ptable ≡ none
unfolding find_built_in str_hash mystrcasecmp ◌-ℤ◌
not_built_in = refl

-- On a table in which every object has its own number, none is its own ancestor, every object has a
-- slot for each of its properties and no definer's slot is clear, decr_quota of a valid player ends
-- without a fault: a player without a quota, or with one that is no int, is charged nothing and told
-- 1; a quota of 0 or less is left and the answer is 0; of a positive one it takes one, answers 1,
-- and leaves every other slot.
pub decr_quota_cases :
    (fl : Doubles) (db : Db) (player : Objid) (os : List Object)
    → Numbered db
    → Filled db
    → Rooted db
    → Line os db (find_object db player)
    → valid db player ≡ true
    → Charged fl db player os
decr_quota_cases fl db player os n filled rooted l v =
    elim (db_find_property_lem db player quota_name os n filled rooted l not_built_in) [
      | inl (e, none_there) ↦ inl (none_there, decr_quota-charge fl db player (missing, none) v e)
      | inr (definer, k, value, pv, e, points, kept, held, there) ↦
          Charged-found fl db player os definer k value v e
    ]
