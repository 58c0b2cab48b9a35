-- ===== src/Db/Links/Counting.antt =====
-- A list of distinct valid objects is no longer than the table, which bounds the loops over it.
use wp_lambdamoo.Prelude.{
  ℕ, zero, suc, ◌≤◌, ◌≡◌, refl, sym, ◌∙◌, inl, inr, Bool, true, false, not, ◌&&◌, some, List, [],
  ◌∷◌, arith, ltb, Bool-cases, length, pos, negsuc, ◌==ℤ◌, ==ℤ_iff, ==ℤ-refl, clash,
}
use wp_lambdamoo.Var.{Objid}
use wp_lambdamoo.Db.{Object, Db, find_object}
use wp_lambdamoo.Db.Links.{Links}
use wp_lambdamoo.Db.Links.Chains.{mem, Distinct, without, Chain}
use wp_lambdamoo.Db.Links.Unlink.{without_absent, without_here, without_there}

pub mem-without :
    (x q : Objid) (qs : List Objid) → mem q (without x qs) ≡ (not (x ==ℤ q) && mem q qs)
unfolding mem without
mem-without x q [] = ground arith
mem-without x q (r ∷ qs) = elim (Bool-cases (x ==ℤ r)) [
  | inl same ↦ elim (Bool-cases (q ==ℤ r)) [
    | inl e ↦
        let xr : x ≡ r = (==ℤ_iff x r).0 same in
        let qr : q ≡ r = (==ℤ_iff q r).0 e in
        let xq : (x ==ℤ q) ≡ true = rw (xr, qr) (==ℤ-refl r) in rw (same, mem-without x q qs, xq)
    | inr e ↦ rw (same, e, mem-without x q qs)
  ]
  | inr other ↦ elim (Bool-cases (q ==ℤ r)) [
    | inl e ↦
        let qr : q ≡ r = (==ℤ_iff q r).0 e in
        let xq : (x ==ℤ q) ≡ false = rw qr other in rw (other, xq, e)
    | inr e ↦ rw (other, e, mem-without x q qs)
  ]
]

without_nil : (x : Objid) → Distinct [] → Distinct (without x [])
unfolding without
without_nil x d = d

pub without-Distinct : (x : Objid) (qs : List Objid) → Distinct qs → Distinct (without x qs)
without-Distinct x [] d = without_nil x d
without-Distinct x (q ∷ qs) (nq, d) = elim (Bool-cases (q ==ℤ x)) [
  | inl same ↦ rw (without_here x q qs same) (without-Distinct x qs d)
  | inr other ↦
      rw (without_there x q qs other)
        ((rw (mem-without x q qs, nq) (ground arith), without-Distinct x qs d))
]

length-without :
    (x : Objid) (qs : List Objid) → Distinct qs → length qs ≤ suc (length (without x qs))
length-without x [] d = omega arith
length-without x (q ∷ qs) (nq, d) = elim (Bool-cases (q ==ℤ x)) [
  | inl same ↦
      let qx : q ≡ x = (==ℤ_iff q x).0 same in
      rw (without_here x q qs same, without_absent x qs (rw qx at nq)) (omega arith)
  | inr other ↦ rw (without_there x q qs other) (let ih = length-without x qs d in omega arith)
]

-- An index of a table of `n` entries.
unfoldable pub below : ℕ → Objid → Bool
below n (negsuc k) = false
below n (pos k) = ltb k n

pub find_below :
    (db : Db) (q : Objid) (o : Object) → find_object db q ≡ some o → below db.num_objects q ≡ true
unfolding find_object below
find_below db (negsuc k) o e = cc
find_below db (pos k) o e = ground arith

below-pred : (n : ℕ) (q : Objid) → (pos n ==ℤ q) ≡ false → below (suc n) q ≡ true → below n q ≡ true
unfolding below
below-pred n (negsuc k) ne b = cc
below-pred n (pos k) ne b = ground arith

below-zero : (q : Objid) → below 0 q ≡ false
unfolding below
below-zero (negsuc k) = refl
below-zero (pos k) = ground arith

mem_here : (q : Objid) (qs : List Objid) → mem q (q ∷ qs) ≡ true
unfolding mem
mem_here q qs = rw (==ℤ-refl q)

pub both : (a b : Bool) → (not a && b) ≡ true → (a ≡ false) × (b ≡ true)
both false b e = (refl, e)
both true b e = cc

pub pigeonhole :
    (n : ℕ) (qs : List Objid)
    → Distinct qs
    → ((q : Objid) → mem q qs ≡ true → below n q ≡ true)
    → length qs ≤ n
pigeonhole zero [] d b = omega arith
pigeonhole zero (q ∷ qs) d b = absurd (clash (b q (mem_here q qs)) (below-zero q))
pigeonhole (suc n) qs d b =
    let fewer = pigeonhole n (without (pos n) qs) (without-Distinct (pos n) qs d) (λ q m.
      (let h = both (pos n ==ℤ q) (mem q qs) (sym (mem-without (pos n) q qs) ∙ m) in
        below-pred n q h.0 (b q h.1))) in
    let h = length-without (pos n) qs d in omega arith

pub Chain-valid :
    (l : Links) (db : Db) (start : Objid) (qs : List Objid) (q : Objid)
    → Chain l db start qs
    → mem q qs ≡ true
    → (o : Object) × (find_object db q ≡ some o)
unfolding mem
Chain-valid l db start [] q c m = cc
Chain-valid l db start (r ∷ qs) q (e, (x, found, rest)) m = elim (Bool-cases (q ==ℤ r)) [
  | inl same ↦ (x, rw ((==ℤ_iff q r).0 same) found)
  | inr other ↦ Chain-valid l db (l.next x) qs q rest (rw other at m)
]

-- So the loops of LL_REMOVE, LL_APPEND and of the counts end within the size of the table.
pub Chain-short :
    (l : Links) (db : Db) (start : Objid) (qs : List Objid)
    → Chain l db start qs
    → Distinct qs
    → length qs ≤ db.num_objects
Chain-short l db start qs c d =
    pigeonhole db.num_objects qs d
      (λ q m. let (o, e) = Chain-valid l db start qs q c m in find_below db q o e)
