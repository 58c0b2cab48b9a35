-- ===== src/Lists/Builtins/Ranges.antt =====
-- What the builtin functions on lists answer at every index.
use wp_lambdamoo.Prelude.{
  ℕ, zero, suc, ◌<◌, ◌≡◌, refl, ◌⊎◌, inl, inr, true, false, some, List, [], ◌∷◌, ◌++◌, arith, ltb,
  Bool-cases, length, set, take, drop, ℤ, pos, negsuc, ◌≤ℤ◌,
}
use wp_lambdamoo.Var.{Var, Vars, int, list, e_range, to_list, from_list}
use wp_lambdamoo.Lists.{listset}
use wp_lambdamoo.Lists.Segments.{listdelete_segments}
use wp_lambdamoo.Lists.Builtins.{error_pack, var_pack, out_of_range, bf_listdelete, bf_listset}

-- An index is in front of the list or behind it, or it names an element.
abbrev pub IsOutside : ℤ → List Var → Type 0
IsOutside n a = (n ≤ℤ pos 0) ⊎ (pos (suc (length a)) ≤ℤ n)

index-cases :
    (n : ℤ) (a : List Var)
    → (IsOutside n a × (out_of_range n a ≡ true))
      ⊎ ((k : ℕ) × (n ≡ pos (suc k)) × (k < length a) × (out_of_range n a ≡ false))
index-cases (negsuc k) a = inl (inl (omega arith), ground arith)
index-cases (pos zero) a = inl (inl (omega arith), refl)
index-cases (pos (suc k)) a = elim (Bool-cases (ltb (length a) (suc k))) [
  | inl far ↦ inl (inr (ground arith), ground arith)
  | inr near ↦ inr (k, refl, ground arith, ground arith)
]

set_inside :
    (a : List Var) (v : Var) (k : ℕ) → k < length a → listset a v (suc k) ≡ some (set a k v)
unfolding listset
set_inside a v k lt = ground arith

-- listdelete() answers E_RANGE exactly outside the list, and takes out the element inside it; it
-- neither panics nor reads out of range.
pub bf_listdelete_cases :
    (a : Vars) (n : ℤ)
    → (IsOutside n (to_list a) × (bf_listdelete (list a ∷ int n ∷ []) ≡ some (error_pack e_range)))
      ⊎ ((k : ℕ) × (n ≡ pos (suc k))
          × (k < length (to_list a))
          × (bf_listdelete (list a ∷ int n ∷ [])
              ≡ some
                  (var_pack (list (from_list (take k (to_list a) ++ drop (suc k) (to_list a)))))))
unfolding bf_listdelete
bf_listdelete_cases a n = elim (index-cases n (to_list a)) [
  | inl (out, e) ↦ inl (out, rw e)
  | inr (k, e, lt, near) ↦ inr (k, e, lt, rw (near, e, listdelete_segments (to_list a) k lt))
]

-- listset() answers E_RANGE exactly outside the list, and replaces the element inside it.
pub bf_listset_cases :
    (a : Vars) (v : Var) (n : ℤ)
    → (IsOutside n (to_list a) × (bf_listset (list a ∷ v ∷ int n ∷ []) ≡ some (error_pack e_range)))
      ⊎ ((k : ℕ) × (n ≡ pos (suc k))
          × (k < length (to_list a))
          × (bf_listset (list a ∷ v ∷ int n ∷ [])
              ≡ some (var_pack (list (from_list (set (to_list a) k v))))))
unfolding bf_listset
bf_listset_cases a v n = elim (index-cases n (to_list a)) [
  | inl (out, e) ↦ inl (out, rw e)
  | inr (k, e, lt, near) ↦ inr (k, e, lt, rw (near, e, set_inside (to_list a) v k lt))
]
