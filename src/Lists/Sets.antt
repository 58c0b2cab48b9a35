-- ===== src/Lists/Sets.antt =====
-- ismember, setadd and setremove of list.c: lists as sets.
use wp_lambdamoo.Prelude.{
  ℕ, zero, suc, ◌+◌, ◌<◌, ◌≡◌, refl, ap, ◌∙◌, ◌⊎◌, inl, inr, Bool, true, false, Option, some, List,
  [], ◌∷◌, ◌++◌, append-nil, arith, length, take, drop, take-append, All, suc-ne-zero,
}
use wp_lambdamoo.Var.{Var, Doubles, equality}
use wp_lambdamoo.Var.Equality.{IsUser, IsPlain, equality_total, equality_refl}
use wp_lambdamoo.Lists.{ismember_loop, ismember, setadd, setremove}
use wp_lambdamoo.Lists.Copy.{◌>>=◌}
use wp_lambdamoo.Lists.Segments.{listappend_end, listdelete_segments}

some_apart : {o : Option Bool} → o ≡ some true → o ≡ some false → ⊥
some_apart p q = cc

module _ (fl : Doubles) (v : Var) (c : Bool) where
  -- `v` is equal to no element of the list.
  abbrev pub IsAbsent : List Var → Type 0
  IsAbsent = All (λ x. equality fl v x c ≡ some false)

  -- `k` is the place of the first element that `v` is equal to.
  abbrev pub IsFirst : List Var → ℕ → Type 0
  IsFirst [] k = ⊥
  IsFirst (x ∷ xs) zero = equality fl v x c ≡ some true
  IsFirst (x ∷ xs) (suc k) = (equality fl v x c ≡ some false) × IsFirst xs k

  -- The two ways in which the search can end.
  pub data Search (xs : List Var) (i : ℕ) : Type 0 where
    absent : IsAbsent xs → ismember_loop fl v xs c i ≡ some 0 → Search xs i
    found :
        (k : ℕ)
        → k < length xs
        → IsFirst xs k
        → ismember_loop fl v xs c i ≡ some (i + k)
        → Search xs i

  extend :
      (x : Var) (xs : List Var) (i : ℕ)
      → equality fl v x c ≡ some false
      → Search xs (i + 1)
      → Search (x ∷ xs) i
  unfolding ismember_loop
  extend x xs i e (absent a s) = absent (e, a) (rw e s)
  extend x xs i e (found k h f s) =
      let shift : i + 1 + k ≡ i + suc k = omega arith in
      found (suc k) (omega arith) (e, f) (rw e (s ∙ ap some shift))

  decide :
      (x : Var) (xs : List Var) (i : ℕ)
      → (r : Bool) × (equality fl v x c ≡ some r)
      → Search xs (i + 1)
      → Search (x ∷ xs) i
  unfolding ismember_loop
  decide x xs i (true, e) rest =
      let start : i ≡ i + 0 = omega arith in found 0 (omega arith) e (rw e (ap some start))
  decide x xs i (false, e) rest = extend x xs i e rest

  pub Search-ends : (xs : List Var) (i : ℕ) → IsUser v → Search xs i
  unfolding ismember_loop
  Search-ends [] i h = absent tt refl
  Search-ends (x ∷ xs) i h = decide x xs i (equality_total fl v x c h) (Search-ends xs (i + 1) h)

  -- ismember gives 0 exactly if no element is equal, and the 1-based place of the first one otherwise.
  pub ismember-IsFirst :
      (xs : List Var)
      → IsUser v
      → (IsAbsent xs × (ismember fl v xs c ≡ some 0))
        ⊎ ((k : ℕ) × (k < length xs) × IsFirst xs k × (ismember fl v xs c ≡ some (suc k)))
  unfolding ismember
  ismember-IsFirst xs h = go (Search-ends xs 1 h)
    where
      go :
          Search xs 1
          → (IsAbsent xs × (ismember fl v xs c ≡ some 0))
            ⊎ ((k : ℕ) × (k < length xs) × IsFirst xs k × (ismember fl v xs c ≡ some (suc k)))
      go (absent a s) = inl (a, s)
      go (found k l f s) = let e : 1 + k ≡ suc k = omega arith in inr (k, l, f, s ∙ ap some e)

module _ (fl : Doubles) where
  -- setadd puts a value that no element is equal to at the end, and leaves any other list alone.
  pub setadd_cases :
      (unshared : Bool) (list : List Var) (v : Var)
      → IsUser v
      → (IsAbsent fl v false list × (setadd fl unshared list v ≡ some (list ++ v ∷ [])))
        ⊎ ((k : ℕ) × IsFirst fl v false list k × (setadd fl unshared list v ≡ some list))
  unfolding setadd
  setadd_cases unshared list v h = elim (ismember-IsFirst fl v false list h) [
    | inl (a, e) ↦ inl (a, rw e (listappend_end unshared list v))
    | inr (k, l, f, e) ↦ inr (k, f, rw (e, suc-ne-zero k))
  ]

  -- setremove takes out the first equal element and no other, and leaves a list without one alone.
  pub setremove_cases :
      (list : List Var) (v : Var)
      → IsUser v
      → (IsAbsent fl v false list × (setremove fl list v ≡ some list))
        ⊎ ((k : ℕ) × IsFirst fl v false list k
            × (setremove fl list v ≡ some (take k list ++ drop (suc k) list)))
  unfolding setremove
  setremove_cases list v h = elim (ismember-IsFirst fl v false list h) [
    | inl (a, e) ↦ inl (a, rw e)
    | inr (k, l, f, e) ↦ inr (k, f, rw (e, suc-ne-zero k) (listdelete_segments list k l))
  ]

  IsFirst-behind :
      (xs : List Var) (v : Var)
      → IsPlain fl v
      → IsAbsent fl v false xs
      → IsFirst fl v false (xs ++ v ∷ []) (length xs)
  IsFirst-behind [] v p a = equality_refl fl v false p
  IsFirst-behind (x ∷ xs) v p a = (a.0, IsFirst-behind xs v p a.1)

  first_unique :
      (xs : List Var) (v : Var) (k j : ℕ)
      → IsFirst fl v false xs k
      → IsFirst fl v false xs j
      → k ≡ j
  first_unique [] v k j f g = absurd f
  first_unique (x ∷ xs) v zero zero f g = refl
  first_unique (x ∷ xs) v zero (suc j) f g = absurd (some_apart f g.0)
  first_unique (x ∷ xs) v (suc k) zero f g = absurd (some_apart g f.0)
  first_unique (x ∷ xs) v (suc k) (suc j) f g = ap suc (first_unique xs v k j f.1 g.1)

  absent_first :
      (xs : List Var) (v : Var) (k : ℕ) → IsAbsent fl v false xs → IsFirst fl v false xs k → ⊥
  absent_first [] v k a f = f
  absent_first (x ∷ xs) v zero a f = some_apart f a.0
  absent_first (x ∷ xs) v (suc k) a f = absent_first xs v k a.1 f.1

  drop_behind : (xs : List Var) (v : Var) → drop (suc (length xs)) (xs ++ v ∷ []) ≡ []
  drop_behind [] v = refl
  drop_behind (x ∷ xs) v = drop_behind xs v

  -- setremove undoes a setadd of a value of MOO code that equals itself and no element of the list.
  pub setremove-setadd :
      (unshared : Bool) (list : List Var) (v : Var)
      → IsUser v
      → IsPlain fl v
      → IsAbsent fl v false list
      → (setadd fl unshared list v >>= λ r. setremove fl r v) ≡ some list
  setremove-setadd unshared list v u p a =
      added (setadd_cases unshared list v u) ∙ removed (setremove_cases (list ++ v ∷ []) v u)
    where
      added :
          ((IsAbsent fl v false list × (setadd fl unshared list v ≡ some (list ++ v ∷ [])))
            ⊎ ((k : ℕ) × IsFirst fl v false list k × (setadd fl unshared list v ≡ some list)))
          → (setadd fl unshared list v >>= λ r. setremove fl r v) ≡ setremove fl (list ++ v ∷ []) v
      added (inl (_, e)) = rw e
      added (inr (k, f, _)) = absurd (absent_first list v k a f)

      removed :
          ((IsAbsent fl v false (list ++ v ∷ [])
              × (setremove fl (list ++ v ∷ []) v ≡ some (list ++ v ∷ [])))
            ⊎ ((k : ℕ) × IsFirst fl v false (list ++ v ∷ []) k
                × (setremove fl (list ++ v ∷ []) v
                    ≡ some (take k (list ++ v ∷ []) ++ drop (suc k) (list ++ v ∷ [])))))
          → setremove fl (list ++ v ∷ []) v ≡ some list
      removed (inl (b, _)) =
          absurd (absent_first (list ++ v ∷ []) v _ b (IsFirst-behind list v p a))
      removed (inr (k, f, e)) =
          let at : k ≡ length list =
            first_unique (list ++ v ∷ []) v k (length list) f (IsFirst-behind list v p a) in
          rw (e, at, take-append list (v ∷ []), drop_behind list v, append-nil)
