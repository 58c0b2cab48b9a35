-- ===== src/Var/Equality.antt =====
-- When `equality` answers, and that it is reflexive.
use wp_lambdamoo.Prelude.{
  ℕ, ◌≡◌, refl, ap, inl, inr, Bool, true, false, ◌&&◌, some, List, [], ◌∷◌, ◌==◌, ==-refl,
  Bool-cases, length, pos, ◌-ℤ◌, ==ℤ-refl,
}
use wp_lambdamoo.Strings.{strcmp}
use wp_lambdamoo.Strings.Fold.{IsText, strcasecmp_eq_refl}
use wp_lambdamoo.Var.{
  Var, Vars, int, obj, str, err, list, clear, none_type, catch, finally, float, waif, nil, cons,
  to_list, Doubles, err_code, equality, do_equals, and_then, equal_lists,
}

-- Values that MOO code can hold: the tags of internal markers do not occur, at any depth.
abbrev mutual
  pub IsUser : Var → Type 0
  IsUser clear = ⊥
  IsUser none_type = ⊥
  IsUser (catch n) = ⊥
  IsUser (finally n) = ⊥
  IsUser (list vs) = AreUser vs
  IsUser _ = Unit

  pub AreUser : Vars → Type 0
  AreUser nil = Unit
  AreUser (cons v vs) = IsUser v × AreUser vs

strcmp_refl : (s : List ℕ) → strcmp s s ≡ pos 0
unfolding strcmp ◌-ℤ◌
strcmp_refl [] = refl
strcmp_refl (a ∷ s) = rw (==-refl a) (strcmp_refl s)

and_then-some : (r r' : Bool) → and_then (some r) (some r') ≡ some (r && r')
and_then-some true r' = refl
and_then-some false r' = refl

module _ (fl : Doubles) where
  -- Values of MOO code whose strings are C strings and whose floats equal themselves.
  abbrev mutual
    pub IsPlain : Var → Type 0
    IsPlain (str s) = IsText s
    IsPlain (float f) = fl.feq f f ≡ true
    IsPlain (list vs) = ArePlain vs
    IsPlain (int n) = Unit
    IsPlain (obj n) = Unit
    IsPlain (err e) = Unit
    IsPlain (waif w) = Unit
    IsPlain clear = ⊥
    IsPlain none_type = ⊥
    IsPlain (catch n) = ⊥
    IsPlain (finally n) = ⊥

    pub ArePlain : Vars → Type 0
    ArePlain nil = Unit
    ArePlain (cons v vs) = IsPlain v × ArePlain vs

  mutual
    unfolding equality

    answers : (a b : Var) (c : Bool) → IsUser a → (r : Bool) × (equality fl a b c ≡ some r)
    answers (int _) b c h = (_, refl)
    answers (obj _) b c h = (_, refl)
    answers (err _) b c h = (_, refl)
    answers (str _) b c h = (_, refl)
    answers (float _) b c h = (_, refl)
    answers (waif _) b c h = (_, refl)
    answers (list xs) (list ys) c h =
        let (r, e) = answer_lists xs ys c h in
        elim (Bool-cases (length (to_list xs) == length (to_list ys))) [
          | inl same ↦ (r, rw same e)
          | inr other ↦ (false, rw other)
        ]
    answers (list xs) _ c h = (false, refl)
    answers clear b c h = absurd h
    answers none_type b c h = absurd h
    answers (catch _) b c h = absurd h
    answers (finally _) b c h = absurd h

    answer_lists :
        (xs ys : Vars) (c : Bool) → AreUser xs → (r : Bool) × (equal_lists fl xs ys c ≡ some r)
    answer_lists nil ys c h = (true, refl)
    answer_lists (cons x xs) nil c h = (true, refl)
    answer_lists (cons x xs) (cons y ys) c h =
        let (r, e) = answers x y c h.0 in
        let (r', e') = answer_lists xs ys c h.1 in (r && r', rw (e, e') (and_then-some r r'))

  -- equality gives an answer, and no panic, whenever its left operand is a value of MOO code.
  pub equality_total : (a b : Var) (c : Bool) → IsUser a → (r : Bool) × (equality fl a b c ≡ some r)
  equality_total = answers

  mutual
    unfolding equality do_equals

    reflexive : (a : Var) (c : Bool) → IsPlain a → equality fl a a c ≡ some true
    reflexive (int n) c h = ap some (==ℤ-refl n)
    reflexive (obj n) c h = ap some (==ℤ-refl n)
    reflexive (err e) c h = ap some (==-refl (err_code e))
    reflexive (str s) true h = rw (strcmp_refl s)
    reflexive (str s) false h = ap some (strcasecmp_eq_refl s h)
    reflexive (float f) c h = ap some h
    reflexive (waif w) c h = ap some (==-refl w)
    reflexive (list xs) c h = rw (==-refl (length (to_list xs))) (reflexive_lists xs c h)
    reflexive clear c h = absurd h
    reflexive none_type c h = absurd h
    reflexive (catch _) c h = absurd h
    reflexive (finally _) c h = absurd h

    reflexive_lists : (xs : Vars) (c : Bool) → ArePlain xs → equal_lists fl xs xs c ≡ some true
    reflexive_lists nil c h = refl
    reflexive_lists (cons x xs) c h = rw (reflexive x c h.0) (reflexive_lists xs c h.1)

  -- equality holds between a value and itself, with and without case, unless a NaN is in it.
  pub equality_refl : (a : Var) (c : Bool) → IsPlain a → equality fl a a c ≡ some true
  equality_refl = reflexive
