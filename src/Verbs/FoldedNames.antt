-- ===== src/Verbs/FoldedNames.antt =====
-- Names that are equal up to case find the same verbs.
use wp_lambdamoo.Prelude.{
  ℕ, zero, suc, ◌≡◌, refl, inl, inr, Bool, true, false, not, ◌||◌, List, [], ◌∷◌, arith, ◌==◌,
  Bool-cases, length, drop,
}
use wp_lambdamoo.Utf.{deref}
use wp_lambdamoo.Strings.{
  cmap, Star, no_star, Progress, skip_stars, match_name, at_end, accepts, skip_name, skip_spaces,
  verbcasecmp_loop, verbcasecmp,
}
use wp_lambdamoo.Strings.Fold.{fold}
use wp_lambdamoo.Db.{Verbdef, Object}
use wp_lambdamoo.Verbs.{find_verbdef_by_name}
use wp_lambdamoo.Verbs.Cache.{callable_on}

-- No verb's names are the string that is looked up.
abbrev pub elsewhere : Verbdef → Bool
elsewhere v = false

-- What `accepts` and the next round see of the progress.
abbrev Alike : Progress → Progress → Type 0
Alike p q = (p.v ≡ q.v) × (p.star ≡ q.star) × ((deref p.w == 0) ≡ (deref q.w == 0))

same_end : (c d : ℕ) → cmap c ≡ cmap d → (c == 0) ≡ (d == 0)
same_end c d e = ground arith

match_name-Alike :
    (v a b : List ℕ) (star : Star)
    → fold a ≡ fold b
    → Alike (match_name v a star) (match_name v b star)
unfolding match_name
match_name-Alike v [] [] star e = (refl, refl, refl)
match_name-Alike v [] (d ∷ b) star e = cc
match_name-Alike v (c ∷ a) [] star e = cc
match_name-Alike v (c ∷ a) (d ∷ b) star e =
    let v' = (skip_stars v star).0 in
    let heads : cmap c ≡ cmap d = cc in
    let ends = same_end c d heads in
    let ih = match_name-Alike (drop 1 v') a b (skip_stars v star).1 (cc) in
    rw (ends, heads)
      (elim (Bool-cases (at_end v' || (d == 0) || not (cmap d == cmap (deref v')))) [
        | inl t ↦ rw t (refl, refl, ends)
        | inr t ↦ rw t ih
      ])

Alike-accepts : (p q : Progress) → Alike p q → accepts p ≡ accepts q
Alike-accepts p q (ev, es, ew) = rw (ev, es, ew)

verbcasecmp_loop-fold :
    (fuel : ℕ) (v a b : List ℕ)
    → fold a ≡ fold b
    → verbcasecmp_loop fuel v a ≡ verbcasecmp_loop fuel v b
unfolding verbcasecmp_loop
verbcasecmp_loop-fold zero v a b e = refl
verbcasecmp_loop-fold (suc fuel) v a b e =
    let alike = match_name-Alike v a b no_star e in
    rw (
      Alike-accepts (match_name v a no_star) (match_name v b no_star) alike,
      alike.0,
      verbcasecmp_loop-fold fuel (skip_spaces (skip_name (match_name v b no_star).v)) a b e,
    )

verbcasecmp-fold :
    (v a b : List ℕ) → fold a ≡ fold b → verbcasecmp false v a ≡ verbcasecmp false v b
unfolding verbcasecmp
verbcasecmp-fold v a b e = verbcasecmp_loop-fold (length v) v a b e

find_verbdef_by_name-fold :
    (vs : List Verbdef) (a b : List ℕ) (x : Bool)
    → fold a ≡ fold b
    → find_verbdef_by_name elsewhere vs a x ≡ find_verbdef_by_name elsewhere vs b x
unfolding find_verbdef_by_name
find_verbdef_by_name-fold [] a b x e = refl
find_verbdef_by_name-fold (v ∷ vs) a b x e =
    rw (verbcasecmp-fold v.name a b e, find_verbdef_by_name-fold vs a b x e)

pub callable_on-fold :
    (a b : List ℕ) (o : Object)
    → fold a ≡ fold b
    → callable_on elsewhere a o ≡ callable_on elsewhere b o
callable_on-fold a b o e = rw (find_verbdef_by_name-fold o.verbdefs a b true e)
