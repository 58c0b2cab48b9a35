-- ===== src/Verbs/Keys.antt =====
-- The key of the cache, the first ancestor with verbs, has the same callable verbs as the object.
use mathlib.Core.Path.{fun_ext}
use wp_lambdamoo.Prelude.{
  ℕ, ◌≡◌, refl, sym, ap, ◌∙◌, ◌⊎◌, inl, inr, Option, none, some, List, [], ◌∷◌,
}
use wp_lambdamoo.Var.{Objid, nothing}
use wp_lambdamoo.Db.{Verbdef, Object, Db, find_object}
use wp_lambdamoo.Db.Outcomes.{ok}
use wp_lambdamoo.Strings.Fold.{fold}
use wp_lambdamoo.Verbs.{find_verbdef_by_name, walk, rounds}
use wp_lambdamoo.Verbs.Cache.{with_verbs, key_of, callable_on, find_callable_uncached}
use wp_lambdamoo.Verbs.Lines.{Line, Lines, Numbered, first_in, walk-Line}
use wp_lambdamoo.Verbs.FoldedNames.{elsewhere, callable_on-fold}

-- An object number that the cache takes for a key.
abbrev pub IsKey : Db → Objid → Type 0
IsKey db k = (k ≡ nothing) ⊎ ((o : Object) × (find_object db k ≡ some o) × (with_verbs o ≡ some o))

with_verbs-cases :
    (o : Object)
    → ((with_verbs o ≡ none) × ((verb : List ℕ) → callable_on elsewhere verb o ≡ none))
      ⊎ (with_verbs o ≡ some o)
with_verbs-cases o = by_verbs o.verbdefs refl
  where
    by_verbs :
        (vs : List Verbdef)
        → o.verbdefs ≡ vs
        → ((with_verbs o ≡ none) × ((verb : List ℕ) → callable_on elsewhere verb o ≡ none))
          ⊎ (with_verbs o ≡ some o)
    by_verbs [] e = inl (rw e, λ verb. rw e (unfold find_verbdef_by_name in refl))
    by_verbs (v ∷ vs) e = inr (rw e)

-- Where the first loop of db_find_callable_verb stops, on the line `os`.
abbrev Stops : Db → List Object → Option Object → Type 0
Stops db os start =
    (first_in with_verbs os ≡ start)
    × IsKey db (key_of start)
    × (find_object db (key_of start) ≡ start)
    × ((verb : List ℕ)
        → (ps : List Object) × Line ps db start
          × (first_in (callable_on elsewhere verb) os ≡ first_in (callable_on elsewhere verb) ps))

Line-Stops :
    (os : List Object) (p : Objid) (db : Db)
    → Numbered db
    → Line os db (find_object db p)
    → (start : Option Object) × Stops db os start
Line-Stops [] p db n l =
    (none, (refl, inl refl, unfold find_object in refl, λ verb. ([], refl, refl)))
Line-Stops (x ∷ os) p db n (e, l) =
    let at_home = ap (find_object db) (n p x e) ∙ e in
    elim (with_verbs-cases x) [
      | inl c ↦
          let (start, (first, key, home, same)) = Line-Stops os x.parent db n l in
          (
            start,
            (
              rw c.0 first,
              key,
              home,
              λ verb. let (ps, l', s) = same verb in (ps, l', rw (c.1 verb) s),
            ),
          )
      | inr has ↦
          (some x, (rw has, inr (x, at_home, has), at_home, λ verb. (x ∷ os, (refl, l), refl)))
    ]

-- The lookup without the cache ends, with the first callable verb on the line.
pub uncached-Line :
    (os : List Object) (p : Objid) (db : Db) (verb : List ℕ)
    → Numbered db
    → Line os db (find_object db p)
    → find_callable_uncached elsewhere db p verb ≡ ok (first_in (callable_on elsewhere verb) os)
unfolding find_callable_uncached
uncached-Line os p db verb n l = walk-Line (callable_on elsewhere verb) os p db n l

-- A lookup goes to its key first, from where the rest of it is the lookup at the key.
pub lookup-IsKey :
    (db : Db) (p : Objid)
    → Numbered db
    → Lines db
    → (start : Option Object) × (walk (rounds db) db with_verbs (find_object db p) ≡ ok start)
      × IsKey db (key_of start)
      × (find_object db (key_of start) ≡ start)
      × ((verb : List ℕ)
          → find_callable_uncached elsewhere db p verb
            ≡ find_callable_uncached elsewhere db (key_of start) verb)
lookup-IsKey db p n lines =
    let (os, l) = lines p in
    let (start, (first, key, home, same)) = Line-Stops os p db n l in
    (
      start,
      walk-Line with_verbs os p db n l ∙ ap ok first,
      key,
      home,
      λ verb.
          let (ps, l', s) = same verb in
          let at_key : Line ps db (find_object db (key_of start)) = rw home l' in
          uncached-Line os p db verb n l
          ∙ ap ok s
          ∙ sym (uncached-Line ps (key_of start) db verb n at_key),
    )

-- Names equal up to case have one answer.
pub uncached-fold :
    (db : Db) (p : Objid) (a b : List ℕ)
    → fold a ≡ fold b
    → find_callable_uncached elsewhere db p a ≡ find_callable_uncached elsewhere db p b
unfolding find_callable_uncached
uncached-fold db p a b e =
    ap (λ f. walk (rounds db) db f (find_object db p)) (fun_ext (λ o. callable_on-fold a b o e))
