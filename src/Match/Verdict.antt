-- ===== src/Match/Verdict.antt =====
-- match.c: the object that a string names among the contents of the player and of its location.
use wp_lambdamoo.Db.Counts.{visit}
use wp_lambdamoo.Match.Candidates.{
  match_names_lem, Matched, data_of, IsNumber, is_exact, is_free, join_partial, is_partial,
}
use wp_lambdamoo.Match.{match_names, MatchData}
use wp_lambdamoo.Prelude.{
  ℕ, ◌≡◌, refl, sym, ◌⊎◌, inl, inr, Bool, true, false, not, ◌&&◌, List, [], ◌∷◌, if◌then◌else◌, All,
}
use wp_lambdamoo.Var.{Objid}
use wp_lambdamoo.Db.Outcomes.{Outcome, ok}

abbrev pub filter : (Objid → Bool) → List Objid → List Objid
filter test [] = []
filter test (q ∷ qs) = if test q then q ∷ filter test qs else filter test qs

-- Whether no second object is among the full matches, after `e`.
abbrev pub agree : Objid → List Objid → Bool
agree e [] = true
agree e (q ∷ qs) = is_free e q && agree q qs

abbrev pub last_exact : Objid → List Objid → Objid
last_exact e [] = e
last_exact e (q ∷ qs) = last_exact q qs

abbrev pub fold_partial : Objid → List Objid → Objid
fold_partial p [] = p
fold_partial p (q ∷ qs) = fold_partial (join_partial p q) qs

-- What the enumeration leaves, by the full and the partial matches of its list.
abbrev pub Visited :
    List ℕ → List Objid → List Objid → Objid → Objid → Outcome (Bool × MatchData) → Type 0
Visited string E P e p r =
    ((agree e E ≡ false) × (d : MatchData) × (r ≡ ok (true, d)))
    ⊎ ((agree e E ≡ true) × (r ≡ ok (false, data_of string (last_exact e E) (fold_partial p P))))

not-false : (b : Bool) → not b ≡ false → b ≡ true
not-false true e = refl
not-false false e = cc

not-true : (b : Bool) → not b ≡ true → b ≡ false
not-true true e = cc
not-true false e = refl

-- A list with one object more in front, whose names match or not.
abbrev Extended :
    Bool
    → Bool
    → List ℕ
    → List Objid
    → List Objid
    → Objid
    → Objid
    → Objid
    → (MatchData → Outcome (Bool × MatchData))
    → Bool × MatchData
    → Type 0
Extended ex pa string E P q e p k r =
    Visited string (if ex then q ∷ E else E) (if pa then q ∷ P else P) e p
      (if r.0 then ok (true, r.1) else k r.1)

extend_exact :
    (string : List ℕ) (E P : List Objid) (q e p : Objid) (r : Outcome (Bool × MatchData))
    → is_free e q ≡ true
    → Visited string E P q p r
    → Visited string (q ∷ E) P e p r
extend_exact string E P q e p r free (inl (a, d, t)) = inl (rw free a, d, t)
extend_exact string E P q e p r free (inr (a, t)) = inr (rw free a, t)

extend :
    (ex pa : Bool) (string : List ℕ) (E P : List Objid) (q e p : Objid)
    (k : MatchData → Outcome (Bool × MatchData)) (r : Bool × MatchData)
    → ((e' p' : Objid) → Visited string E P e' p' (k (data_of string e' p')))
    → Matched ex pa string q e p r
    → Extended ex pa string E P q e p k r
extend true pa string E P q e p k r ih (inl (s, t)) = inl (rw (not-true (is_free e q) s), r.1, rw t)
extend false pa string E P q e p k r ih (inl (s, t)) = cc
extend true true string E P q e p k r ih (inr (s, t)) =
    coe 0 1 (i. Extended true true string E P q e p k (sym t i)) (
      extend_exact string E P q e (join_partial p q) (k (data_of string q (join_partial p q)))
        (not-false (is_free e q) s) (ih q (join_partial p q)))
extend true false string E P q e p k r ih (inr (s, t)) =
    coe 0 1 (i. Extended true false string E P q e p k (sym t i))
      (extend_exact string E P q e p (k (data_of string q p)) (not-false (is_free e q) s) (ih q p))
extend false true string E P q e p k r ih (inr (s, t)) =
    coe 0 1 (i. Extended false true string E P q e p k (sym t i)) (ih e (join_partial p q))
extend false false string E P q e p k r ih (inr (s, t)) =
    coe 0 1 (i. Extended false false string E P q e p k (sym t i)) (ih e p)

module _ (string : List ℕ) (names : Objid → List (List ℕ)) where
  -- The candidates with a full match, and those with a partial one.
  abbrev pub exacts : List Objid → List Objid
  exacts = filter (λ q. is_exact string (names q))

  abbrev pub partials : List Objid → List Objid
  partials = filter (λ q. is_partial string (names q))

  abbrev pub by_names : MatchData → Objid → Outcome (Bool × MatchData)
  by_names d q = ok (match_names q (names q) d)

  pub visit_lem :
      (qs : List Objid) (e p : Objid)
      → All IsNumber qs
      → Visited string (exacts qs) (partials qs) e p (visit qs by_names (data_of string e p))
  unfolding visit
  visit_lem [] e p is = inr (refl, refl)
  visit_lem (q ∷ qs) e p (n, is) =
      extend (is_exact string (names q)) (is_partial string (names q)) string (exacts qs)
        (partials qs) q e p (visit qs by_names) (match_names q (names q) (data_of string e p))
        (λ e' p'. visit_lem qs e' p' is) (match_names_lem string q (names q) e p n)
