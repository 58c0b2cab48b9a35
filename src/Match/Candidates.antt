-- ===== src/Match/Candidates.antt =====
-- match.c: what the enumeration of the candidates finds, told from their names alone.
use wp_lambdamoo.Strings.{mystrncasecmp}
use wp_lambdamoo.Match.{with_partial, MatchData, match_names}
use wp_lambdamoo.Utf.{deref}
use wp_lambdamoo.Prelude.{
  ℕ, ◌≡◌, refl, ap, ◌∙◌, ◌⊎◌, inl, inr, Bool, true, false, not, ◌&&◌, ◌||◌, List, [], ◌∷◌, ◌==◌,
  if◌then◌else◌, Bool-cases, length, drop, pos, ◌==ℤ◌, ==ℤ-refl, or_right, clash,
}
use wp_lambdamoo.Var.{Objid, nothing, ambiguous, failed_match}

-- A name of an object that the string names in full, or begins.
abbrev pub begins : List ℕ → List ℕ → Bool
begins string name = mystrncasecmp name string (length string) ==ℤ pos 0

abbrev pub ends : List ℕ → List ℕ → Bool
ends string name = deref (drop (length string) name) == 0

abbrev pub any_name : (List ℕ → Bool) → List (List ℕ) → Bool
any_name test [] = false
any_name test (n ∷ names) = test n || any_name test names

abbrev pub is_exact : List ℕ → List (List ℕ) → Bool
is_exact string = any_name (λ n. begins string n && ends string n)

abbrev pub is_partial : List ℕ → List (List ℕ) → Bool
is_partial string = any_name (λ n. begins string n && not (ends string n))

abbrev pub data_of : List ℕ → Objid → Objid → MatchData
data_of string e p = record { lname = length string; name = string; exact = e; partial = p }

-- The partial match after an object that has one.
abbrev pub join_partial : Objid → Objid → Objid
join_partial p q = if (p ==ℤ failed_match) || (p ==ℤ q) then q else ambiguous

abbrev pub IsNumber : Objid → Type 0
IsNumber q = (n : ℕ) × (q ≡ pos n)

join_idem : (p q : Objid) → IsNumber q → join_partial (join_partial p q) q ≡ join_partial p q
join_idem p q (n, e) = rw e (elim (Bool-cases ((p ==ℤ failed_match) || (p ==ℤ pos n))) [
  | inl t ↦
      let here : ((pos n ==ℤ failed_match) || (pos n ==ℤ pos n)) ≡ true = ==ℤ-refl (pos n) in
      rw (t, here)
  | inr t ↦ rw t
])

abbrev after_partial : Bool → Objid → Objid → Objid
after_partial b p q = if b then join_partial p q else p

with_partial_data :
    (string : List ℕ) (q e p : Objid)
    → with_partial q (data_of string e p) ≡ data_of string e (join_partial p q)
with_partial_data string q e p = elim (Bool-cases ((p ==ℤ failed_match) || (p ==ℤ q))) [
  | inl t ↦ rw t
  | inr t ↦ rw t
]

abbrev pub is_free : Objid → Objid → Bool
is_free e q = (e ==ℤ nothing) || (e ==ℤ q)

-- The names of an object: a full match of a second object stops the enumeration.
abbrev pub Matched : Bool → Bool → List ℕ → Objid → Objid → Objid → Bool × MatchData → Type 0
Matched ex pa string q e p r =
    ((ex && not (is_free e q) ≡ true) × (r.0 ≡ true))
    ⊎ ((ex && not (is_free e q) ≡ false)
        × (r ≡ (false, data_of string (if ex then q else e) (after_partial pa p q))))

partly-Matched :
    (ex pa : Bool) (string : List ℕ) (q e p : Objid) (r : Bool × MatchData)
    → IsNumber q
    → Matched ex pa string q e (join_partial p q) r
    → Matched ex true string q e p r
partly-Matched ex pa string q e p r is (inl (s, t)) = inl (s, t)
partly-Matched ex true string q e p r is (inr (s, t)) =
    inr (s, t ∙ ap (λ j. (false, data_of string (if ex then q else e) j)) (join_idem p q is))
partly-Matched ex false string q e p r is (inr (s, t)) = inr (s, t)

exactly-Matched :
    (ex pa : Bool) (string : List ℕ) (q e p : Objid) (r : Bool × MatchData)
    → is_free e q ≡ true
    → Matched ex pa string q q p r
    → Matched true pa string q e p r
exactly-Matched ex pa string q e p r free (inl (s, t)) =
    absurd (clash s (rw (or_right (q ==ℤ nothing) (q ==ℤ q) (==ℤ-refl q)) (no_stop ex)))
  where
    no_stop : (b : Bool) → (b && false) ≡ false
    no_stop true = refl
    no_stop false = refl
exactly-Matched true pa string q e p r free (inr (s, t)) = inr (rw free, t)
exactly-Matched false pa string q e p r free (inr (s, t)) = inr (rw free, t)

pub match_names_lem :
    (string : List ℕ) (q : Objid) (names : List (List ℕ)) (e p : Objid)
    → IsNumber q
    → Matched
        (is_exact string names)
        (is_partial string names)
        string
        q
        e
        p
        (match_names q names (data_of string e p))
unfolding match_names
match_names_lem string q [] e p is = inr (refl, refl)
match_names_lem string q (name ∷ names) e p is = elim (Bool-cases (begins string name)) [
  | inr t ↦ rw t (match_names_lem string q names e p is)
  | inl t ↦ elim (Bool-cases (ends string name)) [
    | inr w ↦
        rw (t, w, with_partial_data string q e p)
          (partly-Matched (is_exact string names) (is_partial string names) string q e p
            (match_names q names (data_of string e (join_partial p q))) is
            (match_names_lem string q names e (join_partial p q) is))
    | inl w ↦ elim (Bool-cases (is_free e q)) [
      | inr other ↦ rw (t, w, other) (inl (refl, refl))
      | inl free ↦
          let found =
            exactly-Matched (is_exact string names) (is_partial string names) string q e p
              (match_names q names (data_of string q p)) free
              (match_names_lem string q names q p is) in
          rw (t, w, free) (rw free at found)
    ]
  ]
]
