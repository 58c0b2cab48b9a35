-- ===== src/Match/Contents.antt =====
-- match.c: match_contents finds the sole full match of its two lists, or the sole partial one.
use wp_lambdamoo.Db.Links.Chains.{Chain}
use wp_lambdamoo.Db.Attributes.{db_object_location, db_for_all_contents}
use wp_lambdamoo.Db.Links.{contents_links}
use wp_lambdamoo.Db.Links.Views.{AreLists}
use wp_lambdamoo.Db.Counts.{db_for_all_lem, visit}
use wp_lambdamoo.Db.{Object, find_object, valid, Db}
use wp_lambdamoo.Match.{
  match_contents, match_names, names_of, match_proc, match_answer, match_in, MatchData,
}
use wp_lambdamoo.Match.Verdict.{
  visit_lem, partials, exacts, by_names, Visited, filter, agree, fold_partial, last_exact,
}
use wp_lambdamoo.Match.Candidates.{is_partial, is_exact, data_of, join_partial, is_free, IsNumber}
use mathlib.Core.Bool.{and-eq-true_iff}
use wp_lambdamoo.Prelude.{
  ℕ, ◌≡◌, refl, sym, ap, ◌∙◌, inl, inr, Bool, true, false, ◌&&◌, ◌||◌, some, List, [], ◌∷◌, ◌++◌,
  if◌then◌else◌, Bool-cases, All, pos, negsuc, ◌==ℤ◌, ==ℤ_iff, or_right,
}
use wp_lambdamoo.Var.{Objid, nothing, ambiguous, failed_match}
use wp_lambdamoo.Db.Outcomes.{panic, fault, Outcome, ok, ◌>>=◌}

abbrev pub all_same : Objid → List Objid → Bool
all_same q [] = true
all_same q (x ∷ qs) = (q ==ℤ x) && all_same q qs

-- The object that the full matches, and if there is none the partial ones, are.
abbrev pub verdict : List Objid → List Objid → Objid
verdict [] [] = failed_match
verdict [] (p ∷ P) = if all_same p P then p else ambiguous
verdict (q ∷ E) P = if all_same q E then q else ambiguous

free_number : (n : ℕ) (x : Objid) → is_free (pos n) x ≡ (pos n ==ℤ x)
free_number n x = refl

agree_same : (q : Objid) (E : List Objid) → IsNumber q → All IsNumber E → agree q E ≡ all_same q E
agree_same q [] (n, e) is = refl
agree_same q (x ∷ E) (n, e) (m, is) = elim (Bool-cases (q ==ℤ x)) [
  | inl t ↦
      let qx = (==ℤ_iff q x).0 t in
      let free : is_free q x ≡ true = or_right (q ==ℤ nothing) (q ==ℤ x) t in
      rw (free, t) (agree_same x E m is ∙ ap (λ y. all_same y E) (sym qx))
  | inr t ↦ let here : (q ==ℤ nothing) ≡ false = rw e refl in rw (here, t)
]

last_same : (q : Objid) (E : List Objid) → all_same q E ≡ true → last_exact q E ≡ q
last_same q [] t = refl
last_same q (x ∷ E) t =
    let (h, rest) = (and-eq-true_iff _ _).0 t in
    let qx = (==ℤ_iff q x).0 h in last_same x E (ap (λ y. all_same y E) (sym qx) ∙ rest) ∙ sym qx

fold_ambiguous : (P : List Objid) → All IsNumber P → fold_partial ambiguous P ≡ ambiguous
fold_ambiguous [] is = refl
fold_ambiguous (x ∷ P) ((n, e), is) =
    ap (λ y. fold_partial (join_partial ambiguous y) P) e ∙ fold_ambiguous P is

fold_same :
    (p : Objid) (P : List Objid)
    → IsNumber p
    → All IsNumber P
    → fold_partial p P ≡ (if all_same p P then p else ambiguous)
fold_same p [] (n, e) is = refl
fold_same p (x ∷ P) (n, e) (m, is) = elim (Bool-cases (p ==ℤ x)) [
  | inl t ↦
      let px = (==ℤ_iff p x).0 t in
      let joined : ((p ==ℤ failed_match) || (p ==ℤ x)) ≡ true =
        or_right (p ==ℤ failed_match) (p ==ℤ x) t in
      rw (joined, t) (fold_same x P m is ∙ ap (λ y. if all_same y P then y else ambiguous) (sym px))
  | inr t ↦
      let here : (p ==ℤ failed_match) ≡ false = rw e refl in rw (here, t) (fold_ambiguous P is)
]

-- What match_contents makes of the enumeration of both lists.
abbrev pub read_off : Bool × MatchData → Objid
read_off r = if r.0 then ambiguous else match_answer r.1

verdict_lem :
    (string : List ℕ) (E P : List Objid) (r : Outcome (Bool × MatchData))
    → All IsNumber E
    → All IsNumber P
    → Visited string E P nothing failed_match r
    → (r >>= λ x. ok (read_off x)) ≡ ok (verdict E P)
verdict_lem string [] P r isE isP (inl (a, d, t)) = cc
verdict_lem string (q ∷ E) P r (n, isE) isP (inl (a, d, t)) =
    let other = sym (agree_same q E n isE) ∙ a in rw (t, other)
verdict_lem string [] [] r isE isP (inr (a, t)) = rw t
verdict_lem string [] (p ∷ P) r isE isP (inr (a, t)) = rw t (ap ok (fold_same p P isP.0 isP.1))
verdict_lem string (q ∷ E) P r ((n, e), isE) isP (inr (a, t)) =
    let one = sym (agree_same q E (n, e) isE) ∙ a in
    let here : (q ==ℤ nothing) ≡ false = rw e refl in rw (t, last_same q E one, here, one)

numbers_filter :
    (test : Objid → Bool) (qs : List Objid) → All IsNumber qs → All IsNumber (filter test qs)
numbers_filter test [] is = tt
numbers_filter test (q ∷ qs) (n, is) = elim (Bool-cases (test q)) [
  | inl t ↦ rw t (n, numbers_filter test qs is)
  | inr t ↦ rw t (numbers_filter test qs is)
]

abbrev onward :
    List Objid
    → (MatchData → Objid → Bool × MatchData)
    → Bool × MatchData
    → Outcome (Bool × MatchData)
onward qs g r = if r.0 then ok (true, r.1) else visit qs (λ d q. ok (g d q)) r.1

visit-append :
    (ps qs : List Objid) (g : MatchData → Objid → Bool × MatchData) (d : MatchData)
    → visit (ps ++ qs) (λ d q. ok (g d q)) d
      ≡ (visit ps (λ d q. ok (g d q)) d >>= λ r. onward qs g r)
unfolding visit
visit-append [] qs g d = refl
visit-append (p ∷ ps) qs g d = elim (Bool-cases (g d p).0) [
  | inl t ↦ rw t
  | inr t ↦ rw t (visit-append ps qs g (g d p).1)
]

module _ (db : Db) (view : Objid → List Objid) (names : Objid → List (List ℕ)) where
  -- The names of each valid object are read without a fault.
  abbrev pub Named : Type 0
  Named = (q : Objid) → valid db q ≡ true → names_of db q ≡ ok (names q)

  visit-names :
      (string : List ℕ) (qs : List Objid) (d : MatchData)
      → Named
      → All (λ q. valid db q ≡ true) qs
      → visit qs (match_proc db) d ≡ visit qs (by_names string names) d
  unfolding visit match_proc
  visit-names string [] d named v = refl
  visit-names string (q ∷ qs) d named (v, vs) =
      rw (named q v) (elim (Bool-cases (match_names q (names q) d).0) [
        | inl t ↦ rw t
        | inr t ↦ rw t (visit-names string qs (match_names q (names q) d).1 named vs)
      ])

  -- The contents of an object are valid.
  Chain-All :
      (start : Objid) (qs : List Objid)
      → Chain contents_links db start qs
      → All (λ q. valid db q ≡ true) qs
  Chain-All start [] c = tt
  Chain-All start (q ∷ qs) (e, (x, found, c)) = (unfold valid in rw found, Chain-All x.next qs c)

  view_valid : (p : Objid) → AreLists contents_links db view → All (λ q. valid db q ≡ true) (view p)
  view_valid p lists = elim (Bool-cases (valid db p)) [
    | inl v ↦ let (w, found, c) = lists.holds p v in Chain-All w.contents (view p) c
    | inr v ↦ rw (lists.empty p v) tt
  ]

  valid-IsNumber : (q : Objid) → valid db q ≡ true → IsNumber q
  unfolding valid find_object
  valid-IsNumber (pos n) v = (n, refl)
  valid-IsNumber (negsuc n) v = cc

  All-IsNumber : (qs : List Objid) → All (λ q. valid db q ≡ true) qs → All IsNumber qs
  All-IsNumber [] v = tt
  All-IsNumber (q ∷ qs) (v, vs) = (valid-IsNumber q v, All-IsNumber qs vs)

  contents_names :
      (string : List ℕ) (p : Objid) (d : MatchData)
      → AreLists contents_links db view
      → Named
      → valid db p ≡ true
      → db_for_all_contents (match_proc db) db p d ≡ visit (view p) (by_names string names) d
  unfolding db_for_all_contents
  contents_names string p d lists named v =
      db_for_all_lem contents_links (match_proc db) db view p d lists v
      ∙ visit-names string (view p) d named (view_valid p lists)

  match_in_lem :
      (string : List ℕ) (p : Objid) (d : MatchData)
      → AreLists contents_links db view
      → Named
      → match_in db p d ≡ visit (view p) (by_names string names) d
  unfolding match_in
  match_in_lem string p d lists named = elim (Bool-cases (valid db p)) [
    | inl v ↦ rw v (contents_names string p d lists named v)
    | inr v ↦ rw (v, lists.empty p v) (unfold visit in refl)
  ]

  both_valid :
      (ps qs : List Objid)
      → All (λ q. valid db q ≡ true) ps
      → All (λ q. valid db q ≡ true) qs
      → All (λ q. valid db q ≡ true) (ps ++ qs)
  both_valid [] qs vp vq = vq
  both_valid (p ∷ ps) qs (v, vp) vq = (v, both_valid ps qs vp vq)

  -- The second round goes on with what the first leaves.
  two_rounds :
      (string : List ℕ) (loc : Objid) (m : Outcome (Bool × MatchData))
      → AreLists contents_links db view
      → Named
      → (m >>= λ r₀.
          if r₀.0 then ok ambiguous else (match_in db loc r₀.1 >>= λ r₁. ok (read_off r₁)))
        ≡ ((m >>= λ r. onward (view loc) (λ d q. match_names q (names q) d) r) >>= λ x.
            ok (read_off x))
  two_rounds string loc panic lists named = refl
  two_rounds string loc fault lists named = refl
  two_rounds string loc (ok (true, d)) lists named = refl
  two_rounds string loc (ok (false, d)) lists named = rw (match_in_lem string loc d lists named)

  -- On well-formed lists of contents of objects whose names can be read, match_contents of a valid
  -- player ends: among the contents of the player and of its location, it finds the one object that
  -- has a name that the string is in full, up to case; if there is none, the one of which the string
  -- begins a name; #-2 where there are two of the kind, and #-3 where there is none of either.
  pub match_contents_lem :
      (player : Objid) (o : Object) (string : List ℕ)
      → AreLists contents_links db view
      → Named
      → find_object db player ≡ some o
      → match_contents db player string
        ≡ ok (
            verdict
              (exacts string names (view player ++ view o.location))
              (partials string names (view player ++ view o.location)))
  unfolding match_contents db_object_location
  match_contents_lem player o string lists named found =
      let ps = view player in
      let qs = view o.location in
      let d = data_of string nothing failed_match in
      let numbers =
        All-IsNumber (ps ++ qs)
          (both_valid ps qs (view_valid player lists) (view_valid o.location lists)) in
      let v : valid db player ≡ true = unfold valid in rw found in
      let g : MatchData → Objid → Bool × MatchData = λ d q. match_names q (names q) d in
      rw (v, found, contents_names string player d lists named v)
        (two_rounds string o.location (visit ps (by_names string names) d) lists named
          ∙ ap (λ m. m >>= λ x. ok (read_off x)) (sym (visit-append ps qs g d))
          ∙ verdict_lem string (exacts string names (ps ++ qs)) (partials string names (ps ++ qs))
              (visit (ps ++ qs) (by_names string names) d)
              (numbers_filter (λ q. is_exact string (names q)) (ps ++ qs) numbers)
              (numbers_filter (λ q. is_partial string (names q)) (ps ++ qs) numbers)
              (visit_lem string names (ps ++ qs) nothing failed_match numbers))
