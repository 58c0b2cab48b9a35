-- ===== src/Verbs/Phrases.antt =====
-- db_verbs.c: what is known of a prepositional phrase that was found, and of the table.
use wp_lambdamoo.Verbs.Lines.{or_first}
use wp_lambdamoo.Strings.{mystrcasecmp, skip_spaces}
use wp_lambdamoo.Command.{scan_word, parse_into_words}
use wp_lambdamoo.Verbs.Prepositions.{
  db_find_prep, find_preposition, find_from, find_alias, db_match_prep, alias_matches, Phrase,
  npreps, dbpriv_build_prep_table, db_unparse_prep,
}
use mathlib.Core.Bool.{and-eq-true_iff}
use wp_lambdamoo.Prelude.{
  some_injective, leb→le, ◌==◌, inr, Bool-cases, ◌||◌, ◌⊎◌, if◌then◌else◌, inl, not, ℕ, zero, suc,
  ◌+◌, ◌-◌, ◌≤◌, ◌<◌, ◌≡◌, refl, sym, ap, ◌∙◌, Bool, true, false, ◌&&◌, Option, none, some, List,
  [], ◌∷◌, arith, ltb, leb, every, every_at, length, get_elem?, drop, pos, ◌-ℤ◌, ◌==ℤ◌, ==ℤ_iff,
}

round_trip_at : ℕ → Bool
round_trip_at j = elim (db_unparse_prep (pos j)) [
  | none ↦ false
  | some s ↦ db_match_prep s ==ℤ pos j
]

round_trips : every round_trip_at npreps ≡ true
unfolding every round_trip_at db_unparse_prep db_match_prep parse_into_words skip_spaces scan_word
    mystrcasecmp ◌-ℤ◌
round_trips = refl

-- db_match_prep reads every preposition back from what db_unparse_prep prints for it.
pub db_match_prep-db_unparse_prep :
    (j : ℕ)
    → j < npreps
    → (s : List ℕ) × (db_unparse_prep (pos j) ≡ some s) × (db_match_prep s ≡ pos j)
db_match_prep-db_unparse_prep j h =
    printed (db_unparse_prep (pos j)) refl (every_at round_trip_at npreps round_trips j h)
  where
    printed :
        (m : Option (List ℕ))
        → db_unparse_prep (pos j) ≡ m
        → round_trip_at j ≡ true
        → (s : List ℕ) × (db_unparse_prep (pos j) ≡ some s) × (db_match_prep s ≡ pos j)
    printed none e t = unfold round_trip_at in cc
    printed (some s) e t = (
      s,
      e,
      (==ℤ_iff (db_match_prep s) (pos j)).0 (
          sym (ap (λ m. elim m [ none ↦ false | some s ↦ db_match_prep s ==ℤ pos j ]) e)
          ∙ unfold round_trip_at in t),
    )

-- The buffers of dbpriv_build_prep_table: MAXPPHRASE words for an alias, 100 characters for its text.
abbrev fits_entry : List (List ℕ) → Bool
fits_entry alias = ltb 0 (length alias) && leb (length alias) 3

abbrev all_of {ℓ} : {A : Type ℓ} → (A → Bool) → List A → Bool
all_of test [] = true
all_of test (x ∷ xs) = test x && all_of test xs

table_fits : all_of (all_of fits_entry) dbpriv_build_prep_table ≡ true
unfolding dbpriv_build_prep_table parse_into_words skip_spaces scan_word
table_fits = refl

all_of-at {ℓ} :
    {A : Type ℓ} (test : A → Bool) (xs : List A) (j : ℕ) (x : A)
    → all_of test xs ≡ true
    → get_elem? xs j ≡ some x
    → test x ≡ true
all_of-at test [] j x t e = cc
all_of-at {A = A} test (y ∷ xs) zero x t e =
    let (h, rest) = (and-eq-true_iff _ _).0 t in
    let yx : y ≡ x = some_injective e in ap test (sym yx) ∙ h
all_of-at test (y ∷ xs) (suc j) x t e =
    let (h, rest) = (and-eq-true_iff _ _).0 t in all_of-at test xs j x rest e

-- Every alias of the table has one to three words, as many as its entry has room for.
pub prep_table_bounds :
    (j k : ℕ) (aliases : List (List (List ℕ))) (alias : List (List ℕ))
    → get_elem? dbpriv_build_prep_table j ≡ some aliases
    → get_elem? aliases k ≡ some alias
    → (0 < length alias) × (length alias ≤ 3)
prep_table_bounds j k aliases alias e d =
    let t =
      all_of-at fits_entry aliases k alias
        (all_of-at (all_of fits_entry) dbpriv_build_prep_table j aliases table_fits e) d in
    (ground arith, ground arith)

-- The phrase `p` is an alias of its preposition in the table, and stands in the words from `i` on.
abbrev pub IsPhrase : List (List (List (List ℕ))) → ℕ → List (List ℕ) → Phrase → Type 0
IsPhrase table i argv p =
    (aliases : List (List (List ℕ))) × (k : ℕ) × (alias : List (List ℕ)) × (get_elem? table p.prep
      ≡ some aliases)
    × (get_elem? aliases k ≡ some alias)
    × (alias_matches (drop (p.first - i) argv) alias ≡ true)
    × (i ≤ p.first)
    × (p.last ≡ p.first + length alias - 1)
    × (p.first + length alias ≤ i + length argv)

or_first_cases {ℓ} :
    {A : Type ℓ} (a b : Option A) (x : A) → or_first a b ≡ some x → (a ≡ some x) ⊎ (b ≡ some x)
or_first_cases none b x e = inr e
or_first_cases (some a) b x e = inl e

-- What a loop over aliases gives: an alias of the list, `k` places on, at the words.
abbrev IsAlias : List (List (List ℕ)) → ℕ → ℕ → List (List ℕ) → Phrase → Type 0
IsAlias aliases j i argv p =
    (k : ℕ) × (alias : List (List ℕ)) × (get_elem? aliases k ≡ some alias)
    × (alias_matches argv alias ≡ true)
    × (length alias ≤ length argv)
    × (p ≡ record { prep = j; first = i; last = i + length alias - 1 })

alias_test :
    (exact : Bool) (argv alias : List (List ℕ))
    → (leb (length alias) (length argv)
        && alias_matches argv alias
        && (not exact || (length alias == length argv)))
      ≡ true
    → (length alias ≤ length argv) × (alias_matches argv alias ≡ true)
alias_test exact argv alias t =
    let (lm, x) = (and-eq-true_iff _ _).0 t in
    let (l, m) = (and-eq-true_iff _ _).0 lm in (leb→le (length alias) (length argv) l, m)

find_alias_lem :
    (exact : Bool) (i : ℕ) (argv : List (List ℕ)) (j : ℕ) (aliases : List (List (List ℕ)))
    (p : Phrase)
    → find_alias exact i argv j aliases ≡ some p
    → IsAlias aliases j i argv p
unfolding find_alias
find_alias_lem exact i argv j [] p e = cc
find_alias_lem exact i argv j (alias ∷ aliases) p e =
    elim (Bool-cases (
      leb (length alias) (length argv)
      && alias_matches argv alias
      && (not exact || (length alias == length argv)))) [
        | inl t ↦
            let (short, m) = alias_test exact argv alias t in
            (0, alias, refl, m, short, some_injective (sym (rw t at e)))
        | inr t ↦
            let (k, a, at_k, m, short, is) = find_alias_lem exact i argv j aliases p (rw t at e) in
            (suc k, a, at_k, m, short, is)
      ]

find_preposition_lem :
    (exact : Bool) (i : ℕ) (argv : List (List ℕ)) (j : ℕ) (table : List (List (List (List ℕ))))
    (p : Phrase)
    → find_preposition exact i argv j table ≡ some p
    → (d : ℕ) × (aliases : List (List (List ℕ))) × (get_elem? table d ≡ some aliases)
      × IsAlias aliases (j + d) i argv p
unfolding find_preposition
find_preposition_lem exact i argv j [] p e = cc
find_preposition_lem exact i argv j (aliases ∷ table) p e =
    elim (or_first_cases (find_alias exact i argv j aliases)
      (find_preposition exact i argv (suc j) table) p e) [
        | inl here ↦
            let same : j ≡ j + 0 = omega arith in
            (0, aliases, refl, rw⁻¹ same (find_alias_lem exact i argv j aliases p here))
        | inr there ↦
            let (d, entries, at_d, is) = find_preposition_lem exact i argv (suc j) table p there in
            let same : suc j + d ≡ j + suc d = omega arith in
            (suc d, entries, at_d, rw (sym same) is)
      ]

zero_add : (n : ℕ) → 0 + n ≡ n
zero_add n = omega arith

find_from_lem :
    (exact : Bool) (table : List (List (List (List ℕ)))) (i : ℕ) (argv : List (List ℕ)) (p : Phrase)
    → find_from exact table i argv ≡ some p
    → IsPhrase table i argv p
unfolding find_from
find_from_lem exact table i [] p e = cc
find_from_lem exact table i (w ∷ argv) p e =
    elim (or_first_cases (find_preposition exact i (w ∷ argv) 0 table)
      (if exact then none else find_from exact table (suc i) argv) p e) [
        | inl here ↦
            let (d, entries, at_d, (k, a, at_k, m, short, is)) =
              find_preposition_lem exact i (w ∷ argv) 0 table p here in
            let nowhere : i - i ≡ 0 = omega arith in
            let is_d : p ≡ record { prep = d; first = i; last = i + length a - 1 } =
              is ∙ ap (λ n. record { prep = n; first = i; last = i + length a - 1 }) (zero_add d) in
            coe 0 1 (x. IsPhrase table i (w ∷ argv) (sym is_d x))
              (entries, k, a, at_d, at_k, rw nowhere m, omega arith, refl, omega arith)
        | inr there ↦ later exact (find_from_lem exact table (suc i) argv p) there
      ]
  where
    later :
        (b : Bool)
        → (find_from exact table (suc i) argv ≡ some p → IsPhrase table (suc i) argv p)
        → (if b then none else find_from exact table (suc i) argv) ≡ some p
        → IsPhrase table i (w ∷ argv) p
    later true ih q = cc
    later false ih q =
        let (entries, k, a, at_d, at_k, m, after, ends, short) = ih q in
        let one_more : p.first - i ≡ suc (p.first - suc i) = omega arith in
        (entries, k, a, at_d, at_k, rw one_more m, omega arith, ends, omega arith)

-- What db_find_prep finds lies within the words, from a first to a last that is not in front of it,
-- and these words are, up to case, an alias that the table has for the preposition.
pub db_find_prep_phrase :
    (exact : Bool) (argv : List (List ℕ)) (p : Phrase)
    → db_find_prep exact argv ≡ some p
    → (p.first ≤ p.last) × (p.last < length argv) × IsPhrase dbpriv_build_prep_table 0 argv p
unfolding db_find_prep
db_find_prep_phrase exact argv p e =
    let (entries, k, a, at_d, at_k, m, after, ends, short) =
      find_from_lem exact dbpriv_build_prep_table 0 argv p e in
    let (some_word, few) = prep_table_bounds p.prep k entries a at_d at_k in
    (omega arith, omega arith, (entries, k, a, at_d, at_k, m, after, ends, short))
