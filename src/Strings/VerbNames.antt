-- ===== src/Strings/VerbNames.antt =====
-- What the names of a verb accept: `verbcasecmp` against prefixes.
use wp_lambdamoo.Prelude.{
  ℕ, zero, suc, ◌<◌, ◌≡◌, refl, ◌∙◌, ◌≢◌, inl, inr, Bool, true, false, not, ◌&&◌, ◌||◌, List, [],
  ◌∷◌, ◌++◌, arith, ◌==◌, if◌then◌else◌, Bool-cases, length, drop, All,
}
use wp_lambdamoo.Utf.{deref}
use wp_lambdamoo.Strings.{
  cmap, at_end, Star, no_star, inner, end, skip_stars, match_name, accepts, skip_name, skip_spaces,
  verbcasecmp_loop, verbcasecmp,
}
use wp_lambdamoo.Strings.Fold.{IsText}

-- A letter of a verb's name: no terminator, space or star.
abbrev pub IsLetter : ℕ → Type 0
IsLetter c = (0 < c) × (c ≢ b' ') × (c ≢ b'*')

-- Prefix and equality up to case.
unfoldable pub fold_prefix : List ℕ → List ℕ → Bool
fold_prefix [] t = true
fold_prefix (a ∷ s) [] = false
fold_prefix (a ∷ s) (b ∷ t) = (cmap a == cmap b) && fold_prefix s t

unfoldable pub fold_equal : List ℕ → List ℕ → Bool
fold_equal [] [] = true
fold_equal [] (b ∷ t) = false
fold_equal (a ∷ s) [] = false
fold_equal (a ∷ s) (b ∷ t) = (cmap a == cmap b) && fold_equal s t

-- One round of the inner loop on a letter and a byte of the word.
match_name_step :
    (c d : ℕ) (v w : List ℕ) (star : Star)
    → IsLetter c
    → 0 < d
    → match_name (c ∷ v) (d ∷ w) star ≡ (
        if cmap d == cmap c
        then match_name v w star
        else record { v = c ∷ v; w = d ∷ w; star = star })
unfolding match_name
match_name_step c d v w star hc hd = ground arith

-- Behind an inner star a prefix of the rest of the name is enough.
accepts_inner :
    (name w : List ℕ)
    → All IsLetter name
    → IsText w
    → accepts (match_name name w inner) ≡ fold_prefix w name
unfolding fold_prefix
accepts_inner [] [] hn hw = unfold match_name in refl
accepts_inner [] (d ∷ w) hn hw = unfold match_name in ground arith
accepts_inner (c ∷ name) [] hn hw = unfold match_name in ground arith
accepts_inner (c ∷ name) (d ∷ w) hn hw =
    rw (match_name_step c d name w inner hn.0 hw.0.0)
      (ground (arith, accepts_inner name w hn.1 hw.1))

-- Without a star the whole name is wanted.
accepts_plain :
    (name w : List ℕ)
    → All IsLetter name
    → IsText w
    → accepts (match_name name w no_star) ≡ fold_equal w name
unfolding fold_equal
accepts_plain [] [] hn hw = unfold match_name in refl
accepts_plain [] (d ∷ w) hn hw = unfold match_name in ground arith
accepts_plain (c ∷ name) [] hn hw = unfold match_name in ground arith
accepts_plain (c ∷ name) (d ∷ w) hn hw =
    rw (match_name_step c d name w no_star hn.0 hw.0.0)
      (ground (arith, accepts_plain name w hn.1 hw.1))

-- A star in the name is skipped with the byte behind it.
match_name_star :
    (c : ℕ) (post w : List ℕ)
    → IsLetter c
    → match_name (b'*' ∷ c ∷ post) w no_star ≡ match_name (c ∷ post) w inner
unfolding match_name
match_name_star c post [] hc = ground arith
match_name_star c post (d ∷ w) hc = ground arith

accepts_starred :
    (pre post w : List ℕ) (c : ℕ)
    → All IsLetter pre
    → All IsLetter (c ∷ post)
    → IsText w
    → accepts (match_name (pre ++ b'*' ∷ c ∷ post) w no_star)
      ≡ fold_prefix pre w && fold_prefix w (pre ++ c ∷ post)
unfolding fold_prefix
accepts_starred [] post w c hp hq hw =
    rw (match_name_star c post w hq.0) (accepts_inner (c ∷ post) w hq hw)
accepts_starred (a ∷ pre) post [] c hp hq hw = unfold match_name in ground arith
accepts_starred (a ∷ pre) post (d ∷ w) c hp hq hw =
    rw (match_name_step a d (pre ++ b'*' ∷ c ∷ post) w no_star hp.0 hw.0.0)
      (ground (arith, accepts_starred pre post w c hp.1 hq hw.1))

accepts_open :
    (pre w : List ℕ)
    → All IsLetter pre
    → IsText w
    → accepts (match_name (pre ++ b'*' ∷ []) w no_star) ≡ fold_prefix pre w
unfolding fold_prefix
accepts_open [] [] hp hw = unfold match_name in ground arith
accepts_open [] (d ∷ w) hp hw = unfold match_name in ground arith
accepts_open (a ∷ pre) [] hp hw = unfold match_name in ground arith
accepts_open (a ∷ pre) (d ∷ w) hp hw =
    rw (match_name_step a d (pre ++ b'*' ∷ []) w no_star hp.0 hw.0.0)
      (ground (arith, accepts_open pre w hp.1 hw.1))

-- A byte of a single name, the star included.
abbrev pub InName : ℕ → Type 0
InName c = (0 < c) × (c ≢ b' ')

-- What a round leaves of a single name has no space, so no further name is tried.
skip_stars-InName : (v : List ℕ) (star : Star) → All InName v → All InName (skip_stars v star).0
unfolding skip_stars
skip_stars-InName [] star h = tt
skip_stars-InName (c ∷ v) star h = elim (Bool-cases (c == b'*')) [
  | inl e ↦ rw e (skip_stars-InName v (if at_end v then end else inner) h.1)
  | inr e ↦ rw e h
]

drop_one : (v : List ℕ) → All InName v → All InName (drop 1 v)
drop_one [] h = tt
drop_one (c ∷ v) h = h.1

match_name-InName : (v w : List ℕ) (star : Star) → All InName v → All InName (match_name v w star).v
unfolding match_name
match_name-InName v [] star h = skip_stars-InName v star h
match_name-InName v (d ∷ w) star h =
    let v' = (skip_stars v star).0 in
    let star' = (skip_stars v star).1 in
    let h' : All InName v' = skip_stars-InName v star h in
    elim (Bool-cases (at_end v' || (d == 0) || not (cmap d == cmap (deref v')))) [
      | inl e ↦ rw e h'
      | inr e ↦ rw e (match_name-InName (drop 1 v') w star' (drop_one v' h'))
    ]

skip_name-InName : (v : List ℕ) → All InName v → skip_name v ≡ []
unfolding skip_name
skip_name-InName [] h = refl
skip_name-InName (c ∷ v) h = ground (arith, skip_name-InName v h.1)

loop-nil : (fuel : ℕ) (w : List ℕ) → verbcasecmp_loop fuel [] w ≡ false
unfolding verbcasecmp_loop
loop-nil zero w = refl
loop-nil (suc fuel) w = refl

single :
    (c : ℕ) (v w : List ℕ)
    → All InName (c ∷ v)
    → verbcasecmp false (c ∷ v) w ≡ accepts (match_name (c ∷ v) w no_star)
unfolding verbcasecmp verbcasecmp_loop
single c v w h =
    let rest : skip_name (match_name (c ∷ v) w no_star).v ≡ [] =
      skip_name-InName _ (match_name-InName (c ∷ v) w no_star h) in
    rw rest (unfold skip_spaces in rw (loop-nil (length v) w) (ground arith))

InName-letters : (v : List ℕ) → All IsLetter v → All InName v
InName-letters [] h = tt
InName-letters (c ∷ v) h = ((h.0.0, h.0.1), InName-letters v h.1)

InName-append : (v w : List ℕ) → All InName v → All InName w → All InName (v ++ w)
InName-append [] w hv hw = hw
InName-append (c ∷ v) w hv hw = (hv.0, InName-append v w hv.1 hw)

-- A verb with one plain name accepts that word alone, up to case, among the words at other addresses.
pub verbcasecmp_plain :
    (c : ℕ) (name w : List ℕ)
    → All IsLetter (c ∷ name)
    → IsText w
    → verbcasecmp false (c ∷ name) w ≡ fold_equal w (c ∷ name)
verbcasecmp_plain c name w h hw =
    single c name w (InName-letters (c ∷ name) h) ∙ accepts_plain (c ∷ name) w h hw

-- The name "pre*post" accepts, of the words at other addresses, exactly those that begin with `pre`
-- and that "prepost" begins with, up to case.
pub verbcasecmp_starred :
    (a c : ℕ) (pre post w : List ℕ)
    → All IsLetter (a ∷ pre)
    → All IsLetter (c ∷ post)
    → IsText w
    → verbcasecmp false (a ∷ pre ++ b'*' ∷ c ∷ post) w
      ≡ fold_prefix (a ∷ pre) w && fold_prefix w (a ∷ pre ++ c ∷ post)
verbcasecmp_starred a c pre post w hp hq hw =
    single a (pre ++ b'*' ∷ c ∷ post) w (
      InName-append (a ∷ pre) (b'*' ∷ c ∷ post) (InName-letters (a ∷ pre) hp)
        ((omega arith), InName-letters (c ∷ post) hq))
    ∙ accepts_starred (a ∷ pre) post w c hp hq hw

-- The name "pre*" accepts, of the words at other addresses, exactly those that begin with `pre`, up
-- to case.
pub verbcasecmp_open :
    (a : ℕ) (pre w : List ℕ)
    → All IsLetter (a ∷ pre)
    → IsText w
    → verbcasecmp false (a ∷ pre ++ b'*' ∷ []) w ≡ fold_prefix (a ∷ pre) w
verbcasecmp_open a pre w hp hw =
    single a (pre ++ b'*' ∷ []) w
      (InName-append (a ∷ pre) (b'*' ∷ []) (InName-letters (a ∷ pre) hp) ((omega arith), tt))
    ∙ accepts_open (a ∷ pre) w hp hw
