-- ===== src/Strings/Parts.antt =====
-- utils.c: strsub, as the parts of the source between the strings that it replaces.
use wp_lambdamoo.Prelude.{
  ℕ, zero, suc, ◌≤◌, ◌<◌, ◌≡◌, refl, sym, ap, ◌∙◌, ◌≢◌, inl, inr, true, false, List, [], ◌∷◌, ◌++◌,
  arith, ◌==◌, ==_iff, ==-refl, Bool-cases, length, drop, length-drop, pos, ◌-ℤ◌, ◌==ℤ◌, clash,
}
use wp_lambdamoo.Db.Outcomes.{Outcome, ok}
use wp_lambdamoo.Strings.Search.{strncmp, is_at, strsub, strsub_loop}
use wp_lambdamoo.Strings.Fold.{IsText}

-- Where strncmp finds a text, it stands.
strncmp-prefix :
    (s what : List ℕ)
    → IsText what
    → (strncmp s what (length what) ==ℤ pos 0) ≡ true
    → (length what ≤ length s) × (what ++ drop (length what) s ≡ s)
unfolding strncmp ◌-ℤ◌
strncmp-prefix s [] t e = (omega arith, refl)
strncmp-prefix [] (w ∷ what) t e = absurd (ground arith)
strncmp-prefix (a ∷ s) (w ∷ what) t e = elim (Bool-cases (a == w)) [
  | inr other ↦ absurd (ground arith)
  | inl same ↦
      let aw = (==_iff a w).0 same in
      let next : (strncmp s what (length what) ==ℤ pos 0) ≡ true = ground arith in
      let (fits, rest) = strncmp-prefix s what t.1 next in (omega arith, rw (aw, rest))
]

strncmp-append :
    (what rest : List ℕ)
    → IsText what
    → (strncmp (what ++ rest) what (length what) ==ℤ pos 0) ≡ true
unfolding strncmp ◌-ℤ◌
strncmp-append [] rest t = refl
strncmp-append (w ∷ what) rest t =
    let ne : (w == 0) ≡ false = ground arith in rw (==-refl w, ne) (strncmp-append what rest t.1)

-- The parts `p` and `ps`, with `sep` between each two of them.
abbrev pub join_with : List ℕ → List ℕ → List (List ℕ) → List ℕ
join_with sep p [] = p
join_with sep p (q ∷ ps) = p ++ (sep ++ join_with sep q ps)

-- `what` begins nowhere inside a part: neither in it nor across its end.
abbrev pub IsLeftmost : List ℕ → List ℕ → List (List ℕ) → Type 0
IsLeftmost what p [] = (i : ℕ) (rest : List ℕ) → i < length p → drop i p ≢ what ++ rest
IsLeftmost what p (q ∷ ps) =
    ((i : ℕ) (rest : List ℕ) → i < length p → drop i (join_with what p (q ∷ ps)) ≢ what ++ rest)
    × IsLeftmost what q ps

join_with_cons :
    (sep : List ℕ) (c : ℕ) (p : List ℕ) (ps : List (List ℕ))
    → join_with sep (c ∷ p) ps ≡ c ∷ join_with sep p ps
join_with_cons sep c p [] = refl
join_with_cons sep c p (q ∷ ps) = refl

IsLeftmost-cons :
    (what : List ℕ) (c : ℕ) (p : List ℕ) (ps : List (List ℕ))
    → ((rest : List ℕ) → c ∷ join_with what p ps ≢ what ++ rest)
    → IsLeftmost what p ps
    → IsLeftmost what (c ∷ p) ps
IsLeftmost-cons what c p [] here later = nowhere
  where
    nowhere : (i : ℕ) (rest : List ℕ) → i < suc (length p) → drop i (c ∷ p) ≢ what ++ rest
    nowhere zero rest h = here rest
    nowhere (suc i) rest h = later i rest (omega arith)
IsLeftmost-cons what c p (q ∷ ps) here (later, more) = (nowhere, more)
  where
    nowhere :
        (i : ℕ) (rest : List ℕ)
        → i < suc (length p)
        → drop i (c ∷ join_with what p (q ∷ ps)) ≢ what ++ rest
    nowhere zero rest h = here rest
    nowhere (suc i) rest h = later i rest (omega arith)

-- The source as parts, and the result with the same parts.
abbrev pub Parted : List ℕ → List ℕ → List ℕ → Outcome (List ℕ) → Type 0
Parted source what with result =
    (p : List ℕ) × (ps : List (List ℕ)) × (source ≡ join_with what p ps)
    × IsLeftmost what p ps
    × (result ≡ ok (join_with with p ps))

strsub_loop_parts :
    (fuel w : ℕ) (what with s : List ℕ)
    → length s < fuel
    → IsText (w ∷ what)
    → Parted s (w ∷ what) with (strsub_loop fuel true (w ∷ what) with s)
unfolding strsub_loop
strsub_loop_parts zero w what with s h t = elim h [ ]
strsub_loop_parts (suc fuel) w what with [] h t =
    ([], [], refl, λ i rest k. absurd (omega arith), refl)
strsub_loop_parts (suc fuel) w what with (c ∷ s) h t =
    elim (Bool-cases (is_at true (w ∷ what) (c ∷ s))) [
      | inr other ↦
          let (p, ps, e, left, r) = strsub_loop_parts fuel w what with s (omega arith) t in
          let not_here : (rest : List ℕ) → c ∷ join_with (w ∷ what) p ps ≢ (w ∷ what) ++ rest =
            λ rest q.
              clash
                (ap (λ z. is_at true (w ∷ what) z) (ap (λ z. c ∷ z) e ∙ q)
                  ∙ strncmp-append (w ∷ what) rest t)
                other in
          (
            c ∷ p,
            ps,
            ap (λ z. c ∷ z) e ∙ sym (join_with_cons (w ∷ what) c p ps),
            IsLeftmost-cons (w ∷ what) c p ps not_here left,
            rw (other, r) (ap ok (sym (join_with_cons with c p ps))),
          )
      | inl here ↦
          let (fits, same) = strncmp-prefix (c ∷ s) (w ∷ what) t here in
          let shorter : length (drop (length what) s) < fuel =
            omega (arith, length-drop (length what) s) in
          let (p, ps, e, left, r) =
            strsub_loop_parts fuel w what with (drop (length what) s) shorter t in
          (
            [],
            p ∷ ps,
            sym same ∙ ap (λ z. (w ∷ what) ++ z) e,
            (λ i rest k. absurd (omega arith), left),
            rw (here, r),
          )
    ]

-- Where the case counts strsub ends for every text but the empty one to replace: the source falls into
-- parts with that text between them, which begins nowhere inside a part, neither in it nor across
-- its end, and the result has the other text between the same parts.
pub strsub_parts :
    (source what with : List ℕ)
    → IsText what
    → what ≢ []
    → Parted source what with (strsub source what with true)
unfolding strsub
strsub_parts source [] with t ne = absurd (ne refl)
strsub_parts source (w ∷ what) with t ne =
    strsub_loop_parts (suc (length source)) w what with source (omega arith) t
