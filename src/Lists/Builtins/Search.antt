-- ===== src/Lists/Builtins/Search.antt =====
-- list.c: the builtin functions that replace and search in strings, by their arguments.
use wp_lambdamoo.Prelude.{
  ℕ, zero, suc, ◌<◌, ◌≡◌, refl, ◌≢◌, ◌⊎◌, inl, inr, Bool, false, Option, none, some, List, [], ◌∷◌,
  ◌++◌, arith, ◌==◌, if◌then◌else◌, Bool-cases, length, drop, length-drop, ℤ, pos, suc-ne-zero,
}
use wp_lambdamoo.Db.Outcomes.{Outcome, ok}
use wp_lambdamoo.Lists.Builtins.{Package, error_pack, var_pack}
use wp_lambdamoo.Strings.Search.{strsub, strsub_loop, strindex, strrindex, is_at}
use wp_lambdamoo.Var.{Var, str, int, e_invarg, is_true, Doubles}

abbrev pub pack_string : Outcome (List ℕ) → Option Package
pack_string (ok s) = some (var_pack (str s))
pack_string _ = none

abbrev pub pack_index : Outcome ℕ → Option Package
pack_index (ok n) = some (var_pack (int (pos n)))
pack_index _ = none

abbrev pub pack_rindex : Outcome ℤ → Option Package
pack_rindex (ok n) = some (var_pack (int n))
pack_rindex _ = none

abbrev pub substitute : List ℕ → List ℕ → List ℕ → Bool → Option Package
substitute source what with case_matters =
    if length what == 0
    then some (error_pack e_invarg)
    else pack_string (strsub source what with case_matters)

module _ (fl : Doubles) where
  unfoldable pub bf_strsub : List Var → Option Package
  bf_strsub (str source ∷ str what ∷ str with ∷ []) = substitute source what with false
  bf_strsub (str source ∷ str what ∷ str with ∷ v ∷ []) = substitute source what with (is_true fl v)
  bf_strsub _ = none

  unfoldable pub bf_index : List Var → Option Package
  bf_index (str source ∷ str what ∷ []) = pack_index (strindex source what false)
  bf_index (str source ∷ str what ∷ v ∷ []) = pack_index (strindex source what (is_true fl v))
  bf_index _ = none

  unfoldable pub bf_rindex : List Var → Option Package
  bf_rindex (str source ∷ str what ∷ []) = pack_rindex (strrindex source what false)
  bf_rindex (str source ∷ str what ∷ v ∷ []) = pack_rindex (strrindex source what (is_true fl v))
  bf_rindex _ = none

strsub_loop_ends :
    (fuel w : ℕ) (case_counts : Bool) (what with s : List ℕ)
    → length s < fuel
    → (r : List ℕ) × (strsub_loop fuel case_counts (w ∷ what) with s ≡ ok r)
unfolding strsub_loop
strsub_loop_ends zero w case_counts what with s h = elim h [ ]
strsub_loop_ends (suc fuel) w case_counts what with [] h = ([], refl)
strsub_loop_ends (suc fuel) w case_counts what with (c ∷ s) h =
    elim (Bool-cases (is_at case_counts (w ∷ what) (c ∷ s))) [
      | inr other ↦
          let (r, e) = strsub_loop_ends fuel w case_counts what with s (omega arith) in
          (c ∷ r, rw (other, e))
      | inl here ↦
          let shorter : length (drop (length what) s) < fuel =
            omega (arith, length-drop (length what) s) in
          let (r, e) =
            strsub_loop_ends fuel w case_counts what with (drop (length what) s) shorter in
          (with ++ r, rw (here, e))
    ]

strsub_ends :
    (source what with : List ℕ) (w : ℕ) (case_counts : Bool)
    → (r : List ℕ) × (strsub source (w ∷ what) with case_counts ≡ ok r)
unfolding strsub
strsub_ends source what with w case_counts =
    strsub_loop_ends (suc (length source)) w case_counts what with source (omega arith)

-- What strsub() answers for three strings, and for a fourth argument.
abbrev pub Substituted : Doubles → List ℕ → List ℕ → List ℕ → List Var → Bool → Type 0
Substituted fl source what with args case_matters =
    ((what ≡ []) × (bf_strsub fl args ≡ some (error_pack e_invarg)))
    ⊎ ((what ≢ [])
        × (r : List ℕ) × (strsub source what with case_matters ≡ ok r)
        × (bf_strsub fl args ≡ some (var_pack (str r))))

answered :
    (source what with : List ℕ) (case_matters : Bool)
    → ((what ≡ []) × (substitute source what with case_matters ≡ some (error_pack e_invarg)))
      ⊎ ((what ≢ [])
          × (r : List ℕ) × (strsub source what with case_matters ≡ ok r)
          × (substitute source what with case_matters ≡ some (var_pack (str r))))
answered source [] with case_matters = inl (refl, refl)
answered source (w ∷ what) with case_matters =
    let (r, e) = strsub_ends source what with w case_matters in
    inr (λ q. cc, r, e, rw (suc-ne-zero (length what), e))

-- strsub() of strings ends: it answers E_INVARG where the string to replace is empty, and else the
-- string that strsub gives, without regard to case unless a fourth argument is true.
pub bf_strsub_cases :
    (fl : Doubles) (source what with : List ℕ)
    → Substituted fl source what with (str source ∷ str what ∷ str with ∷ []) false
      × ((v : Var)
          → Substituted fl source what with
              (str source ∷ str what ∷ str with ∷ v ∷ [])
              (is_true fl v))
unfolding bf_strsub
bf_strsub_cases fl source what with =
    (answered source what with false, λ v. answered source what with (is_true fl v))
