-- ===== src/Strings/Tests.antt =====
-- Runs of the string routines, and the theorems at concrete strings.
use wp_lambdamoo.Prelude.{ℕ, ◌≡◌, refl, ◌↔◌, true, false, ◌&&◌, List, [], ◌∷◌, ◌++◌, arith}
use wp_lambdamoo.Strings.{strcasecmp_eq, verbcasecmp, mystrcasecmp}
use wp_lambdamoo.Strings.Fold.{fold, strcasecmp_eq_iff}
use wp_lambdamoo.Strings.VerbNames.{fold_prefix, verbcasecmp_starred}

-- "look", "LooK" and "loo"
abbrev look : List ℕ
look = 0x6c ∷ 0x6f ∷ 0x6f ∷ 0x6b ∷ []

abbrev look_shouted : List ℕ
look_shouted = 0x4c ∷ 0x6f ∷ 0x6f ∷ 0x4b ∷ []

abbrev loo : List ℕ
loo = 0x6c ∷ 0x6f ∷ 0x6f ∷ []

-- "l*ook g*et"
abbrev two_names : List ℕ
two_names = 0x6c ∷ b'*' ∷ 0x6f ∷ 0x6f ∷ 0x6b ∷ 0x20 ∷ 0x67 ∷ b'*' ∷ 0x65 ∷ 0x74 ∷ []

second_name : verbcasecmp false two_names (0x47 ∷ 0x45 ∷ []) ≡ true
unfolding verbcasecmp
second_name = refl

not_so_far : verbcasecmp false two_names (0x6c ∷ 0x6f ∷ 0x6b ∷ []) ≡ false
unfolding verbcasecmp
not_so_far = refl

same_look : strcasecmp_eq look look_shouted ≡ true
unfolding mystrcasecmp
same_look = refl

strcasecmp_eq_iff_example :
    (strcasecmp_eq look look_shouted ≡ true) ↔ (fold look ≡ fold look_shouted)
strcasecmp_eq_iff_example = strcasecmp_eq_iff look look_shouted (omega arith) (omega arith)

verbcasecmp_starred_example :
    verbcasecmp false (0x6c ∷ [] ++ b'*' ∷ 0x6f ∷ 0x6f ∷ 0x6b ∷ []) loo
    ≡ fold_prefix (0x6c ∷ []) loo && fold_prefix loo (0x6c ∷ [] ++ 0x6f ∷ 0x6f ∷ 0x6b ∷ [])
verbcasecmp_starred_example =
    verbcasecmp_starred 0x6c 0x6f [] (0x6f ∷ 0x6b ∷ []) loo (omega arith) (omega arith)
      (omega arith)
