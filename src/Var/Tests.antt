-- ===== src/Var/Tests.antt =====
-- Values to try the equality of MOO values on.
use wp_lambdamoo.Prelude.{
  ℕ, zero, suc, ◌+◌, ◌-◌, ◌*◌, ◌/◌, ◌%◌, ◌^◌, ◌≤◌, ◌<◌, ◌≡◌, refl, sym, ap, ◌∙◌, ◌≢◌, ◌↔◌, ◌⊎◌, inl,
  inr, Bool, true, false, not, ◌&&◌, ◌||◌, Option, none, some, List, [], ◌∷◌, ◌++◌, map,
  append_assoc, append-nil, arith, ltb, leb, ◌==◌, if◌then◌else◌, ltb→lt, lt→ltb, leb→le, ==_iff,
  ==-refl, Bool-cases, Option-cases, every, every_at, length, get_elem?, set, take, drop,
  length-append, length-take, length-drop, take-append-drop, drop-append, take-append, All, ℤ, pos,
  negsuc, pos_part, neg_part, sub_ℕ, ◌+ℤ◌, ◌-ℤ◌, ◌*ℤ◌, ◌≤ℤ◌, leb_ℤ, ltb_ℤ, ◌==ℤ◌, ==ℤ_iff, ==ℤ-refl,
  drop-nil, take-nil, pred_pos, pred_negsuc, suc-ne-zero, take_all, drop_all, succ_pos, sub_pos,
  drop-drop, or-eq-false, ==ℤ-sym, or_right, clash,
}
use wp_lambdamoo.Var.{Var, int, obj, str, list, cons, nil, Doubles, equality}

-- Doubles whose pattern decides, but for the two zeros and one NaN.
abbrev few_doubles : Doubles
few_doubles = record { feq = λ a b. (a == b) && not (a == 0x7ff8000000000000); fzero = 0 }

-- {1, {"ab", #2}}
abbrev nested : Var
nested =
    list (
      cons (int (pos 1)) (cons (list (cons (str (0x61 ∷ 0x62 ∷ [])) (cons (obj (pos 2)) nil))) nil))

-- {1, {"AB", #2}}
abbrev shouted : Var
shouted =
    list (
      cons (int (pos 1)) (cons (list (cons (str (0x41 ∷ 0x42 ∷ [])) (cons (obj (pos 2)) nil))) nil))

without_case : equality few_doubles nested shouted false ≡ some true
unfolding equality wp_lambdamoo.Strings.mystrcasecmp
without_case = refl

with_case : equality few_doubles nested shouted true ≡ some false
unfolding equality wp_lambdamoo.Strings.strcmp wp_lambdamoo.Prelude.◌-ℤ◌
with_case = refl
