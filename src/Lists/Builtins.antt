-- ===== src/Lists/Builtins.antt =====
-- list.c: the builtin functions on lists. The server checks the number and the types of the arguments
-- by the registration before it calls one, so `none` is a call that it never makes, or a fault. The
-- argument list holds a reference to its elements: no list that a function rebuilds is unshared.
pub mod Ranges
pub mod Search
use wp_lambdamoo.Strings.Strtol.{to_unsigned}
use wp_lambdamoo.Prelude.{
  ℕ, zero, suc, ◌+◌, ◌-◌, ◌*◌, ◌/◌, ◌%◌, ◌^◌, ◌≤◌, ◌<◌, ◌≡◌, refl, sym, ap, ◌∙◌, ◌≢◌, ◌↔◌, ◌⊎◌, inl,
  inr, Bool, true, false, not, ◌&&◌, ◌||◌, Option, none, some, List, [], ◌∷◌, ◌++◌, map,
  append_assoc, append-nil, arith, ltb, leb, ◌==◌, if◌then◌else◌, ltb→lt, lt→ltb, leb→le, ==_iff,
  ==-refl, Bool-cases, Option-cases, every, every_at, length, get_elem?, set, take, drop,
  length-append, length-take, length-drop, take-append-drop, drop-append, take-append, All, ℤ, pos,
  negsuc, pos_part, neg_part, sub_ℕ, ◌+ℤ◌, ◌-ℤ◌, ◌*ℤ◌, ◌≤ℤ◌, leb_ℤ, ltb_ℤ, ◌==ℤ◌, ==ℤ_iff, ==ℤ-refl,
  drop-nil, take-nil, pred_pos, pred_negsuc, suc-ne-zero, take_all, drop_all, succ_pos, sub_pos,
  drop-drop, or-eq-false, ==ℤ-sym, or_right, clash,
}
use wp_lambdamoo.Utf.{strlen_utf}
use wp_lambdamoo.Var.{
  Var, int, str, list, Err, e_type, e_range, Doubles, equality, to_list, from_list,
}
use wp_lambdamoo.Lists.{listinsert, listappend, listdelete, listset, setadd, setremove, ismember}

-- make_error_pack and make_var_pack
pub data Package : Type 0 where
  error_pack : Err → Package
  var_pack : Var → Package

abbrev pub pack_list : Option (List Var) → Option Package
pack_list none = none
pack_list (some r) = some (var_pack (list (from_list r)))

abbrev pub pack_num : Option ℕ → Option Package
pack_num none = none
pack_num (some n) = some (var_pack (int (pos n)))

abbrev pub pack_bool : Option Bool → Option Package
pack_bool none = none
pack_bool (some b) = some (var_pack (int (if b then pos 1 else pos 0)))

unfoldable pub bf_length : List Var → Option Package
bf_length (list a ∷ []) = some (var_pack (int (pos (length (to_list a)))))
bf_length (str s ∷ []) = some (var_pack (int (pos (strlen_utf s))))
bf_length (_ ∷ []) = some (error_pack e_type)
bf_length _ = none

-- The position that listinsert takes is an int of 32 bits.
abbrev pub as_int : ℤ → ℤ
as_int n = let u = to_unsigned n in if ltb u (2 ^ 31) then pos u else negsuc (2 ^ 32 - 1 - u)

unfoldable pub bf_listappend : List Var → Option Package
bf_listappend (list a ∷ v ∷ []) = pack_list (listappend false (to_list a) v)
bf_listappend (list a ∷ v ∷ int n ∷ []) =
    pack_list (listinsert false (to_list a) v (as_int (n +ℤ pos 1)))
bf_listappend _ = none

unfoldable pub bf_listinsert : List Var → Option Package
bf_listinsert (list a ∷ v ∷ []) = pack_list (listinsert false (to_list a) v (pos 1))
bf_listinsert (list a ∷ v ∷ int n ∷ []) = pack_list (listinsert false (to_list a) v (as_int n))
bf_listinsert _ = none

-- The guard of `bf_listdelete` and `bf_listset`.
abbrev pub out_of_range : ℤ → List Var → Bool
out_of_range n a = leb_ℤ n (pos 0) || ltb_ℤ (pos (length a)) n

unfoldable pub bf_listdelete : List Var → Option Package
bf_listdelete (list a ∷ int n ∷ []) =
    if out_of_range n (to_list a)
    then some (error_pack e_range)
    else pack_list (listdelete (to_list a) (pos_part n))
bf_listdelete _ = none

unfoldable pub bf_listset : List Var → Option Package
bf_listset (list a ∷ v ∷ int n ∷ []) =
    if out_of_range n (to_list a)
    then some (error_pack e_range)
    else pack_list (listset (to_list a) v (pos_part n))
bf_listset _ = none

module _ (fl : Doubles) where
  unfoldable pub bf_setadd : List Var → Option Package
  bf_setadd (list a ∷ v ∷ []) = pack_list (setadd fl false (to_list a) v)
  bf_setadd _ = none

  unfoldable pub bf_setremove : List Var → Option Package
  bf_setremove (list a ∷ v ∷ []) = pack_list (setremove fl (to_list a) v)
  bf_setremove _ = none

  unfoldable pub bf_equal : List Var → Option Package
  bf_equal (a ∷ b ∷ []) = pack_bool (equality fl a b true)
  bf_equal _ = none

  unfoldable pub bf_is_member : List Var → Option Package
  bf_is_member (v ∷ list a ∷ []) = pack_num (ismember fl v (to_list a) true)
  bf_is_member _ = none
