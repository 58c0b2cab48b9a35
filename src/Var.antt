-- ===== src/Var.antt =====
-- structures.h and the value routines of utils.c: MOO values, their truth and their equality.
-- A list is the array behind `v.list` without its length cell; a waif is known by its address; a
-- float is the pattern of a double, whose comparisons are the machine's and so a parameter.
pub mod Equality
mod Tests
use wp_lambdamoo.Prelude.{
  ℕ, zero, suc, ◌+◌, ◌-◌, ◌*◌, ◌/◌, ◌%◌, ◌^◌, ◌≤◌, ◌<◌, ◌≡◌, refl, sym, ap, ◌∙◌, ◌≢◌, ◌↔◌, ◌⊎◌, inl,
  inr, Bool, true, false, not, ◌&&◌, ◌||◌, Option, none, some, List, [], ◌∷◌, ◌++◌, map,
  append_assoc, append-nil, arith, ltb, leb, ◌==◌, if◌then◌else◌, ltb→lt, lt→ltb, leb→le, ==_iff,
  ==-refl, Bool-cases, Option-cases, every, every_at, length, get_elem?, set, take, drop,
  length-append, length-take, length-drop, take-append-drop, drop-append, take-append, All, ℤ, pos,
  negsuc, pos_part, neg_part, sub_ℕ, ◌+ℤ◌, ◌-ℤ◌, ◌*ℤ◌, ◌≤ℤ◌, leb_ℤ, ltb_ℤ, ◌==ℤ◌, ==ℤ_iff, ==ℤ-refl,
  drop-nil, take-nil, pred_pos, pred_negsuc, suc-ne-zero, take_all, drop_all, succ_pos, sub_pos,
}
use wp_lambdamoo.Strings.{strcmp_eq, strcasecmp_eq}

abbrev pub Num : Type 0
Num = ℤ

abbrev pub Objid : Type 0
Objid = ℤ

abbrev pub system_object : Objid
system_object = pos 0

abbrev pub nothing : Objid
nothing = negsuc 0

abbrev pub ambiguous : Objid
ambiguous = negsuc 1

abbrev pub failed_match : Objid
failed_match = negsuc 2

-- enum error
pub data Err : Type 0 where
  e_none e_type e_div e_perm e_propnf e_verbnf e_varnf e_invind e_recmove e_maxrec e_range e_args :
      Err
  e_nacc e_invarg e_quota e_float : Err

pub Err-discrete : Discrete Err
Err-discrete = hlevel

-- `enum error` as the int that C compares.
abbrev pub err_code : Err → ℕ
err_code e_none = 0
err_code e_type = 1
err_code e_div = 2
err_code e_perm = 3
err_code e_propnf = 4
err_code e_verbnf = 5
err_code e_varnf = 6
err_code e_invind = 7
err_code e_recmove = 8
err_code e_maxrec = 9
err_code e_range = 10
err_code e_args = 11
err_code e_nacc = 12
err_code e_invarg = 13
err_code e_quota = 14
err_code e_float = 15

mutual
  -- struct Var, by its type tag
  pub data Var : Type 0 where
    int : Num → Var
    obj : Objid → Var
    str : List ℕ → Var
    err : Err → Var
    list : Vars → Var
    clear : Var
    none_type : Var
    catch : Num → Var
    finally : Num → Var
    float : ℕ → Var
    waif : ℕ → Var

  pub data Vars : Type 0 where
    nil : Vars
    cons : Var → Vars → Vars

abbrev pub to_list : Vars → List Var
to_list nil = []
to_list (cons v vs) = v ∷ to_list vs

abbrev pub from_list : List Var → Vars
from_list [] = nil
from_list (v ∷ vs) = cons v (from_list vs)

pub from_list-to_list : (vs : Vars) → from_list (to_list vs) ≡ vs
from_list-to_list nil = refl
from_list-to_list (cons v vs) = ap (cons v) (from_list-to_list vs)

pub to_list-from_list : (vs : List Var) → to_list (from_list vs) ≡ vs
to_list-from_list [] = refl
to_list-from_list (v ∷ vs) = ap (λ r. v ∷ r) (to_list-from_list vs)

-- The type tags.
pub data VarType : Type 0 where
  type_int type_obj type_str type_err type_list type_clear type_none type_catch : VarType
  type_finally type_float type_waif : VarType

abbrev pub type_of : Var → VarType
type_of (int _) = type_int
type_of (obj _) = type_obj
type_of (str _) = type_str
type_of (err _) = type_err
type_of (list _) = type_list
type_of clear = type_clear
type_of none_type = type_none
type_of (catch _) = type_catch
type_of (finally _) = type_finally
type_of (float _) = type_float
type_of (waif _) = type_waif

-- What the machine does with doubles.
pub record Doubles : Type 0 where
  pub feq : ℕ → ℕ → Bool
  pub fzero : ℕ

-- `none` is a panic of the server.
abbrev pub and_then : Option Bool → Option Bool → Option Bool
and_then none q = none
and_then (some false) q = some false
and_then (some true) q = q

-- The cases of `equality` on a right operand of the left one's type; 0 on any other type.
abbrev pub same_num : Num → Var → Bool
same_num a (int b) = a ==ℤ b
same_num a _ = false

abbrev pub same_obj : Objid → Var → Bool
same_obj a (obj b) = a ==ℤ b
same_obj a _ = false

abbrev pub same_err : Err → Var → Bool
same_err a (err b) = err_code a == err_code b
same_err a _ = false

abbrev pub same_str : List ℕ → Var → Bool → Bool
same_str a (str b) case_matters = if case_matters then strcmp_eq a b else strcasecmp_eq a b
same_str a _ case_matters = false

abbrev pub same_waif : ℕ → Var → Bool
same_waif a (waif b) = a == b
same_waif a _ = false

-- A tag that `equality` panics on, if both operands have it.
abbrev pub unknown : VarType → VarType → Option Bool
unknown type_clear type_clear = none
unknown type_none type_none = none
unknown type_catch type_catch = none
unknown type_finally type_finally = none
unknown _ _ = some false

module _ (fl : Doubles) where
  unfoldable pub is_true : Var → Bool
  is_true (int n) = not (n ==ℤ pos 0)
  is_true (float f) = not (fl.feq f fl.fzero)
  is_true (str []) = false
  is_true (str (c ∷ s)) = true
  is_true (list nil) = false
  is_true (list (cons v vs)) = true
  is_true _ = false

  -- do_equals: at least one of the two is a float.
  unfoldable pub do_equals : Var → Var → Bool
  do_equals (float a) (float b) = fl.feq a b
  do_equals _ _ = false

  -- equality; a list is compared with another of its length, element by element, up to the first
  -- difference. The test for one list at one address only saves time, unless a NaN is in it.
  unfoldable mutual
    pub equality : Var → Var → Bool → Option Bool
    equality (float a) r case_matters = some (do_equals (float a) r)
    equality (int a) r case_matters = some (same_num a r)
    equality (obj a) r case_matters = some (same_obj a r)
    equality (err a) r case_matters = some (same_err a r)
    equality (str a) r case_matters = some (same_str a r case_matters)
    equality (list a) (list b) case_matters =
        let rest = equal_lists a b case_matters in
        if length (to_list a) == length (to_list b) then rest else some false
    equality (list a) _ case_matters = some false
    equality (waif a) r case_matters = some (same_waif a r)
    equality clear r case_matters = unknown type_clear (type_of r)
    equality none_type r case_matters = unknown type_none (type_of r)
    equality (catch a) r case_matters = unknown type_catch (type_of r)
    equality (finally a) r case_matters = unknown type_finally (type_of r)

    pub equal_lists : Vars → Vars → Bool → Option Bool
    equal_lists nil bs case_matters = some true
    equal_lists (cons a as') nil case_matters = some true
    equal_lists (cons a as') (cons b bs) case_matters =
        and_then (equality a b case_matters) (equal_lists as' bs case_matters)
