-- ===== src/Lists.antt =====
-- list.c: the operations on MOO lists. A list is copied cell by cell; a read outside it is a fault.
pub mod Copy
pub mod Segments
pub mod Sets
pub mod Text
pub mod Builtins
mod Tests
use wp_lambdamoo.Prelude.{
  ℕ, zero, suc, ◌+◌, ◌-◌, ◌*◌, ◌/◌, ◌%◌, ◌^◌, ◌≤◌, ◌<◌, ◌≡◌, refl, sym, ap, ◌∙◌, ◌≢◌, ◌↔◌, ◌⊎◌, inl,
  inr, Bool, true, false, not, ◌&&◌, ◌||◌, Option, none, some, List, [], ◌∷◌, ◌++◌, map,
  append_assoc, append-nil, arith, ltb, leb, ◌==◌, if◌then◌else◌, ltb→lt, lt→ltb, leb→le, ==_iff,
  ==-refl, Bool-cases, Option-cases, every, every_at, length, get_elem?, set, take, drop,
  length-append, length-take, length-drop, take-append-drop, drop-append, take-append, All, ℤ, pos,
  negsuc, pos_part, neg_part, sub_ℕ, ◌+ℤ◌, ◌-ℤ◌, ◌*ℤ◌, ◌≤ℤ◌, leb_ℤ, ltb_ℤ, ◌==ℤ◌, ==ℤ_iff, ==ℤ-refl,
  drop-nil, take-nil, pred_pos, pred_negsuc, suc-ne-zero,
}
use wp_lambdamoo.Var.{Var, Vars, Doubles, equality, to_list, from_list, Err, e_range}
use Copy.{◌>>=◌, copy, copy_from}

-- `none` is a fault: a read outside an array, or a panic.
module _ {ℓ} {A : Type ℓ} where
  -- doinsert. A list that nothing else refers to grows in place when the value goes to its end.
  unfoldable pub doinsert : Bool → List A → A → ℕ → Option (List A)
  doinsert unshared list value at =
      if unshared && (at == length list + 1) then some (list ++ value ∷ []) else (do
        left ← copy list 1 (at - 1)
        right ← copy list at (length list + 1 - at)
        some (left ++ value ∷ right))

  unfoldable pub listinsert : Bool → List A → A → ℤ → Option (List A)
  listinsert unshared list value at =
      if leb_ℤ at (pos 0)
      then doinsert unshared list value 1
      else if ltb_ℤ (pos (length list)) at
      then doinsert unshared list value (length list + 1)
      else doinsert unshared list value (pos_part at)

  unfoldable pub listappend : Bool → List A → A → Option (List A)
  listappend unshared list value = doinsert unshared list value (length list + 1)

  unfoldable pub listdelete : List A → ℕ → Option (List A)
  listdelete list at = do
    left ← copy list 1 (at - 1)
    right ← copy list (at + 1) (length list - at)
    some (left ++ right)

  unfoldable pub listset : List A → A → ℕ → Option (List A)
  listset list value at =
      if (at == 0) || ltb (length list) at then none else some (set list (at - 1) value)

  unfoldable pub listconcat : List A → List A → Option (List A)
  listconcat first second = do
    left ← copy first 1 (length first)
    right ← copy second 1 (length second)
    some (left ++ right)

  unfoldable pub listrangeset : List A → ℤ → ℤ → List A → Option (List A)
  listrangeset base from to value = do
    let lenleft = if ltb_ℤ (pos 1) from then pos_part from - 1 else 0
    let lenright =
        if ltb_ℤ to (pos (length base)) then length base + neg_part to - pos_part to else 0
    left ← copy base 1 lenleft
    middle ← copy value 1 (length value)
    right ← copy_from base (to +ℤ pos 1) lenright
    some (left ++ (middle ++ right))

  unfoldable pub sublist : List A → ℤ → ℤ → Option (List A)
  sublist list lower upper =
      if ltb_ℤ upper lower then some [] else copy_from list lower (pos_part (upper -ℤ lower) + 1)

module _ (fl : Doubles) where
  -- The loop of `ismember` from index `i`: the first index of an equal element, or 0.
  unfoldable pub ismember_loop : Var → List Var → Bool → ℕ → Option ℕ
  ismember_loop lhs [] case_matters i = some 0
  ismember_loop lhs (x ∷ xs) case_matters i =
      let rest = ismember_loop lhs xs case_matters (i + 1) in
      do same ← equality fl lhs x case_matters; if same then some i else rest

  unfoldable pub ismember : Var → List Var → Bool → Option ℕ
  unfolding ismember_loop
  ismember lhs rhs case_matters = ismember_loop lhs rhs case_matters 1

  unfoldable pub setadd : Bool → List Var → Var → Option (List Var)
  setadd unshared list value = do
    i ← ismember value list false
    if i == 0 then listappend unshared list value else some list

  unfoldable pub setremove : List Var → Var → Option (List Var)
  setremove list value = do
    i ← ismember value list false
    if i == 0 then some list else listdelete list i
