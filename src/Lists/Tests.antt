-- ===== src/Lists/Tests.antt =====
-- Runs of the operations of list.c, and the theorems at concrete lists.
use wp_lambdamoo.Lists.Builtins.Search.{bf_strsub_cases, Substituted}
use wp_lambdamoo.Strings.Literals.{ascii}
use wp_lambdamoo.Prelude.{
  ℕ, zero, suc, ◌+◌, ◌-◌, ◌*◌, ◌/◌, ◌%◌, ◌^◌, ◌≤◌, ◌<◌, ◌≡◌, refl, sym, ap, ◌∙◌, ◌≢◌, ◌↔◌, ◌⊎◌, inl,
  inr, Bool, true, false, not, ◌&&◌, ◌||◌, Option, none, some, List, [], ◌∷◌, ◌++◌, map,
  append_assoc, append-nil, arith, ltb, leb, ◌==◌, if◌then◌else◌, ltb→lt, lt→ltb, leb→le, ==_iff,
  ==-refl, Bool-cases, Option-cases, every, every_at, length, get_elem?, set, take, drop,
  length-append, length-take, length-drop, take-append-drop, drop-append, take-append, All, ℤ, pos,
  negsuc, pos_part, neg_part, sub_ℕ, ◌+ℤ◌, ◌-ℤ◌, ◌*ℤ◌, ◌≤ℤ◌, leb_ℤ, ltb_ℤ, ◌==ℤ◌, ==ℤ_iff, ==ℤ-refl,
  drop-nil, take-nil, pred_pos, pred_negsuc, suc-ne-zero, take_all, drop_all, succ_pos, sub_pos,
  drop-drop, or-eq-false, ==ℤ-sym, or_right, clash, some_injective, none-some,
}
use wp_lambdamoo.Utf.Text.{encode}
use wp_lambdamoo.Lists.Builtins.{bf_listdelete, error_pack, var_pack}
use wp_lambdamoo.Lists.Builtins.Ranges.{IsOutside, bf_listdelete_cases}
use wp_lambdamoo.Var.{equality, is_true, Var, int, obj, str, list, Doubles, from_list, e_range}
use wp_lambdamoo.Lists.{listinsert, listdelete, listrangeset, sublist, ismember, setadd, setremove}
use wp_lambdamoo.Lists.Copy.{◌>>=◌}
use wp_lambdamoo.Lists.Segments.{listrangeset_segments}
use wp_lambdamoo.Lists.Sets.{setremove-setadd, IsAbsent, IsFirst, setadd_cases}
use wp_lambdamoo.Lists.Text.{strrangeset_characters, strrangeset, strrangeset_drops}

abbrev three : List ℕ
three = 10 ∷ 20 ∷ 30 ∷ []

insert_second : listinsert false three 15 (pos 2) ≡ some (10 ∷ 15 ∷ 20 ∷ 30 ∷ [])
unfolding listinsert wp_lambdamoo.Lists.doinsert wp_lambdamoo.Lists.Copy.copy
insert_second = refl

replace_middle : listrangeset three (pos 2) (pos 2) (7 ∷ 8 ∷ []) ≡ some (10 ∷ 7 ∷ 8 ∷ 30 ∷ [])
unfolding listrangeset wp_lambdamoo.Lists.Copy.copy wp_lambdamoo.Lists.Copy.copy_from
    wp_lambdamoo.Prelude.◌+ℤ◌
replace_middle = refl

listrangeset_segments_example :
    listrangeset three (pos 3) (pos 1) (5 ∷ []) ≡ some (take 2 three ++ (5 ∷ [] ++ drop 1 three))
listrangeset_segments_example = listrangeset_segments three (5 ∷ []) 2 1 (omega arith)

abbrev doubles : Doubles
doubles = record { feq = λ a b. a == b; fzero = 0 }

-- {#1, "a"}
abbrev pair : List Var
pair = obj (pos 1) ∷ str (0x61 ∷ []) ∷ []

abbrev two : Var
two = int (pos 2)

setadd_cases_example :
    (IsAbsent doubles two false pair × (setadd doubles false pair two ≡ some (pair ++ two ∷ [])))
    ⊎ ((k : ℕ) × IsFirst doubles two false pair k × (setadd doubles false pair two ≡ some pair))
setadd_cases_example = setadd_cases doubles false pair two tt

-- "a", the euro sign, "b"
abbrev price : List ℕ
price = 0x61 ∷ 0x20ac ∷ 0x62 ∷ []

strrangeset_drops_example :
    strrangeset (encode price) (pos 3) (pos 1) (encode (0x78 ∷ []))
    ≡ encode (take 2 price ++ 0x78 ∷ [])
strrangeset_drops_example = strrangeset_drops price (0x78 ∷ []) 2 1 (omega arith) (omega arith)

bf_listdelete_cases_example :
    (IsOutside (pos 2) pair
      × (bf_listdelete (list (from_list pair) ∷ int (pos 2) ∷ []) ≡ some (error_pack e_range)))
    ⊎ ((k : ℕ) × (pos 2 ≡ pos (suc k))
        × (k < length pair)
        × (bf_listdelete (list (from_list pair) ∷ int (pos 2) ∷ [])
            ≡ some (var_pack (list (from_list (take k pair ++ drop (suc k) pair))))))
bf_listdelete_cases_example = bf_listdelete_cases (from_list pair) (pos 2)

abbrev dashes : List Var
dashes = str (ascii "a-b") ∷ str (ascii "-") ∷ str (ascii "+") ∷ []

bf_strsub_cases_example :
    Substituted doubles (ascii "a-b") (ascii "-") (ascii "+") dashes false
    × ((v : Var)
        → Substituted doubles
            (ascii "a-b")
            (ascii "-")
            (ascii "+")
            (str (ascii "a-b") ∷ str (ascii "-") ∷ str (ascii "+") ∷ v ∷ [])
            (is_true doubles v))
bf_strsub_cases_example = bf_strsub_cases doubles (ascii "a-b") (ascii "-") (ascii "+")

setremove-setadd_example :
    (setadd doubles false pair two >>= λ r. setremove doubles r two) ≡ some pair
unfolding equality
setremove-setadd_example = setremove-setadd doubles false pair two tt tt (refl, (refl, tt))

strrangeset_characters_example :
    strrangeset (encode price) (pos 2) (pos 2) (encode (0x78 ∷ []))
    ≡ encode (take 1 price ++ (0x78 ∷ [] ++ drop 2 price))
strrangeset_characters_example =
    strrangeset_characters price (0x78 ∷ []) 1 2 (omega arith) (omega arith)
