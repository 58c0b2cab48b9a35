-- ===== src/Quota.antt =====
-- quota.c: the quota of objects that a player may own, which is a property of the player.
pub mod Spent
mod Tests
use wp_lambdamoo.Properties.Values.{db_set_property_value, db_find_property}
use wp_lambdamoo.Db.{valid, Db}
use wp_lambdamoo.Strings.Literals.{ascii}
use wp_lambdamoo.Var.{int, Var, Objid, Doubles, Num}
use wp_lambdamoo.Numbers.{word, residue, signed}
use wp_lambdamoo.Properties.{PropHandle, missing}
use wp_lambdamoo.Prelude.{
  ℕ, zero, suc, ◌+◌, ◌-◌, ◌*◌, ◌/◌, ◌%◌, ◌^◌, ◌≤◌, ◌<◌, ◌≡◌, refl, sym, ap, ◌∙◌, ◌≢◌, ◌↔◌, ◌⊎◌, inl,
  inr, Bool, true, false, not, ◌&&◌, ◌||◌, Option, none, some, List, [], ◌∷◌, ◌++◌, map,
  append_assoc, append-nil, arith, ltb, leb, ◌==◌, if◌then◌else◌, ltb→lt, lt→ltb, leb→le, ==_iff,
  ==-refl, Bool-cases, Option-cases, every, every_at, length, get_elem?, set, take, drop,
  length-append, length-take, length-drop, take-append-drop, drop-append, take-append, All, ℤ, pos,
  negsuc, pos_part, neg_part, sub_ℕ, ◌+ℤ◌, ◌-ℤ◌, ◌*ℤ◌, ◌≤ℤ◌, leb_ℤ, ltb_ℤ, ◌==ℤ◌, ==ℤ_iff, ==ℤ-refl,
  drop-nil, take-nil, pred_pos, pred_negsuc, suc-ne-zero, take_all, drop_all, succ_pos, sub_pos,
  drop-drop, or-eq-false, ==ℤ-sym, or_right, clash, some_injective, none-some,
}
use wp_lambdamoo.Db.Outcomes.{Outcome, ok, panic, fault, ◌>>=◌}

abbrev pub quota_name : List ℕ
quota_name = ascii "ownership_quota"

-- `v.v.num++`
abbrev pub successor : Num → Num
successor n = signed ((residue n + 1) % word)

-- What decr_quota does with the property that it finds.
abbrev pub charge : Doubles → Db → PropHandle × Option Var → Outcome (Bool × Db)
charge fl db (missing, value) = ok (true, db)
charge fl db (h, some (int n)) =
    if leb_ℤ n (pos 0)
    then ok (false, db)
    else (db_set_property_value fl db h (int (n -ℤ pos 1)) >>= λ db'. ok (true, db'))
charge fl db (h, value) = ok (true, db)

-- 0 where the quota is used up; a player without a quota has no limit.
unfoldable pub decr_quota : Doubles → Db → Objid → Outcome (Bool × Db)
decr_quota fl db player =
    if valid db player
    then (db_find_property db player quota_name true >>= λ found. charge fl db found)
    else ok (true, db)

-- What incr_quota does with the property that it finds.
abbrev pub credit : Doubles → Db → PropHandle × Option Var → Outcome Db
credit fl db (missing, value) = ok db
credit fl db (h, some (int n)) = db_set_property_value fl db h (int (successor n))
credit fl db (h, value) = ok db

unfoldable pub incr_quota : Doubles → Db → Objid → Outcome Db
incr_quota fl db player =
    if valid db player
    then (db_find_property db player quota_name true >>= λ found. credit fl db found)
    else ok db
