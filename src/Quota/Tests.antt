-- ===== src/Quota/Tests.antt =====
-- The theorems on quotas at a small table: #0 is a player with a quota of 2.
use wp_lambdamoo.Properties.{is_clear}
use wp_lambdamoo.Strings.Literals.{ascii}
use wp_lambdamoo.Strings.{mystrcasecmp, str_hash}
use wp_lambdamoo.Var.{int, Doubles, Objid}
use wp_lambdamoo.Verbs.Lines.{Line, Numbered}
use wp_lambdamoo.Properties.Found.{total, Rooted, Filled}
use wp_lambdamoo.Properties.Values.{db_find_property}
use wp_lambdamoo.Db.{Pval, new_object, valid, Object, Propdef, Db, find_object}
use wp_lambdamoo.Quota.Spent.{
  incr_quota-decr_quota, KeepsOthers, HasQuota, decr_quota_cases, TakesOne, Charged,
}
use wp_lambdamoo.Prelude.{
  ℕ, zero, suc, ◌<◌, ◌≡◌, refl, sym, ap, ◌∙◌, true, false, Option, none, some, List, [], ◌∷◌, arith,
  ◌==◌, length, get_elem?, pos, negsuc, ◌-ℤ◌, some_injective, none-some,
}
use wp_lambdamoo.Db.Outcomes.{ok}
use wp_lambdamoo.Quota.{incr_quota, quota_name}

abbrev doubles : Doubles
doubles = record { feq = λ a b. a == b; fzero = 0 }

abbrev quota_def : Propdef
quota_def = record { name = quota_name; hash = str_hash quota_name }

abbrev player : Object
player = record (new_object (pos 0)) {
  name = ascii "Player";
  propdefs = quota_def ∷ [];
  max_propdefs = 8;
  propval = record { var = int (pos 2); owner = pos 0; perms = 1 } ∷ [];
}

abbrev players : ℕ → Option Object
players zero = some player
players (suc n) = none

abbrev place : Db
place = record { objects = players; num_objects = 1; max_objects = 100; all_users = [] }

beyond_player : (n : ℕ) → find_object place (pos (suc n)) ≡ none
unfolding find_object
beyond_player n = ground arith

only_player : (p : Objid) (o : Object) → find_object place p ≡ some o → (p ≡ pos 0) × (player ≡ o)
unfolding find_object
only_player (pos zero) o e = (refl, some_injective e)
only_player (pos (suc n)) o e = absurd (none-some (sym (beyond_player n) ∙ e))
only_player (negsuc n) o e = cc

place-Numbered : Numbered place
place-Numbered p o e = let (q, same) = only_player p o e in sym (ap (λ x. x.id) same) ∙ sym q

no_parent : find_object place player.parent ≡ none
unfolding find_object
no_parent = refl

alone : (os : List Object) → Line os place none → os ≡ []
alone [] l = refl
alone (x ∷ os) (e, l) = absurd (none-some e)

abbrev FilledAt : Object → List Object → Type 0
FilledAt o os = Line os place (find_object place o.parent) → length o.propval ≡ total (o ∷ os)

player-filled : (os : List Object) → FilledAt player os
player-filled os l = rw (alone os (rw no_parent at l))

place-Filled : Filled place
place-Filled p o os e l =
    let (q, same) = only_player p o e in coe 0 1 (i. FilledAt (same i) os) (player-filled os) l

abbrev RootedAt : Object → ℕ → Pval → Type 0
RootedAt o i pv = i < length o.propdefs → get_elem? o.propval i ≡ some pv → is_clear pv.var ≡ false

player-rooted : (i : ℕ) (pv : Pval) → RootedAt player i pv
player-rooted zero pv h e = ap (λ v. is_clear v.var) (some_injective (sym e))
player-rooted (suc i) pv h e = absurd (omega arith)

place-Rooted : Rooted place
place-Rooted p o i pv e =
    let (q, same) = only_player p o e in coe 0 1 (j. RootedAt (same j) i pv) (player-rooted i pv)

place-Line : Line (player ∷ []) place (find_object place (pos 0))
unfolding find_object
place-Line = (refl, refl)

place-valid : valid place (pos 0) ≡ true
unfolding valid find_object
place-valid = refl

decr_quota_cases_example : Charged doubles place (pos 0) (player ∷ [])
decr_quota_cases_example =
    decr_quota_cases doubles place (pos 0) (player ∷ []) place-Numbered place-Filled place-Rooted
      place-Line place-valid

has_two : HasQuota place (pos 0) (pos 0) 0 (pos 2)
unfolding db_find_property find_object str_hash mystrcasecmp ◌-ℤ◌
has_two = refl

incr_quota-decr_quota_example :
    (db' db'' : Db) × TakesOne doubles place (pos 0) (pos 0) 0 1 db'
    × (incr_quota doubles db' (pos 0) ≡ ok db'')
    × HasQuota db'' (pos 0) (pos 0) 0 (pos 2)
    × KeepsOthers place (pos 0) 0 db''
incr_quota-decr_quota_example =
    incr_quota-decr_quota doubles place (pos 0) (pos 0) 0 1 place-valid has_two (omega arith)
