-- ===== src/Db/Attributes.antt =====
-- The object attributes of db_objects.c: owners, names, locations, contents, flags and users.
use wp_lambdamoo.Prelude.{
  ℕ, zero, suc, ◌+◌, ◌-◌, ◌/◌, ◌%◌, ◌^◌, Bool, true, false, Option, none, some, List, ◌==◌,
  if◌then◌else◌, ◌==ℤ◌,
}
use wp_lambdamoo.Var.{obj, Doubles, Objid, nothing}
use wp_lambdamoo.Lists.{setadd, setremove}
use wp_lambdamoo.Db.{Db, at, store, valid}
use wp_lambdamoo.Db.Outcomes.{Outcome, ok, panic, fault, ◌>>=◌}
use wp_lambdamoo.Db.Links.{Links, contents_links, child_links, ll_remove, ll_append}

unfoldable pub db_object_owner : Db → Objid → Outcome Objid
db_object_owner db oid = at db oid >>= λ o. ok o.owner

unfoldable pub db_set_object_owner : Db → Objid → Objid → Outcome Db
db_set_object_owner db oid owner = store db oid (λ o. record o { owner = owner })

unfoldable pub db_object_name : Db → Objid → Outcome (List ℕ)
db_object_name db oid = at db oid >>= λ o. ok o.name

unfoldable pub db_set_object_name : Db → Objid → List ℕ → Outcome Db
db_set_object_name db oid name = store db oid (λ o. record o { name = name })

unfoldable pub db_object_parent : Db → Objid → Outcome Objid
db_object_parent db oid = at db oid >>= λ o. ok o.parent

unfoldable pub db_object_location : Db → Objid → Outcome Objid
db_object_location db oid = at db oid >>= λ o. ok o.location

module _ (l : Links) where
  -- The loops of `db_count_children` and `db_count_contents`.
  unfoldable pub count_loop : ℕ → Db → Objid → ℕ → Outcome ℕ
  count_loop zero db c i = fault
  count_loop (suc fuel) db c i =
      if c ==ℤ nothing then ok i else at db c >>= λ o. count_loop fuel db (l.next o) (i + 1)

  unfoldable pub db_count : Db → Objid → Outcome ℕ
  unfolding count_loop
  db_count db oid = at db oid >>= λ o. count_loop (suc db.num_objects) db (l.first o) 0

  -- The loops of `db_for_all_children` and `db_for_all_contents`: `func` sees each element and its
  -- data, and stops the enumeration by `true`.
  unfoldable pub for_all_loop {κ} :
      {S : Type κ} → ℕ → Db → Objid → (S → Objid → Outcome (Bool × S)) → S → Outcome (Bool × S)
  for_all_loop zero db c func s = fault
  for_all_loop (suc fuel) db c func s =
      if c ==ℤ nothing
      then ok (false, s)
      else func s c >>= λ r.
          let rest = at db c >>= λ o. for_all_loop fuel db (l.next o) func r.1 in
          if r.0 then ok (true, r.1) else rest

  unfoldable pub db_for_all {κ} :
      {S : Type κ} → Db → Objid → (S → Objid → Outcome (Bool × S)) → S → Outcome (Bool × S)
  unfolding for_all_loop
  db_for_all db oid func s =
      at db oid >>= λ o. for_all_loop (suc db.num_objects) db (l.first o) func s

unfoldable pub db_change_location : Db → Objid → Objid → Outcome Db
db_change_location db oid location = do
  old ← db_object_location db oid
  db₁ ← if valid db old then ll_remove contents_links old oid db else ok db
  db₂ ← if valid db₁ location then ll_append contents_links location oid db₁ else ok db₁
  store db₂ oid (λ o. record o { location = location })

-- db_object_flag
abbrev pub flag_user : ℕ
flag_user = 0

abbrev pub flag_programmer : ℕ
flag_programmer = 1

abbrev pub flag_wizard : ℕ
flag_wizard = 2

abbrev pub flag_read : ℕ
flag_read = 4

abbrev pub flag_write : ℕ
flag_write = 5

abbrev pub flag_fertile : ℕ
flag_fertile = 7

-- `flags & (1 << f)`, `flags |= 1 << f` and `flags &= ~(1 << f)` by arithmetic on the bit.
abbrev pub has_bit : ℕ → ℕ → Bool
has_bit flags f = flags / 2 ^ f % 2 == 1

abbrev pub set_bit : ℕ → ℕ → ℕ
set_bit flags f = if has_bit flags f then flags else flags + 2 ^ f

abbrev pub clear_bit : ℕ → ℕ → ℕ
clear_bit flags f = if has_bit flags f then flags - 2 ^ f else flags

unfoldable pub db_object_has_flag : Db → Objid → ℕ → Outcome Bool
db_object_has_flag db oid f = at db oid >>= λ o. ok (has_bit o.flags f)

-- `setadd` and `setremove` panic where `equality` does.
abbrev pub or_panic {ℓ} : {A : Type ℓ} → Option A → Outcome A
or_panic none = panic
or_panic (some a) = ok a

unfoldable pub db_set_object_flag : Doubles → Db → Objid → ℕ → Outcome Db
db_set_object_flag fl db oid f = do
  db' ← store db oid (λ o. record o { flags = set_bit o.flags f })
  if f == flag_user
      then (or_panic (setadd fl false db'.all_users (obj oid)) >>= λ users.
          ok (record db' { all_users = users }))
      else ok db'

unfoldable pub db_clear_object_flag : Doubles → Db → Objid → ℕ → Outcome Db
db_clear_object_flag fl db oid f = do
  db' ← store db oid (λ o. record o { flags = clear_bit o.flags f })
  if f == flag_user
      then (or_panic (setremove fl db'.all_users (obj oid)) >>= λ users.
          ok (record db' { all_users = users }))
      else ok db'

-- `valid(oid) && db_object_has_flag(oid, f)`
abbrev pub valid_with_flag : Db → Objid → ℕ → Outcome Bool
valid_with_flag db oid f = if valid db oid then db_object_has_flag db oid f else ok false

unfoldable pub is_wizard : Db → Objid → Outcome Bool
is_wizard db oid = valid_with_flag db oid flag_wizard

unfoldable pub is_programmer : Db → Objid → Outcome Bool
is_programmer db oid = valid_with_flag db oid flag_programmer

unfoldable pub is_user : Db → Objid → Outcome Bool
is_user db oid = valid_with_flag db oid flag_user

unfoldable pub db_object_allows : Db → Objid → Objid → ℕ → Outcome Bool
db_object_allows db oid progr f = do
  owner ← db_object_owner db oid
  if progr ==ℤ owner
      then ok true
      else (do w ← is_wizard db progr; if w then ok true else db_object_has_flag db oid f)

unfoldable pub db_count_children : Db → Objid → Outcome ℕ
db_count_children db oid = db_count child_links db oid

unfoldable pub db_count_contents : Db → Objid → Outcome ℕ
db_count_contents db oid = db_count contents_links db oid

module _ {κ} {S : Type κ} (func : S → Objid → Outcome (Bool × S)) where
  unfoldable pub db_for_all_children : Db → Objid → S → Outcome (Bool × S)
  db_for_all_children db oid s = db_for_all child_links db oid func s

  unfoldable pub db_for_all_contents : Db → Objid → S → Outcome (Bool × S)
  db_for_all_contents db oid s = db_for_all contents_links db oid func s
