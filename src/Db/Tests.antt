-- ===== src/Db/Tests.antt =====
-- A small table: #0 contains #1, #2 contains nothing. The theorems at this table.
use wp_lambdamoo.Prelude.{
  ℕ, zero, suc, ◌≡◌, refl, sym, ◌∙◌, Bool, true, false, Option, none, some, List, [], ◌∷◌, arith,
  ◌==◌, if◌then◌else◌, pos, negsuc, ◌==ℤ◌, ==ℤ_iff, clash,
}
use wp_lambdamoo.Var.{Objid, nothing, Doubles}
use wp_lambdamoo.Db.{Object, Db, find_object, valid, new_object, db_create_object}
use wp_lambdamoo.Db.Lifetime.{
  IsNew, IsWithin, db_destroy_object, db_create_object_lem, db_destroy_object_lem,
}
use wp_lambdamoo.Db.Outcomes.{Outcome, ok}
use wp_lambdamoo.Db.Attributes.{db_change_location, db_for_all}
use wp_lambdamoo.Db.Links.{contents_links, ll_remove, ll_append}
use wp_lambdamoo.Db.Links.Chains.{mem, Distinct}
use wp_lambdamoo.Db.Links.Operations.{HoldsList}
use wp_lambdamoo.Db.Links.Views.{AreLists, view_without, view_with, up_of}
use wp_lambdamoo.Db.Links.Moves.{ll_remove_view, ll_append_view}
use wp_lambdamoo.Db.Location.{IsPlaced, moved, some-inj}
use wp_lambdamoo.Db.Location.Refine.{db_change_location-IsPlaced}
use wp_lambdamoo.Db.Counts.{visit, db_for_all_lem}

abbrev room : Object
room = record (new_object (pos 0)) { contents = pos 1 }

abbrev thing : Object
thing = record (new_object (pos 1)) { location = pos 0 }

abbrev hall : Object
hall = new_object (pos 2)

abbrev slots : ℕ → Option Object
slots zero = some room
slots (suc zero) = some thing
slots (suc (suc zero)) = some hall
slots (suc (suc (suc n))) = none

abbrev world : Db
world = record { objects = slots; num_objects = 3; max_objects = 100; all_users = [] }

abbrev contents_of : Objid → List Objid
contents_of (pos zero) = pos 1 ∷ []
contents_of (pos (suc n)) = []
contents_of (negsuc n) = []

beyond : (n : ℕ) → find_object world (pos (suc (suc (suc n)))) ≡ none
unfolding find_object
beyond n = ground arith

beyond-valid : (n : ℕ) → valid world (pos (suc (suc (suc n)))) ≡ false
unfolding valid
beyond-valid n = rw (beyond n)

nowhere : (p : Objid) → some nothing ≡ some p → valid world p ≡ false
unfolding valid find_object
nowhere p u = rw (sym (some-inj u))

world-holds : (p : Objid) → valid world p ≡ true → HoldsList contents_links world p (contents_of p)
unfolding valid find_object
world-holds (pos zero) v = (room, refl, (refl, (thing, refl, refl)))
world-holds (pos (suc zero)) v = (thing, refl, refl)
world-holds (pos (suc (suc zero))) v = (hall, refl, refl)
world-holds (pos (suc (suc (suc n)))) v = absurd (clash v (beyond-valid n))
world-holds (negsuc n) v = cc

world-empty : (p : Objid) → valid world p ≡ false → contents_of p ≡ []
unfolding valid find_object
world-empty (pos zero) v = cc
world-empty (pos (suc n)) v = refl
world-empty (negsuc n) v = refl

world-Distinct : (p : Objid) → Distinct (contents_of p)
unfolding mem
world-Distinct (pos zero) = (refl, tt)
world-Distinct (pos (suc n)) = tt
world-Distinct (negsuc n) = tt

world-holder : (p x : Objid) → mem x (contents_of p) ≡ true → (p ≡ pos 0) × (x ≡ pos 1)
unfolding mem
world-holder (pos zero) x m = (refl, (==ℤ_iff x (pos 1)).0 (ground arith))
world-holder (pos (suc n)) x m = cc
world-holder (negsuc n) x m = cc

world-AreLists : AreLists contents_links world contents_of
world-AreLists = record {
  holds = world-holds;
  empty = world-empty;
  distinct = world-Distinct;
  disjoint = λ p q x mp mq. (world-holder p x mp).0 ∙ sym (world-holder q x mq).0;
}

world-up : up_of contents_links world (pos 1) ≡ some (pos 0)
unfolding up_of find_object
world-up = refl

up_beyond : (n : ℕ) → up_of contents_links world (pos (suc (suc (suc n)))) ≡ none
unfolding up_of
up_beyond n = rw (beyond n)

none-some : {p : Objid} → none ≡ some p → ⊥
none-some e = cc

world-home :
    (p x : Objid)
    → up_of contents_links world x ≡ some p
    → valid world p ≡ true
    → mem x (contents_of p) ≡ true
unfolding up_of find_object valid mem
world-home p (pos zero) u v = absurd (clash v (nowhere p u))
world-home p (pos (suc zero)) u v = rw (sym (some-inj u))
world-home p (pos (suc (suc zero))) u v = absurd (clash v (nowhere p u))
world-home p (pos (suc (suc (suc n)))) u v = absurd (none-some (sym (up_beyond n) ∙ u))
world-home p (negsuc n) u v = cc

world-IsPlaced : IsPlaced world contents_of
world-IsPlaced = record {
  lists = world-AreLists;
  back = λ p x m. let (ep, ex) = world-holder p x m in rw (ep, ex) world-up;
  home = world-home;
}

valid_room : valid world (pos 0) ≡ true
unfolding valid find_object
valid_room = refl

valid_thing : valid world (pos 1) ≡ true
unfolding valid find_object
valid_thing = refl

valid_hall : valid world (pos 2) ≡ true
unfolding valid find_object
valid_hall = refl

thing_in_room : mem (pos 1) (contents_of (pos 0)) ≡ true
unfolding mem
thing_in_room = refl

hall_free : (q : Objid) → mem (pos 2) (contents_of q) ≡ false
unfolding mem
hall_free (pos zero) = refl
hall_free (pos (suc n)) = refl
hall_free (negsuc n) = refl

ll_remove_view_example :
    (db' : Db) × (ll_remove contents_links (pos 0) (pos 1) world ≡ ok db')
    × AreLists contents_links db' (view_without (pos 1) contents_of)
    × ((q : Objid) → valid db' q ≡ valid world q)
    × ((q : Objid) → up_of contents_links db' q ≡ up_of contents_links world q)
ll_remove_view_example =
    ll_remove_view contents_links world contents_of (pos 0) (pos 1) world-AreLists valid_room
      thing_in_room

ll_append_view_example :
    (db' : Db) × (ll_append contents_links (pos 0) (pos 2) world ≡ ok db')
    × AreLists contents_links db' (view_with (pos 0) (pos 2) contents_of)
    × ((q : Objid) → valid db' q ≡ valid world q)
    × ((q : Objid) → up_of contents_links db' q ≡ up_of contents_links world q)
ll_append_view_example =
    ll_append_view contents_links world contents_of (pos 0) (pos 2) world-AreLists valid_room
      valid_hall hall_free

db_change_location-IsPlaced_example :
    (db' : Db) × (db_change_location world (pos 1) (pos 2) ≡ ok db')
    × IsPlaced db' (moved (valid world (pos 2)) (pos 1) (pos 2) contents_of)
    × ((x : Objid)
        → up_of contents_links db' x
          ≡ (if pos 1 ==ℤ x then some (pos 2) else up_of contents_links world x))
    × ((q : Objid) → valid db' q ≡ valid world q)
db_change_location-IsPlaced_example =
    db_change_location-IsPlaced world contents_of (pos 1) (pos 2) world-IsPlaced valid_thing

-- A callback that collects the elements.
abbrev collect : List Objid → Objid → Outcome (Bool × List Objid)
collect seen q = ok (false, q ∷ seen)

db_for_all_lem_example :
    db_for_all contents_links world (pos 0) collect [] ≡ visit (contents_of (pos 0)) collect []
db_for_all_lem_example =
    db_for_all_lem contents_links collect world contents_of (pos 0) [] world-AreLists valid_room

-- The hall has no parent, location, children or contents.
find_hall : find_object world (pos 2) ≡ some hall
unfolding find_object
find_hall = refl

db_create_object_lem_example :
    ((db_create_object world (pos 2)).0 ≡ pos 3)
    × IsWithin (db_create_object world (pos 2)).1
    × ((o : Object) × (find_object (db_create_object world (pos 2)).1 (pos 3) ≡ some o)
        × IsNew (pos 3) (pos 2) o)
    × (find_object (db_create_object world (pos 2)).1 (pos 1) ≡ find_object world (pos 1))
db_create_object_lem_example = db_create_object_lem world (pos 2) (pos 1) (omega arith) refl

abbrev doubles : Doubles
doubles = record { feq = λ a b. a == b; fzero = 0 }

db_destroy_object_lem_example :
    (db' : Db) × (db_destroy_object doubles world (pos 2) ≡ ok db')
    × (find_object db' (pos 1) ≡ (if pos 2 ==ℤ pos 1 then none else find_object world (pos 1)))
db_destroy_object_lem_example =
    db_destroy_object_lem doubles world (pos 2) (pos 1) hall find_hall refl (omega arith)
