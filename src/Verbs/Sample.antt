-- ===== src/Verbs/Sample.antt =====
-- A small table for the tests: #0, a room with a verb and a property, contains #1, its child.
use wp_lambdamoo.Db.Links.Operations.{HoldsList}
use wp_lambdamoo.Db.Links.{contents_links}
use wp_lambdamoo.Db.Links.Views.{AreLists}
use wp_lambdamoo.Db.Links.Chains.{Distinct, mem}
use wp_lambdamoo.Strings.Literals.{ascii}
use wp_lambdamoo.Verbs.Lines.{Numbered, Line, Lines}
use wp_lambdamoo.Db.{valid, new_object, Object, Db, find_object, Verbdef, Propdef}
use wp_lambdamoo.Prelude.{
  ℕ, zero, suc, ◌≡◌, refl, sym, ap, ◌∙◌, true, false, Option, none, some, List, [], ◌∷◌, arith, pos,
  negsuc, clash, some_injective, none-some,
}
use wp_lambdamoo.Var.{int, clear, Objid}

abbrev pub look : Verbdef
look = record {
  address = 10;
  name = ascii "l*ook";
  program = none;
  owner = pos 0;
  perms = 84;
  prep = negsuc 0;
}

abbrev pub weight : Propdef
weight = record { name = ascii "weight"; hash = 4374388 }

abbrev pub room : Object
room = record (new_object (pos 0)) {
  contents = pos 1;
  child = pos 1;
  name = ascii "Room";
  verbdefs = look ∷ [];
  propdefs = weight ∷ [];
  max_propdefs = 8;
  propval = record { var = int (pos 3); owner = pos 0; perms = 1 } ∷ [];
}

abbrev pub box : Object
box = record (new_object (pos 1)) {
  location = pos 0;
  parent = pos 0;
  name = ascii "Box";
  propval = record { var = clear; owner = pos 0; perms = 1 } ∷ [];
}

abbrev pub slots : ℕ → Option Object
slots zero = some room
slots (suc zero) = some box
slots (suc (suc n)) = none

abbrev pub world : Db
world = record { objects = slots; num_objects = 2; max_objects = 100; all_users = [] }

pub beyond : (n : ℕ) → find_object world (pos (suc (suc n))) ≡ none
unfolding find_object
beyond n = ground arith

pub world-Numbered : Numbered world
unfolding find_object
world-Numbered (pos zero) o e = ap (λ x. x.id) (some_injective (sym e))
world-Numbered (pos (suc zero)) o e = ap (λ x. x.id) (some_injective (sym e))
world-Numbered (pos (suc (suc n))) o e = absurd (none-some (sym (beyond n) ∙ e))
world-Numbered (negsuc n) o e = cc

abbrev pub line_of : Objid → List Object
line_of (pos zero) = room ∷ []
line_of (pos (suc zero)) = box ∷ room ∷ []
line_of (pos (suc (suc n))) = []
line_of (negsuc n) = []

pub world-Line : (p : Objid) → Line (line_of p) world (find_object world p)
unfolding find_object
world-Line (pos zero) = (refl, refl)
world-Line (pos (suc zero)) = (refl, (refl, refl))
world-Line (pos (suc (suc n))) = ground arith
world-Line (negsuc n) = refl

pub world-Lines : Lines world
world-Lines p = (line_of p, world-Line p)

abbrev pub contents_of : Objid → List Objid
contents_of (pos zero) = pos 1 ∷ []
contents_of (pos (suc n)) = []
contents_of (negsuc n) = []

pub beyond-valid : (n : ℕ) → valid world (pos (suc (suc n))) ≡ false
unfolding valid
beyond-valid n = rw (beyond n)

holds_at : (p : Objid) → valid world p ≡ true → HoldsList contents_links world p (contents_of p)
unfolding valid find_object
holds_at (pos zero) v = (room, refl, (refl, (box, refl, refl)))
holds_at (pos (suc zero)) v = (box, refl, refl)
holds_at (pos (suc (suc n))) v = absurd (clash v (beyond-valid n))
holds_at (negsuc n) v = cc

empty_at : (p : Objid) → valid world p ≡ false → contents_of p ≡ []
unfolding valid find_object
empty_at (pos zero) v = cc
empty_at (pos (suc n)) v = refl
empty_at (negsuc n) v = refl

Distinct-at : (p : Objid) → Distinct (contents_of p)
unfolding mem
Distinct-at (pos zero) = (refl, tt)
Distinct-at (pos (suc n)) = tt
Distinct-at (negsuc n) = tt

holder_at : (p x : Objid) → mem x (contents_of p) ≡ true → p ≡ pos 0
unfolding mem
holder_at (pos zero) x m = refl
holder_at (pos (suc n)) x m = cc
holder_at (negsuc n) x m = cc

pub world-AreLists : AreLists contents_links world contents_of
world-AreLists = record {
  holds = holds_at;
  empty = empty_at;
  distinct = Distinct-at;
  disjoint = λ p q x mp mq. holder_at p x mp ∙ sym (holder_at q x mq);
}
