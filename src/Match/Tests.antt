-- ===== src/Match/Tests.antt =====
-- The theorem on matching at the sample table, and runs of match_object.
use wp_lambdamoo.Db.Attributes.{db_object_name, db_object_location}
use wp_lambdamoo.Match.Verdict.{partials, exacts}
use wp_lambdamoo.Properties.Values.{db_find_property}
use wp_lambdamoo.Match.Contents.{match_contents_lem, Named, verdict}
use wp_lambdamoo.Verbs.Sample.{beyond-valid, world-AreLists, contents_of, box, world}
use wp_lambdamoo.Strings.{str_hash, mystrncasecmp, mystrcasecmp}
use wp_lambdamoo.Strings.Literals.{ascii}
use wp_lambdamoo.Match.{names_of, match_contents, match_object}
use wp_lambdamoo.Db.{find_object, valid}
use wp_lambdamoo.Prelude.{ℕ, zero, suc, ◌≡◌, refl, some, List, [], ◌∷◌, pos, negsuc, ◌-ℤ◌, clash}
use wp_lambdamoo.Var.{Objid, nothing, failed_match}
use wp_lambdamoo.Db.Outcomes.{ok}

abbrev names : Objid → List (List ℕ)
names (pos zero) = ascii "Room" ∷ []
names (pos (suc n)) = ascii "Box" ∷ []
names (negsuc n) = []

world-Named : Named world contents_of names
unfolding valid find_object names_of db_find_property str_hash mystrcasecmp ◌-ℤ◌ db_object_name
world-Named (pos zero) v = refl
world-Named (pos (suc zero)) v = refl
world-Named (pos (suc (suc n))) v = absurd (clash v (beyond-valid n))
world-Named (negsuc n) v = cc

box_found : find_object world (pos 1) ≡ some box
unfolding find_object
box_found = refl

match_contents_lem_example :
    match_contents world (pos 1) (ascii "bo")
    ≡ ok (
        verdict (exacts (ascii "bo") names (pos 1 ∷ [])) (partials (ascii "bo") names (pos 1 ∷ [])))
match_contents_lem_example =
    match_contents_lem world contents_of names (pos 1) box (ascii "bo") world-AreLists world-Named
      box_found

-- Its own name, a number, and a number of no object.
runs :
    (verdict (exacts (ascii "bo") names (pos 1 ∷ [])) (partials (ascii "bo") names (pos 1 ∷ []))
      ≡ pos 1)
    × (match_object world (pos 1) (ascii "HERE") ≡ ok (pos 0))
    × (match_object world (pos 1) (ascii "#0") ≡ ok (pos 0))
    × (match_object world (pos 1) (ascii "#7") ≡ ok failed_match)
    × (match_object world (pos 1) [] ≡ ok nothing)
unfolding match_object valid find_object mystrcasecmp mystrncasecmp ◌-ℤ◌ db_object_location
runs = (refl, refl, refl, refl, refl)
