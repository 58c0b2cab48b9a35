-- ===== src/Verbs/Harmless.antt =====
-- The setters of a verb's owner and program leave the cache alone, and may.
use wp_lambdamoo.Verbs.Stores.{store-modify, bind_ok}
use wp_lambdamoo.Db.Links.Chains.{modify}
use wp_lambdamoo.Db.Outcomes.{ok}
use wp_lambdamoo.Verbs.FoldedNames.{elsewhere}
use wp_lambdamoo.Strings.{verbcasecmp}
use wp_lambdamoo.Verbs.Invalidation.{IsHarmless}
use wp_lambdamoo.Verbs.Cache.{with_verbs}
use wp_lambdamoo.Db.{store, Db, Verbdef, Object}
use wp_lambdamoo.Verbs.{
  follow, vf_exec, handle_found, Handle, change_verb, find_verbdef_by_name, write_verb,
}
use mathlib.Core.Path.{ap₂}
use Prim.Native.Nat.{bit_and}
use wp_lambdamoo.Prelude.{
  none-some, ℕ, ◌≡◌, refl, sym, ap, ◌∙◌, inl, inr, Bool, true, false, not, ◌&&◌, ◌||◌, Option, none,
  some, List, [], ◌∷◌, ◌==◌, if◌then◌else◌, Bool-cases,
}

-- A change of a verb that keeps its address, name and perms.
abbrev pub KeepsCall : (Verbdef → Verbdef) → Type 0
KeepsCall f =
    (v : Verbdef) → ((f v).address ≡ v.address) × ((f v).name ≡ v.name) × ((f v).perms ≡ v.perms)

abbrev pub on_verb : ℕ → (Verbdef → Verbdef) → Object → Object
on_verb a f o = record o { verbdefs = change_verb a f o.verbdefs }

abbrev calls : List ℕ → Verbdef → Bool
calls verb v =
    verbcasecmp (elsewhere v) v.name verb && (not true || not (bit_and v.perms vf_exec == 0))

find_head :
    (v : Verbdef) (vs : List Verbdef) (verb : List ℕ) (b : Bool)
    → calls verb v ≡ b
    → find_verbdef_by_name elsewhere (v ∷ vs) verb true
      ≡ (if b then some v else find_verbdef_by_name elsewhere vs verb true)
unfolding find_verbdef_by_name
find_head v vs verb b e =
    ap (λ t. if t then some v else find_verbdef_by_name elsewhere vs verb true) e

-- What the lookup by name finds among two objects' verbs, as a handle.
abbrev pub found_on : Object → List Verbdef → List ℕ → Option Handle
found_on o vs verb = handle_found o (find_verbdef_by_name elsewhere vs verb true)

found_cons :
    (o o' : Object) (v w : Verbdef) (vs ws : List Verbdef) (verb : List ℕ)
    → o'.id ≡ o.id
    → w.address ≡ v.address
    → w.name ≡ v.name
    → w.perms ≡ v.perms
    → found_on o' ws verb ≡ found_on o vs verb
    → found_on o' (w ∷ ws) verb ≡ found_on o (v ∷ vs) verb
found_cons o o' v w vs ws verb id_eq a n p rest = elim (Bool-cases (calls verb v)) [
  | inl t ↦
      ap (handle_found o') (find_head w ws verb true (both_call ∙ t))
      ∙ ap₂ (λ i b. some (record { definer = i; verbdef = b })) id_eq a
      ∙ ap (handle_found o) (sym (find_head v vs verb true t))
  | inr t ↦
      ap (handle_found o') (find_head w ws verb false (both_call ∙ t))
      ∙ rest
      ∙ ap (handle_found o) (sym (find_head v vs verb false t))
]
  where
    both_call : calls verb w ≡ calls verb v
    both_call =
        ap₂ (λ m q. verbcasecmp false m verb && (not true || not (bit_and q vf_exec == 0))) n p

pub found_same :
    (vs : List Verbdef) (verb : List ℕ) (o o' : Object)
    → o'.id ≡ o.id
    → found_on o' vs verb ≡ found_on o vs verb
found_same [] verb o o' e = unfold find_verbdef_by_name in refl
found_same (v ∷ vs) verb o o' e =
    found_cons o o' v v vs vs verb e refl refl refl (found_same vs verb o o' e)

found_changed :
    (vs : List Verbdef) (a : ℕ) (f : Verbdef → Verbdef) (verb : List ℕ) (o o' : Object)
    → KeepsCall f
    → o'.id ≡ o.id
    → found_on o' (change_verb a f vs) verb ≡ found_on o vs verb
found_changed [] a f verb o o' k e = unfold change_verb in unfold find_verbdef_by_name in refl
found_changed (v ∷ vs) a f verb o o' k e = elim (Bool-cases (v.address == a)) [
  | inl t ↦
      ap (λ ws. found_on o' ws verb) (head true t)
      ∙ found_cons o o' v (f v) vs vs verb e (k v).0 (k v).1 (k v).2 (found_same vs verb o o' e)
  | inr t ↦
      ap (λ ws. found_on o' ws verb) (head false t)
      ∙ found_cons o o' v v vs (change_verb a f vs) verb e refl refl refl
          (found_changed vs a f verb o o' k e)
]
  where
    head :
        (b : Bool)
        → (v.address == a) ≡ b
        → change_verb a f (v ∷ vs) ≡ (if b then f v ∷ vs else v ∷ change_verb a f vs)
    head b t = unfold change_verb in ap (λ x. if x then f v ∷ vs else v ∷ change_verb a f vs) t

change_verb_nonempty :
    (vs : List Verbdef) (a : ℕ) (f : Verbdef → Verbdef) (o : Object)
    → o.verbdefs ≡ vs
    → with_verbs o ≡ some o
    → with_verbs (on_verb a f o) ≡ some (on_verb a f o)
unfolding change_verb
change_verb_nonempty [] a f o e has =
    absurd (
      none-some (sym (ap (λ (ws : List Verbdef). elim ws [ [] ↦ none | v ∷ vs ↦ some o ]) e) ∙ has))
change_verb_nonempty (v ∷ vs) a f o e has = elim (Bool-cases (v.address == a)) [
  | inl t ↦ rw (e, t)
  | inr t ↦ rw (e, t)
]

-- A change of a verb's program, owner or preposition is harmless.
pub on_verb-IsHarmless : (a : ℕ) (f : Verbdef → Verbdef) → KeepsCall f → IsHarmless (on_verb a f)
on_verb-IsHarmless a f k = (
  λ o. (refl, refl),
  λ verb o. found_changed o.verbdefs a f verb o (on_verb a f o) k refl,
  λ o has. change_verb_nonempty o.verbdefs a f o refl has,
)

pub write_verb-modify :
    (db db' : Db) (h : Handle) (f : Verbdef → Verbdef)
    → write_verb db h f ≡ ok db'
    → db' ≡ modify db h.definer (on_verb h.verbdef f)
unfolding write_verb
write_verb-modify db db' h f e =
    let (v, follows, stored) =
      bind_ok (follow db h) (λ v. store db h.definer (on_verb h.verbdef f)) db' e in
    store-modify db h.definer (on_verb h.verbdef f) db' stored
