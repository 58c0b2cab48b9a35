-- ===== src/Verbs/Stores.antt =====
-- What a store to one object that keeps its number and its parent leaves of the lines of ancestors,
-- and of the lookup of callable verbs.
use wp_lambdamoo.Prelude.{
  ℕ, ◌≡◌, refl, sym, ap, ◌∙◌, inl, inr, true, false, none, some, List, [], ◌∷◌, map, if◌then◌else◌,
  Bool-cases, Option-cases, ◌==ℤ◌,
}
use wp_lambdamoo.Var.{Objid}
use wp_lambdamoo.Db.{Object, Db, find_object, store}
use wp_lambdamoo.Db.Outcomes.{Outcome, ok, panic, fault, ◌>>=◌}
use wp_lambdamoo.Db.Links.Chains.{change, modify, find_object-modify, store_found}
use wp_lambdamoo.Verbs.Cache.{with_verbs, callable_on, find_callable_uncached}
use wp_lambdamoo.Verbs.Lines.{Line, Lines, Numbered, or_first, first_in}
use wp_lambdamoo.Verbs.FoldedNames.{elsewhere}
use wp_lambdamoo.Verbs.Keys.{IsKey, uncached-Line}

-- The result of a sequence comes from a result of its first part.
pub bind_ok {ℓ κ} :
    {A : Type ℓ} {B : Type κ} (m : Outcome A) (k : A → Outcome B) (b : B)
    → (m >>= k) ≡ ok b
    → (a : A) × (m ≡ ok a) × (k a ≡ ok b)
bind_ok (ok a) k b e = (a, refl, e)
bind_ok panic k b e = cc
bind_ok fault k b e = cc

pub ok_injective {ℓ} : {A : Type ℓ} {a b : A} → ok a ≡ ok b → a ≡ b
ok_injective p = cc

-- A store that succeeds is a change of one object.
pub store-modify :
    (db : Db) (p : Objid) (f : Object → Object) (db' : Db)
    → store db p f ≡ ok db'
    → db' ≡ modify db p f
unfolding store
store-modify db p f db' e = elim (Option-cases (find_object db p)) [
  | inl absent ↦ absurd (no_result (rw absent at e))
  | inr (o, found) ↦ ok_injective (sym e ∙ unfold store in store_found db p f o found)
]
  where
    no_result : {b : Db} → fault ≡ ok b → ⊥
    no_result q = cc

-- The change keeps what the lines are made of.
abbrev pub Keeps : (Object → Object) → Type 0
Keeps f = (o : Object) → ((f o).id ≡ o.id) × ((f o).parent ≡ o.parent)

module _ (db : Db) (p : Objid) (f : Object → Object) where
  abbrev pub changed : Object → Object
  changed o = if p ==ℤ o.id then f o else o

  pub find_changed :
      (q : Objid) (o : Object)
      → Numbered db
      → find_object db q ≡ some o
      → find_object (modify db p f) q ≡ some (changed o)
  find_changed q o n e = elim (Bool-cases (p ==ℤ q)) [
    | inl same ↦
        let here : (p ==ℤ o.id) ≡ true = ap (λ i. p ==ℤ i) (n q o e) ∙ same in
        find_object-modify db p q f
        ∙ ap (λ b. if b then change f (find_object db q) else find_object db q) same
        ∙ ap (change f) e
        ∙ ap (λ b. some (if b then f o else o)) (sym here)
    | inr other ↦
        let away : (p ==ℤ o.id) ≡ false = ap (λ i. p ==ℤ i) (n q o e) ∙ other in
        find_object-modify db p q f
        ∙ ap (λ b. if b then change f (find_object db q) else find_object db q) other
        ∙ e
        ∙ ap (λ b. some (if b then f o else o)) (sym away)
  ]

  pub find_absent : (q : Objid) → find_object db q ≡ none → find_object (modify db p f) q ≡ none
  find_absent q e = elim (Bool-cases (p ==ℤ q)) [
    | inl same ↦ rw (find_object-modify db p q f, same, e)
    | inr other ↦ rw (find_object-modify db p q f, other, e)
  ]

  changed-Keeps : (o : Object) → Keeps f → ((changed o).id ≡ o.id) × ((changed o).parent ≡ o.parent)
  changed-Keeps o k = elim (Bool-cases (p ==ℤ o.id)) [
    | inl e ↦ rw e (k o)
    | inr e ↦ rw e (refl, refl)
  ]

  pub Numbered-modify : Keeps f → Numbered db → Numbered (modify db p f)
  Numbered-modify k n q o e = elim (Option-cases (find_object db q)) [
    | inl absent ↦ absurd (none-some (sym (find_absent q absent) ∙ e))
    | inr (x, found) ↦
        let there = some_injective (sym (find_changed q x n found) ∙ e) in
        ap (λ y. y.id) (sym there) ∙ (changed-Keeps x k).0 ∙ n q x found
  ]
    where
      none-some : {y : Object} → none ≡ some y → ⊥
      none-some q = cc

      some_injective : {a b : Object} → some a ≡ some b → a ≡ b
      some_injective q = cc

  pub Line-modify :
      (os : List Object) (q : Objid)
      → Keeps f
      → Numbered db
      → Line os db (find_object db q)
      → Line (map changed os) (modify db p f) (find_object (modify db p f) q)
  Line-modify [] q k n l = find_absent q l
  Line-modify (x ∷ os) q k n (e, l) =
      (find_changed q x n e, rw (changed-Keeps x k).1 (Line-modify os x.parent k n l))

  pub Lines-modify : Keeps f → Numbered db → Lines db → Lines (modify db p f)
  Lines-modify k n lines q = let (os, l) = lines q in (map changed os, Line-modify os q k n l)

  -- The change keeps the callable verbs of each object.
  first_in-changed :
      (verb : List ℕ) (os : List Object)
      → ((o : Object) → callable_on elsewhere verb (f o) ≡ callable_on elsewhere verb o)
      → first_in (callable_on elsewhere verb) (map changed os)
        ≡ first_in (callable_on elsewhere verb) os
  first_in-changed verb [] same = refl
  first_in-changed verb (o ∷ os) same =
      ap (λ h. or_first h (first_in (callable_on elsewhere verb) (map changed os))) (head o)
      ∙ ap (or_first (callable_on elsewhere verb o)) (first_in-changed verb os same)
    where
      head : (x : Object) → callable_on elsewhere verb (changed x) ≡ callable_on elsewhere verb x
      head x = elim (Bool-cases (p ==ℤ x.id)) [
        | inl e ↦ ap (λ b. callable_on elsewhere verb (if b then f x else x)) e ∙ same x
        | inr e ↦ ap (λ b. callable_on elsewhere verb (if b then f x else x)) e
      ]

  pub uncached-modify :
      (q : Objid) (verb : List ℕ)
      → Keeps f
      → Numbered db
      → Lines db
      → ((o : Object) → callable_on elsewhere verb (f o) ≡ callable_on elsewhere verb o)
      → find_callable_uncached elsewhere (modify db p f) q verb
        ≡ find_callable_uncached elsewhere db q verb
  uncached-modify q verb k n lines same =
      let (os, l) = lines q in
      uncached-Line (map changed os) q (modify db p f) verb (Numbered-modify k n)
        (Line-modify os q k n l)
      ∙ ap ok (first_in-changed verb os same)
      ∙ sym (uncached-Line os q db verb n l)

  pub IsKey-modify :
      (key : Objid)
      → Numbered db
      → ((o : Object) → with_verbs o ≡ some o → with_verbs (f o) ≡ some (f o))
      → IsKey db key
      → IsKey (modify db p f) key
  IsKey-modify key n keeps (inl e) = inl e
  IsKey-modify key n keeps (inr (o, found, has)) =
      inr (changed o, find_changed key o n found, still)
    where
      still : with_verbs (changed o) ≡ some (changed o)
      still = elim (Bool-cases (p ==ℤ o.id)) [
        | inl e ↦
            coe 0 1 (i. with_verbs (if sym e i then f o else o) ≡ some (if sym e i then f o else o))
              (keeps o has)
        | inr e ↦
            coe 0 1 (i. with_verbs (if sym e i then f o else o) ≡ some (if sym e i then f o else o))
              has
      ]
