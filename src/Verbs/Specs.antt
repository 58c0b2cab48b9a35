-- ===== src/Verbs/Specs.antt =====
-- db_verbs.c: the fields of a verb hold what was put there.
use wp_lambdamoo.Db.Links.Chains.{find_object-modify, store_found, modify}
use wp_lambdamoo.Verbs.Harmless.{on_verb}
use wp_lambdamoo.Strings.Strtol.{to_short}
use wp_lambdamoo.Verbs.Cache.{db_priv_affected_callable_verb_lookup, Cache}
use wp_lambdamoo.Db.Outcomes.{from_option, fault, ok}
use wp_lambdamoo.Db.{store, find_object, Verbdef, Db}
use wp_lambdamoo.Verbs.Access.{
  with_specs, db_verb_owner, db_verb_names, db_verb_flags, db_verb_arg_specs, db_set_verb_arg_specs,
}
use mathlib.Core.Path.{ap₂}
use mathlib.Core.Bool.{and-eq-true_iff}
use wp_lambdamoo.Verbs.{
  write_verb, Handle, change_verb, follow, verb_at, iobj_of, dobj_of, flags_of, perms_of,
}
use wp_lambdamoo.Prelude.{
  some_injective, ℕ, ◌+◌, ◌*◌, ◌/◌, ◌%◌, ◌<◌, ◌≡◌, refl, ap, ◌∙◌, inl, inr, Bool, true, ◌&&◌,
  Option, none, some, List, [], ◌∷◌, arith, ◌==◌, if◌then◌else◌, ==_iff, Bool-cases, Option-cases,
  every, every_at, ℤ, ==ℤ-refl,
}

perms_test : ℕ → Bool
perms_test n =
    let p = perms_of (n % 16) (n / 16 % 4) (n / 64) in
    (flags_of p == n % 16) && (dobj_of p == n / 16 % 4) && (iobj_of p == n / 64)

parts_from :
    (flags dobj iobj p : ℕ)
    → ((flags_of p == flags) && (dobj_of p == dobj) && (iobj_of p == iobj)) ≡ true
    → (flags_of p ≡ flags) × (dobj_of p ≡ dobj) × (iobj_of p ≡ iobj)
parts_from flags dobj iobj p t =
    let (ab, c) = (and-eq-true_iff _ _).0 t in
    let (a, b) = (and-eq-true_iff _ _).0 ab in
    ((==_iff _ _).0 a, (==_iff _ _).0 b, (==_iff _ _).0 c)

-- The three parts of perms do not overlap.
perms_parts :
    (flags dobj iobj : ℕ)
    → flags < 16
    → dobj < 4
    → iobj < 4
    → (flags_of (perms_of flags dobj iobj) ≡ flags)
      × (dobj_of (perms_of flags dobj iobj) ≡ dobj)
      × (iobj_of (perms_of flags dobj iobj) ≡ iobj)
unfolding perms_test
perms_parts flags dobj iobj hf hd hi =
    let n = flags + 16 * dobj + 64 * iobj in
    let e₁ : n % 16 ≡ flags = omega arith in
    let e₂ : n / 16 % 4 ≡ dobj = omega arith in
    let e₃ : n / 64 ≡ iobj = omega arith in
    let t = every_at perms_test 256 (unfold every in refl) n (omega arith) in
    parts_from flags dobj iobj (perms_of flags dobj iobj) (rw (e₁, e₂, e₃) at t)

-- A write through a handle to a verb that is there succeeds, and the handle leads to what was written.
follow_written :
    (vs : List Verbdef) (a : ℕ) (f : Verbdef → Verbdef) (v : Verbdef)
    → ((w : Verbdef) → (f w).address ≡ w.address)
    → verb_at a vs ≡ some v
    → verb_at a (change_verb a f vs) ≡ some (f v)
unfolding verb_at change_verb
follow_written [] a f v k e = cc
follow_written (x ∷ vs) a f v k e = elim (Bool-cases (x.address == a)) [
  | inl t ↦
      let xv : x ≡ v = some_injective (rw t at e) in
      rw t (
        ap (λ b. if b then some (f x) else verb_at a vs) (ap (λ i. i == a) (k x) ∙ t)
        ∙ ap (λ y. some (f y)) xv)
  | inr t ↦ rw t (
      ap (λ b. if b then some x else verb_at a (change_verb a f vs)) t
      ∙ follow_written vs a f v k (rw t at e))
]

write_verb_lem :
    (db : Db) (h : Handle) (f : Verbdef → Verbdef) (v : Verbdef)
    → ((w : Verbdef) → (f w).address ≡ w.address)
    → follow db h ≡ ok v
    → (db' : Db) × (write_verb db h f ≡ ok db') × (follow db' h ≡ ok (f v))
unfolding follow
write_verb_lem db h f v k e = elim (Option-cases (find_object db h.definer)) [
  | inl absent ↦ absurd (no_result (rw absent at e))
  | inr (o, found) ↦
      let there = from_some (verb_at h.verbdef o.verbdefs) v (rw found at e) in
      let g = on_verb h.verbdef f in
      (
        modify db h.definer g,
        unfold write_verb in rw (found, there) (unfold store in store_found db h.definer g o found),
        rw (find_object-modify db h.definer h.definer g, ==ℤ-refl h.definer, found)
            (ap from_option (follow_written o.verbdefs h.verbdef f v k there)),
      )
]
  where
    no_result : {b : Verbdef} → fault ≡ ok b → ⊥
    no_result q = cc

    from_some : (m : Option Verbdef) (w : Verbdef) → from_option m ≡ ok w → m ≡ some w
    from_some none w q = cc
    from_some (some x) w q = cc

-- db_set_verb_arg_specs through a handle to a verb that is there clears the cache; the three
-- specifications, of which the preposition fits a short, are read back as they were put, and the
-- flags, the names and the owner are as they were.
pub db_verb_arg_specs-db_set_verb_arg_specs :
    (db : Db) (c : Cache) (h : Handle) (v : Verbdef) (dobj : ℕ) (prep : ℤ) (iobj : ℕ)
    → dobj < 4
    → iobj < 4
    → to_short prep ≡ prep
    → follow db h ≡ ok v
    → (db' : Db) × (db_set_verb_arg_specs db c (some h) dobj prep iobj
        ≡ ok (db', db_priv_affected_callable_verb_lookup c))
      × (db_verb_arg_specs db' (some h) ≡ ok (dobj, prep, iobj))
      × (db_verb_flags db' (some h) ≡ db_verb_flags db (some h))
      × (db_verb_names db' (some h) ≡ db_verb_names db (some h))
      × (db_verb_owner db' (some h) ≡ db_verb_owner db (some h))
unfolding db_set_verb_arg_specs db_verb_arg_specs db_verb_flags db_verb_names db_verb_owner
db_verb_arg_specs-db_set_verb_arg_specs db c h v dobj prep iobj hd hi short e =
    let (db', written, there) = write_verb_lem db h (with_specs dobj prep iobj) v (λ w. refl) e in
    let (pf, pd, pi) = perms_parts (flags_of v.perms) dobj iobj (omega arith) hd hi in
    (
      db',
      rw written,
      rw there (
          ap₂ (λ p r. ok (p, r, iobj_of (with_specs dobj prep iobj v).perms)) pd short
          ∙ ap (λ p. ok (dobj, prep, p)) pi),
      rw (there, e) (ap ok pf),
      rw (there, e),
      rw (there, e),
    )
