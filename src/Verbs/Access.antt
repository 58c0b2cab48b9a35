-- ===== src/Verbs/Access.antt =====
-- db_verbs.c: the operations that change verbs, with what they do to the cache, and the fields of a
-- verb. The address of a new verb is an argument, since malloc chooses it.
use Prim.Native.Nat.{bit_and, bit_or}
use wp_lambdamoo.Prelude.{
  ℕ, ◌+◌, ◌-◌, ◌%◌, ◌^◌, Bool, true, not, Option, none, some, List, [], ◌∷◌, ◌++◌, ◌==◌,
  if◌then◌else◌, length, ℤ, ◌==ℤ◌,
}
use wp_lambdamoo.Var.{Objid}
use wp_lambdamoo.Strings.Strtol.{to_short}
use wp_lambdamoo.Db.{Verbdef, Db, at, store}
use wp_lambdamoo.Db.Outcomes.{Outcome, ok, panic, fault, ◌>>=◌}
use wp_lambdamoo.Db.Attributes.{is_wizard}
use wp_lambdamoo.Verbs.{Handle, follow, write_verb, dobj_of, iobj_of, perms_of, flags_of}
use wp_lambdamoo.Verbs.Cache.{Cache, db_priv_affected_callable_verb_lookup}

-- The verb that db_add_verb makes.
abbrev pub new_verb : ℕ → List ℕ → Objid → ℕ → ℕ → ℤ → ℕ → Verbdef
new_verb address vnames owner flags dobj prep iobj = record {
  address = address;
  name = vnames;
  program = none;
  owner = owner;
  perms = perms_of flags dobj iobj;
  prep = to_short prep;
}

-- The number of the new verb, the table and the cache.
unfoldable pub db_add_verb :
    ℕ → Db → Cache → Objid → List ℕ → Objid → ℕ → ℕ → ℤ → ℕ → Outcome (ℕ × Db × Cache)
db_add_verb address db c oid vnames owner flags dobj prep iobj = at db oid >>= λ o.
    store db oid (λ o. record o {
      verbdefs = o.verbdefs ++ new_verb address vnames owner flags dobj prep iobj ∷ [];
    })
    >>= λ db'. ok (length o.verbdefs + 1, db', db_priv_affected_callable_verb_lookup c)

-- The list without the verb at an address; the loop reads behind the end where it is not there.
abbrev pub onto : Verbdef → Outcome (List Verbdef) → Outcome (List Verbdef)
onto v rest = rest >>= λ vs. ok (v ∷ vs)

unfoldable pub unlink_verb : ℕ → List Verbdef → Outcome (List Verbdef)
unlink_verb a [] = fault
unlink_verb a (v ∷ vs) =
    let rest = unlink_verb a vs in if v.address == a then ok vs else onto v rest

-- A null handle is followed all the same.
unfoldable pub db_delete_verb : Db → Cache → Option Handle → Outcome (Db × Cache)
unfolding unlink_verb
db_delete_verb db c none = fault
db_delete_verb db c (some h) = at db h.definer >>= λ o. unlink_verb h.verbdef o.verbdefs >>= λ vs.
    store db h.definer (λ o. record o { verbdefs = vs }) >>= λ db'.
    ok (db', db_priv_affected_callable_verb_lookup c)

-- `if (h) ... else panic(...)`
abbrev pub with_handle {ℓ} : {A : Type ℓ} → Option Handle → (Handle → Outcome A) → Outcome A
with_handle none f = panic
with_handle (some h) f = f h

unfoldable pub db_verb_definer : Option Handle → Outcome Objid
db_verb_definer vh = with_handle vh (λ h. ok h.definer)

unfoldable pub db_verb_names : Db → Option Handle → Outcome (List ℕ)
db_verb_names db vh = with_handle vh (λ h. follow db h >>= λ v. ok v.name)

-- A setter that clears the cache.
abbrev pub set_and_clear : Db → Cache → Option Handle → (Verbdef → Verbdef) → Outcome (Db × Cache)
set_and_clear db c vh f =
    with_handle vh
      (λ h. write_verb db h f >>= λ db'. ok (db', db_priv_affected_callable_verb_lookup c))

unfoldable pub db_set_verb_names : Db → Cache → Option Handle → List ℕ → Outcome (Db × Cache)
db_set_verb_names db c vh names = set_and_clear db c vh (λ v. record v { name = names })

unfoldable pub db_verb_owner : Db → Option Handle → Outcome Objid
db_verb_owner db vh = with_handle vh (λ h. follow db h >>= λ v. ok v.owner)

unfoldable pub db_set_verb_owner : Db → Option Handle → Objid → Outcome Db
db_set_verb_owner db vh owner =
    with_handle vh (λ h. write_verb db h (λ v. record v { owner = owner }))

unfoldable pub db_verb_flags : Db → Option Handle → Outcome ℕ
db_verb_flags db vh = with_handle vh (λ h. follow db h >>= λ v. ok (flags_of v.perms))

-- `perms &= ~PERMMASK; perms |= flags;` in a short
abbrev pub with_flags : ℕ → ℕ → ℕ
with_flags perms flags = bit_or (perms - flags_of perms) flags % 2 ^ 16

unfoldable pub db_set_verb_flags : Db → Cache → Option Handle → ℕ → Outcome (Db × Cache)
db_set_verb_flags db c vh flags =
    set_and_clear db c vh (λ v. record v { perms = with_flags v.perms flags })

-- A verb without code has the null program, which is in program.c.
abbrev pub program_or : ℕ → Option ℕ → ℕ
program_or null_program none = null_program
program_or null_program (some p) = p

unfoldable pub db_verb_program : ℕ → Db → Option Handle → Outcome ℕ
db_verb_program null_program db vh =
    with_handle vh (λ h. follow db h >>= λ v. ok (program_or null_program v.program))

unfoldable pub db_set_verb_program : Db → Option Handle → Option ℕ → Outcome Db
db_set_verb_program db vh program =
    with_handle vh (λ h. write_verb db h (λ v. record v { program = program }))

-- dobj, prep and iobj
unfoldable pub db_verb_arg_specs : Db → Option Handle → Outcome (ℕ × ℤ × ℕ)
db_verb_arg_specs db vh =
    with_handle vh (λ h. follow db h >>= λ v. ok (dobj_of v.perms, v.prep, iobj_of v.perms))

abbrev pub with_specs : ℕ → ℤ → ℕ → Verbdef → Verbdef
with_specs dobj prep iobj v = record v {
  perms = perms_of (flags_of v.perms) dobj iobj;
  prep = to_short prep;
}

unfoldable pub db_set_verb_arg_specs : Db → Cache → Option Handle → ℕ → ℤ → ℕ → Outcome (Db × Cache)
db_set_verb_arg_specs db c vh dobj prep iobj = set_and_clear db c vh (with_specs dobj prep iobj)

unfoldable pub db_verb_allows : Db → Option Handle → Objid → ℕ → Outcome Bool
db_verb_allows db vh progr flag = do
  flags ← db_verb_flags db vh
  if not (bit_and flags flag == 0)
      then ok true
      else (do owner ← db_verb_owner db vh; if progr ==ℤ owner then ok true else is_wizard db progr)
