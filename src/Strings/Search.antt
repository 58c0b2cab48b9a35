-- ===== src/Strings/Search.antt =====
-- utils.c: strsub, strindex and strrindex, the replacement of a string in another and the search for
-- one, in front or behind.
use wp_lambdamoo.Db.Outcomes.{Outcome, ok, fault, ◌>>=◌}
use wp_lambdamoo.Prelude.{
  ℕ, zero, suc, ◌+◌, ◌-◌, Bool, ◌&&◌, List, [], ◌∷◌, ◌++◌, ltb, leb, ◌==◌, if◌then◌else◌, length,
  drop, ℤ, pos, ◌+ℤ◌, ◌-ℤ◌, ◌==ℤ◌,
}
use wp_lambdamoo.Strings.{mystrncasecmp}
use wp_lambdamoo.Utf.{deref, get_utf, strlen_utf}

-- strncmp of the C library, on bytes.
unfoldable pub strncmp : List ℕ → List ℕ → ℕ → ℤ
strncmp s t zero = pos 0
strncmp [] t (suc n) = pos 0 -ℤ pos (deref t)
strncmp (a ∷ s) t (suc n) =
    let rest = strncmp s (drop 1 t) n in
    if a == deref t then (if a == 0 then pos 0 else rest) else pos a -ℤ pos (deref t)

-- `!(case_counts ? strncmp(s, what, lwhat) : mystrncasecmp(s, what, lwhat))`
abbrev pub is_at : Bool → List ℕ → List ℕ → Bool
is_at case_counts what s =
    (if case_counts then strncmp s what (length what) else mystrncasecmp s what (length what))
    ==ℤ pos 0

-- The loop of `strsub`, which does not end where an empty string is replaced.
unfoldable pub strsub_loop : ℕ → Bool → List ℕ → List ℕ → List ℕ → Outcome (List ℕ)
unfolding strncmp
strsub_loop zero case_counts what with source = fault
strsub_loop (suc fuel) case_counts what with [] = ok []
strsub_loop (suc fuel) case_counts what with (c ∷ source) =
    let found = is_at case_counts what (c ∷ source) in
    let rest =
      strsub_loop fuel case_counts what with
        (if found then drop (length what) (c ∷ source) else source) in
    rest >>= λ bs. ok ((if found then with else c ∷ []) ++ bs)

unfoldable pub strsub : List ℕ → List ℕ → List ℕ → Bool → Outcome (List ℕ)
unfolding strsub_loop
strsub source what with case_counts = strsub_loop (suc (length source)) case_counts what with source

-- The loop of `strindex`: `s <= e` where `what` is no longer than what is left.
unfoldable pub strindex_loop : ℕ → Bool → List ℕ → List ℕ → ℕ → Outcome ℕ
unfolding strncmp
strindex_loop zero case_counts what s ind = fault
strindex_loop (suc fuel) case_counts what s ind =
    let rest = strindex_loop fuel case_counts what (get_utf s).1 (ind + 1) in
    if ltb (length s) (length what)
    then ok 0
    else if is_at case_counts what s
    then ok (ind + 1)
    else rest

unfoldable pub strindex : List ℕ → List ℕ → Bool → Outcome ℕ
unfolding strindex_loop
strindex source what case_counts = strindex_loop (suc (length source)) case_counts what source 0

-- while ((*s & 0xc0) == 0x80) s--; a fault where it reads in front of the source.
abbrev pub is_continuation : ℕ → Bool
is_continuation c = leb 0x80 c && leb c 0xbf

unfoldable pub back_up : List ℕ → ℕ → Outcome ℕ
back_up source zero = if is_continuation (deref source) then fault else ok zero
back_up source (suc k) =
    let rest = back_up source k in
    if is_continuation (deref (drop (suc k) source)) then rest else ok (suc k)

-- The loop of `strrindex`, at `source + k - 1`.
unfoldable pub strrindex_loop : ℕ → Bool → List ℕ → List ℕ → ℕ → ℤ → Outcome ℤ
unfolding strncmp back_up
strrindex_loop fuel case_counts what source zero ind = ok (pos 0)
strrindex_loop zero case_counts what source (suc k) ind = fault
strrindex_loop (suc fuel) case_counts what source (suc k) ind =
    let rest =
      back_up source k >>= λ j. strrindex_loop fuel case_counts what source j (ind -ℤ pos 1) in
    if is_at case_counts what (drop k source) then ok (ind +ℤ pos 1) else rest

unfoldable pub strrindex : List ℕ → List ℕ → Bool → Outcome ℤ
unfolding strrindex_loop
strrindex source what case_counts =
    if ltb (length source) (length what)
    then ok (pos 0)
    else (back_up source (length source - length what) >>= λ k.
        strrindex_loop (suc (length source)) case_counts what source (suc k)
          (pos (strlen_utf source) -ℤ pos (strlen_utf (drop k source))))
