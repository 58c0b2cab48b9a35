-- ===== src/Strings.antt =====
-- The string routines at the head of utils.c: comparison without case, verb names, the hash.
-- A C string is the list of the bytes before its terminator.
pub mod Fold
pub mod Rounds
pub mod Strtol
pub mod Literals
pub mod Search
pub mod Missed
pub mod Parts
pub mod Replaced
mod Tests
mod SearchTests
pub mod VerbNames
use wp_lambdamoo.Prelude.{
  ℕ, zero, suc, ◌+◌, ◌-◌, ◌*◌, ◌/◌, ◌%◌, ◌^◌, ◌≤◌, ◌<◌, ◌≡◌, refl, sym, ap, ◌∙◌, ◌≢◌, ◌↔◌, ◌⊎◌, inl,
  inr, Bool, true, false, not, ◌&&◌, ◌||◌, Option, none, some, List, [], ◌∷◌, ◌++◌, map,
  append_assoc, append-nil, arith, ltb, leb, ◌==◌, if◌then◌else◌, ltb→lt, lt→ltb, leb→le, ==_iff,
  ==-refl, Bool-cases, Option-cases, every, every_at, length, get_elem?, set, take, drop,
  length-append, length-take, length-drop, take-append-drop, drop-append, take-append, All, ℤ, pos,
  negsuc, pos_part, neg_part, sub_ℕ, ◌+ℤ◌, ◌-ℤ◌, ◌*ℤ◌, ◌≤ℤ◌, leb_ℤ, ltb_ℤ, ◌==ℤ◌, ==ℤ_iff, ==ℤ-refl,
  drop-nil, take-nil, pred_pos, pred_negsuc, suc-ne-zero,
}
use wp_lambdamoo.Utf.{deref}

-- The table `cmap`: the upper case letters of ASCII go to lower case, every other byte to itself.
abbrev pub cmap : ℕ → ℕ
cmap c = if leb 0x41 c && leb c 0x5a then c + 0x20 else c

-- An entry of `cmap`, a char, as the int that C computes with: plain char is signed.
abbrev pub signed_char : ℕ → ℤ
signed_char c = if ltb c 0x80 then pos c else negsuc (0x100 - c - 1)

-- strcmp of the C library: the difference of the first bytes that differ.
unfoldable pub strcmp : List ℕ → List ℕ → ℤ
strcmp [] t = pos 0 -ℤ pos (deref t)
strcmp (a ∷ s) t =
    let rest = strcmp s (drop 1 t) in if a == deref t then rest else pos a -ℤ pos (deref t)

unfoldable pub mystrcasecmp : List ℕ → List ℕ → ℤ
mystrcasecmp [] t =
    if cmap 0 == cmap (deref t) then pos 0 else signed_char 0 -ℤ signed_char (cmap (deref t))
mystrcasecmp (a ∷ s) t =
    let rest = mystrcasecmp s (drop 1 t) in
    if cmap a == cmap (deref t)
    then (if a == 0 then pos 0 else rest)
    else signed_char (cmap a) -ℤ signed_char (cmap (deref t))

-- The loop of `mystrncasecmp`; its count is not 0 at the start.
unfoldable pub mystrncasecmp_loop : List ℕ → List ℕ → ℕ → ℤ
mystrncasecmp_loop [] t n =
    if cmap 0 == cmap (deref t) then pos 0 else signed_char 0 -ℤ signed_char (cmap (deref t))
mystrncasecmp_loop (a ∷ s) t n =
    let rest = mystrncasecmp_loop s (drop 1 t) (n - 1) in
    if cmap a == cmap (deref t)
    then (if a == 0 || (n - 1 == 0) then pos 0 else rest)
    else signed_char (cmap a) -ℤ signed_char (cmap (deref t))

unfoldable pub mystrncasecmp : List ℕ → List ℕ → ℕ → ℤ
unfolding mystrncasecmp_loop
mystrncasecmp s t n = if n == 0 then pos 0 else mystrncasecmp_loop s t n

-- `!strcmp(s, t)` and `!mystrcasecmp(s, t)`
abbrev pub strcmp_eq : List ℕ → List ℕ → Bool
strcmp_eq s t = strcmp s t ==ℤ pos 0

abbrev pub strcasecmp_eq : List ℕ → List ℕ → Bool
strcasecmp_eq s t = mystrcasecmp s t ==ℤ pos 0

-- `!*v || *v == ' '`
abbrev pub at_end : List ℕ → Bool
at_end v = (deref v == 0) || (deref v == b' ')

-- `star`: no `*` was skipped, one inside the name, or one at its end.
pub data Star : Type 0 where
  no_star inner end : Star

abbrev pub is_no_star : Star → Bool
is_no_star no_star = true
is_no_star _ = false

abbrev pub is_end : Star → Bool
is_end end = true
is_end _ = false

-- while (*v == '*') { v++; star = ...; }
unfoldable pub skip_stars : List ℕ → Star → List ℕ × Star
skip_stars [] star = ([], star)
skip_stars (c ∷ v) star =
    let rest = skip_stars v (if at_end v then end else inner) in
    if c == b'*' then rest else (c ∷ v, star)

-- What the inner loop of `verbcasecmp` leaves in `v`, `w` and `star`.
pub record Progress : Type 0 where
  pub v : List ℕ
  pub w : List ℕ
  pub star : Star

unfoldable pub match_name : List ℕ → List ℕ → Star → Progress
unfolding skip_stars
match_name v [] star = record { v = (skip_stars v star).0; w = []; star = (skip_stars v star).1 }
match_name v (c ∷ w) star =
    let v' = (skip_stars v star).0 in
    let star' = (skip_stars v star).1 in
    let rest = match_name (drop 1 v') w star' in
    if at_end v' || (c == 0) || not (cmap c == cmap (deref v'))
    then record { v = v'; w = c ∷ w; star = star' }
    else rest

abbrev pub accepts : Progress → Bool
accepts p = if deref p.w == 0 then not (is_no_star p.star) || at_end p.v else is_end p.star

unfoldable pub skip_name : List ℕ → List ℕ
skip_name [] = []
skip_name (c ∷ v) = let rest = skip_name v in if c == b' ' then c ∷ v else rest

unfoldable pub skip_spaces : List ℕ → List ℕ
skip_spaces [] = []
skip_spaces (c ∷ v) = let rest = skip_spaces v in if c == b' ' then rest else c ∷ v

-- The outer loop of `verbcasecmp`, one round for each name of `verb`.
unfoldable pub verbcasecmp_loop : ℕ → List ℕ → List ℕ → Bool
unfolding match_name skip_name skip_spaces
verbcasecmp_loop zero v word = false
verbcasecmp_loop (suc fuel) v word =
    let p = match_name v word no_star in
    let rest = verbcasecmp_loop fuel (skip_spaces (skip_name p.v)) word in
    if deref v == 0 then false else if accepts p then true else rest

-- `same` tells whether the two strings are at one address.
unfoldable pub verbcasecmp : Bool → List ℕ → List ℕ → Bool
unfolding verbcasecmp_loop
verbcasecmp same verb word = if same then true else verbcasecmp_loop (length verb) verb word

-- The body of the loop of `str_hash`, in an unsigned int of 32 bits.
abbrev pub hash_step : ℕ → ℕ → ℕ
hash_step ans c =
    (ans * 8 % 2 ^ 32
      + ans / 2 ^ 28
      + (if ltb (cmap c) 0x80 then cmap c else 2 ^ 32 - 0x100 + cmap c))
    % 2 ^ 32

unfoldable pub str_hash_loop : List ℕ → ℕ → ℕ
str_hash_loop [] ans = ans
str_hash_loop (c ∷ s) ans = str_hash_loop s (hash_step ans c)

unfoldable pub str_hash : List ℕ → ℕ
unfolding str_hash_loop
str_hash s = str_hash_loop s 0
