-- ===== src/Lists/Copy.antt =====
-- The loop `for (i = from; n > 0; i++, n--) new[...] = list[i]` over the cells of a list.
use native.Mathlib.Decide.{dec_le}
use wp_lambdamoo.Prelude.{
  ℕ, zero, suc, ◌+◌, ◌-◌, ◌≤◌, ◌<◌, ◌≡◌, refl, sym, ap, ◌∙◌, Option, none, some, List, [], ◌∷◌,
  arith, length, get_elem?, take, drop, length-drop, ℤ, pos, negsuc, take_all,
}

infixl 5 ◌>>=◌
abbrev pub ◌>>=◌ {ℓ κ} : {A : Type ℓ} {B : Type κ} → Option A → (A → Option B) → Option B
none >>= f = none
some a >>= f = f a

-- `list[i]`; cell 0 is the length.
abbrev pub cell {ℓ} : {A : Type ℓ} → List A → ℕ → Option A
cell list zero = none
cell list (suc i) = get_elem? list i

unfoldable pub copy {ℓ} : {A : Type ℓ} → List A → ℕ → ℕ → Option (List A)
copy list i zero = some []
copy list i (suc n) = let rest = copy list (suc i) n in do x ← cell list i; xs ← rest; some (x ∷ xs)

-- The loop from an index that may lie in front of the array.
unfoldable pub copy_from {ℓ} : {A : Type ℓ} → List A → ℤ → ℕ → Option (List A)
copy_from list (pos i) n = copy list i n
copy_from list (negsuc i) zero = some []
copy_from list (negsuc i) (suc n) = none

-- One cell at an index in range, and the rest of the list from there.
pub get_elem?-drop {ℓ} :
    {A : Type ℓ} (list : List A) (i : ℕ)
    → i < length list
    → (x : A) × (get_elem? list i ≡ some x) × (drop i list ≡ x ∷ drop (suc i) list)
get_elem?-drop [] i h = elim h [ ]
get_elem?-drop (y ∷ ys) zero h = (y, refl, refl)
get_elem?-drop (y ∷ ys) (suc i) h = get_elem?-drop ys i (omega arith)

-- Within the list the loop copies a segment.
pub copy_segment {ℓ} :
    {A : Type ℓ} (list : List A) (i n : ℕ)
    → i + n ≤ length list
    → copy list (suc i) n ≡ some (take n (drop i list))
unfolding copy
copy_segment list i zero h = refl
copy_segment list i (suc n) h =
    let (x, at, split) = get_elem?-drop list i (omega arith) in
    rw (at, copy_segment list (suc i) n (omega arith), split)

pub copy_all {ℓ} : {A : Type ℓ} (list : List A) → copy list 1 (length list) ≡ some list
copy_all list = copy_segment list 0 (length list) (omega arith) ∙ ap some (take_all list)

-- What is left behind index `i`.
pub copy_rest {ℓ} :
    {A : Type ℓ} (list : List A) (i n : ℕ)
    → i + n ≡ length list
    → copy list (suc i) n ≡ some (drop i list)
copy_rest list i n h =
    let e : n ≡ length (drop i list) = omega (arith, length-drop i list) in
    copy_segment list i n (omega arith)
    ∙ ap (λ k. some (take k (drop i list))) e
    ∙ ap some (take_all (drop i list))

empty_of {ℓ} : {A : Type ℓ} (l : List A) → length l ≡ 0 → l ≡ []
empty_of [] e = refl
empty_of (x ∷ l) e = absurd (omega arith)

-- The loop over what is behind an index, which may lie behind the list.
pub copy_behind {ℓ} :
    {A : Type ℓ} (list : List A) (i : ℕ) → copy list (suc i) (length list - i) ≡ some (drop i list)
copy_behind list i = elim (dec_le i (length list)) [
  | yes h ↦ copy_rest list i (length list - i) (omega arith)
  | no h ↦
      let none_left : length list - i ≡ 0 = omega arith in
      let short : length (drop i list) ≡ 0 = omega (arith, length-drop i list) in
      rw none_left (unfold copy in ap some (sym (empty_of (drop i list) short)))
]
