-- ===== src/Lists/Segments.antt =====
-- The list operations as segments of their arguments: no read is out of range, and how the results
-- relate.
use wp_lambdamoo.Prelude.{
  ℕ, zero, suc, ◌+◌, ◌-◌, ◌≤◌, ◌<◌, ◌≡◌, refl, ap, ◌∙◌, inl, inr, Bool, false, ◌&&◌, some, List, [],
  ◌∷◌, ◌++◌, arith, ltb, ◌==◌, if◌then◌else◌, Bool-cases, length, take, drop, ℤ, pos, negsuc,
  take_all, drop_all, succ_pos, sub_pos,
}
use wp_lambdamoo.Lists.{
  doinsert, listinsert, listappend, listdelete, listconcat, listrangeset, sublist,
}
use wp_lambdamoo.Lists.Copy.{copy_from, copy_segment, copy_all, copy_rest, copy_behind}

module _ {A : Type 0} where
  pub doinsert_segments :
      (unshared : Bool) (list : List A) (value : A) (k : ℕ)
      → k ≤ length list
      → doinsert unshared list value (suc k) ≡ some (take k list ++ value ∷ drop k list)
  unfolding doinsert
  doinsert_segments unshared list value k h =
      elim (Bool-cases (unshared && (suc k == length list + 1))) [
        | inl e ↦ let last : k ≡ length list = ground arith in rw (e, last, take_all, drop_all)
        | inr e ↦
            let left : suc k - 1 ≡ k = omega arith in
            let right : length list + 1 - suc k ≡ length list - k = omega arith in
            rw (
              e,
              left,
              right,
              copy_segment list 0 k (omega arith),
              copy_rest list k (length list - k) (omega arith),
            )
      ]

  -- The 0-based place at which `listinsert` puts its value.
  abbrev pub place : List A → ℤ → ℕ
  place list (negsuc i) = 0
  place list (pos zero) = 0
  place list (pos (suc i)) = if ltb (length list) (suc i) then length list else i

  -- listinsert never fails: whatever the index, the value stands at a place of the list, between
  -- the elements in front of it and those behind, shared list or not.
  pub listinsert-place :
      (unshared : Bool) (list : List A) (value : A) (at : ℤ)
      → listinsert unshared list value at
        ≡ some (take (place list at) list ++ value ∷ drop (place list at) list)
  unfolding listinsert
  listinsert-place unshared list value (negsuc i) =
      rw (doinsert_segments unshared list value 0 (omega arith)) (ground arith)
  listinsert-place unshared list value (pos zero) =
      rw (doinsert_segments unshared list value 0 (omega arith)) (ground arith)
  listinsert-place unshared list value (pos (suc i)) = ground (
    arith,
    doinsert_segments unshared list value (length list),
    doinsert_segments unshared list value i,
  )

  pub listappend_end :
      (unshared : Bool) (list : List A) (value : A)
      → listappend unshared list value ≡ some (list ++ value ∷ [])
  unfolding listappend
  listappend_end unshared list value =
      let e : length list + 1 ≡ suc (length list) = omega arith in
      rw (e, doinsert_segments unshared list value (length list) (omega arith), take_all, drop_all)

  -- listdelete at an index of the list takes that element out and fails nowhere.
  pub listdelete_segments :
      (list : List A) (k : ℕ)
      → k < length list
      → listdelete list (suc k) ≡ some (take k list ++ drop (suc k) list)
  unfolding listdelete
  listdelete_segments list k h =
      let left : suc k - 1 ≡ k = omega arith in
      let right : suc k + 1 ≡ suc (suc k) = omega arith in
      rw (
        left,
        right,
        copy_segment list 0 k (omega arith),
        copy_rest list (suc k) (length list - suc k) (omega arith),
      )

  delete_inserted :
      (k : ℕ) (list : List A) (value : A)
      → k ≤ length list
      → take k (take k list ++ value ∷ drop k list)
          ++ drop (suc k) (take k list ++ value ∷ drop k list)
        ≡ list
  delete_inserted zero list value h = refl
  delete_inserted (suc k) [] value h = elim h [ ]
  delete_inserted (suc k) (x ∷ list) value h =
      ap (λ r. x ∷ r) (delete_inserted k list value (omega arith))

  length_inserted :
      (k : ℕ) (list : List A) (value : A)
      → length (take k list ++ value ∷ drop k list) ≡ suc (length list)
  length_inserted zero list value = refl
  length_inserted (suc k) [] value = refl
  length_inserted (suc k) (x ∷ list) value = ap suc (length_inserted k list value)

  -- listdelete undoes listinsert, and the list between them is one longer.
  pub listdelete-listinsert :
      (unshared : Bool) (list : List A) (value : A) (i : ℕ)
      → i ≤ length list
      → (r : List A) × (listinsert unshared list value (pos (suc i)) ≡ some r)
        × (length r ≡ suc (length list))
        × (listdelete r (suc i) ≡ some list)
  listdelete-listinsert unshared list value i h =
      let r = take i list ++ value ∷ drop i list in
      let e : place list (pos (suc i)) ≡ i = ground arith in
      let l : length r ≡ suc (length list) = length_inserted i list value in
      (
        r,
        listinsert-place unshared list value (pos (suc i))
            ∙ ap (λ k. some (take k list ++ value ∷ drop k list)) e,
        l,
        listdelete_segments r i (omega arith) ∙ ap some (delete_inserted i list value h),
      )

  pub listconcat_append : (first second : List A) → listconcat first second ≡ some (first ++ second)
  unfolding listconcat
  listconcat_append first second = rw (copy_all first, copy_all second)

  -- A range assignment keeps what is in front of `from` and behind `to`, and puts the new values
  -- between; a range that ends in front of its start repeats the elements between them.
  pub listrangeset_segments :
      (base value : List A) (f t : ℕ)
      → f ≤ length base
      → listrangeset base (pos (suc f)) (pos t) value ≡ some (take f base ++ (value ++ drop t base))
  unfolding listrangeset copy_from
  listrangeset_segments base value f t h =
      let left : (if ltb 1 (suc f + 0) then suc f - 1 else 0) ≡ f = ground arith in
      let right : (if ltb (t + 0) (length base + 0) then length base + 0 - t else 0)
          ≡ length base - t =
        ground arith in
      rw (
        succ_pos t,
        left,
        right,
        copy_segment base 0 f (omega arith),
        copy_all value,
        copy_behind base t,
      )

  -- A sublist within the list is that segment, and no read is out of range.
  pub sublist_segment :
      (list : List A) (lower upper : ℕ)
      → lower ≤ upper
      → upper < length list
      → sublist list (pos (suc lower)) (pos (suc upper))
        ≡ some (take (suc (upper - lower)) (drop lower list))
  unfolding sublist copy_from
  sublist_segment list lower upper h h' =
      let e : ltb (suc upper + 0) (suc lower + 0) ≡ false = ground arith in
      let n : suc upper - suc lower + 1 ≡ suc (upper - lower) = omega arith in
      rw (
        e,
        sub_pos (suc upper) (suc lower) (omega arith),
        n,
        copy_segment list lower (suc (upper - lower)) (omega arith),
      )
