-- ===== src/Sprint/Choice.antt =====
-- Which item `find_sprint_for_ref_date` chooses (src/sprints/util.py), first among dated items and
-- then among sprints.
use odg_core.Prelude.{
  ℕ, zero, suc, ◌-◌, ◌≤◌, ◌<◌, ◌≡◌, refl, inl, inr, true, false, none, some, List, [], ◌∷◌, arith,
  leb, length, get_elem?, get_elem?-lt, get_elem?_total, All, Member, All→Member, All-of_Member,
  Option-cases, Bool-cases, ltb, ltb→lt,
}
use odg_core.Prelude.Int.{ℤ, pos, ◌≤ℤ◌}
use odg_core.Prelude.Sort.{
  sorted, IsSorted, sorted-IsSorted, All-of_sorted, Member-of_sorted, length-sorted,
}
use odg_core.Sprint.Search.{Dated, dated_leb, first_from, target_index, pick, choose}

target_index-lt :
    (idx : ℕ) (offset : ℤ) (count : ℕ) → 0 < count → target_index idx offset count < count
unfolding target_index
target_index-lt idx offset count h = ground arith

target_index_zero : (idx count : ℕ) → idx < count → target_index idx (pos 0) count ≡ idx
unfolding target_index
target_index_zero idx count h = ground arith

target_index_mono :
    (idx : ℕ) (o p : ℤ) (count : ℕ) → o ≤ℤ p → target_index idx o count ≤ target_index idx p count
unfolding target_index
target_index_mono idx o p count h = ground arith

-- `x` is chosen where nothing at or after the reference date is earlier, and the last item where
-- nothing is at or after it.
abbrev pub IsEarliest : ℕ → ℕ → ℕ → Type 0
IsEarliest ref chosen other =
    (ref ≤ other → (ref ≤ chosen) × (chosen ≤ other)) × (chosen < ref → other ≤ chosen)

module _ {A : Type 0} where
  dated_leb-total : (a b : Dated A) → dated_leb a b ≡ false → dated_leb b a ≡ true
  dated_leb-total a b h = ground arith

  dated_leb_trans :
      (a b c : Dated A) → dated_leb a b ≡ true → dated_leb b c ≡ true → dated_leb a c ≡ true
  dated_leb_trans a b c h k = ground arith

  -- In sorted items a later index has a later date, or the same.
  sorted_mono :
      (xs : List (Dated A)) (i j : ℕ) (x y : Dated A)
      → IsSorted dated_leb xs
      → i ≤ j
      → get_elem? xs i ≡ some x
      → get_elem? xs j ≡ some y
      → x.0 ≤ y.0
  sorted_mono [] i j x y s h p q = cc
  sorted_mono (z ∷ xs) zero zero x y s h p q = ground arith
  sorted_mono (z ∷ xs) zero (suc j) x y s h p q =
      let later : leb z.0 y.0 ≡ true = All→Member _ xs y s.0 (j, q) in ground arith
  sorted_mono (z ∷ xs) (suc i) zero x y s h p q = absurd (omega arith)
  sorted_mono (z ∷ xs) (suc i) (suc j) x y s h p q = sorted_mono xs i j x y s.1 (omega arith) p q

  first_from-some :
      (ref : ℕ) (xs : List (Dated A)) (i : ℕ)
      → first_from ref xs ≡ some i
      → (x : Dated A) × (get_elem? xs i ≡ some x) × (ref ≤ x.0)
  unfolding first_from
  first_from-some ref [] i e = cc
  first_from-some ref (z ∷ xs) zero e = (z, refl, ground arith)
  first_from-some ref (z ∷ xs) (suc i) e =
      let (x, at, late) = first_from-some ref xs i (ground arith) in (x, at, late)

  first_from_before :
      (ref : ℕ) (xs : List (Dated A)) (i j : ℕ) (y : Dated A)
      → first_from ref xs ≡ some i
      → get_elem? xs j ≡ some y
      → j < i
      → y.0 < ref
  unfolding first_from
  first_from_before ref [] i j y e p h = cc
  first_from_before ref (z ∷ xs) zero j y e p h = absurd (omega arith)
  first_from_before ref (z ∷ xs) (suc i) zero y e p h = ground arith
  first_from_before ref (z ∷ xs) (suc i) (suc j) y e p h =
      first_from_before ref xs i j y (ground arith) p (omega arith)

  first_from-none :
      (ref : ℕ) (xs : List (Dated A)) → first_from ref xs ≡ none → All (λ x. x.0 < ref) xs
  unfolding first_from
  first_from-none ref [] e = tt
  first_from-none ref (x ∷ xs) e = ground (arith, first_from-none ref xs)

  pick-IsEarliest :
      (ref : ℕ) (xs : List (Dated A)) (r : Dated A)
      → IsSorted dated_leb xs
      → pick ref (pos 0) xs ≡ some r
      → All (λ x. IsEarliest ref r.0 x.0) xs
  unfolding pick
  pick-IsEarliest ref xs r s e = All-of_Member _ xs λ x (i, at).
      elim (Option-cases (first_from ref xs)) [
        | inl absent ↦
            let last : get_elem? xs (length xs - 1) ≡ some r = rw (absent, pick) at e in
            let early : x.0 < ref =
              All→Member (λ y. y.0 < ref) xs x (first_from-none ref xs absent) (i, at) in
            let inside : i < length xs = get_elem?-lt xs i x at in
            let below : x.0 ≤ r.0 = sorted_mono xs i (length xs - 1) x r s (omega arith) at last in
            (λ h. absurd (omega arith), λ h. below)
        | inr (idx, found) ↦
            let (y, aty, late) = first_from-some ref xs idx found in
            let inside : idx < length xs = get_elem?-lt xs idx y aty in
            let chosen : get_elem? xs (target_index idx (pos 0) (length xs)) ≡ some r =
              rw (found, pick) at e in
            let same : get_elem? xs idx ≡ some r =
              rw (target_index_zero idx (length xs) inside) at chosen in
            let is_y : r ≡ y = cc in
            let late' : ref ≤ r.0 = rw is_y late in
            let after : ref ≤ x.0 → r.0 ≤ x.0 = λ h. elim (Bool-cases (ltb i idx)) [
              | inl b ↦
                  let early : x.0 < ref =
                    first_from_before ref xs idx i x found at (ltb→lt i idx b) in
                  absurd (omega arith)
              | inr b ↦ sorted_mono xs idx i r x s (ground arith) same at
            ] in
            (λ h. (late', after h), λ h. absurd (omega arith))
      ]

  -- The chosen item is one of the items, and there is one if there are items at all.
  pick_total :
      (ref : ℕ) (offset : ℤ) (xs : List (Dated A))
      → 0 < length xs
      → (r : Dated A) × (pick ref offset xs ≡ some r)
  unfolding pick
  pick_total ref offset xs h = elim (Option-cases (first_from ref xs)) [
    | inl absent ↦
        let (r, e) = get_elem?_total xs (length xs - 1) (omega arith) in (r, rw (absent, pick) e)
    | inr (idx, found) ↦
        let (r, e) =
          get_elem?_total xs (target_index idx offset (length xs))
            (target_index-lt idx offset (length xs) h) in
        (r, rw (found, pick) e)
  ]

  pick-Member :
      (ref : ℕ) (offset : ℤ) (xs : List (Dated A)) (r : Dated A)
      → pick ref offset xs ≡ some r
      → Member r xs
  unfolding pick
  pick-Member ref offset xs r e = elim (Option-cases (first_from ref xs)) [
    | inl absent ↦ (length xs - 1, rw (absent, pick) at e)
    | inr (idx, found) ↦ (target_index idx offset (length xs), rw (found, pick) at e)
  ]

  pick_mono :
      (ref : ℕ) (o p : ℤ) (xs : List (Dated A)) (r q : Dated A)
      → IsSorted dated_leb xs
      → o ≤ℤ p
      → pick ref o xs ≡ some r
      → pick ref p xs ≡ some q
      → r.0 ≤ q.0
  unfolding pick
  pick_mono ref o p xs r q s h e f = elim (Option-cases (first_from ref xs)) [
    | inl absent ↦
        sorted_mono xs (length xs - 1) (length xs - 1) r q s (omega arith) (rw (absent, pick) at e)
          (rw (absent, pick) at f)
    | inr (idx, found) ↦
        sorted_mono xs (target_index idx o (length xs)) (target_index idx p (length xs)) r q s
          (target_index_mono idx o p (length xs) h) (rw (found, pick) at e) (rw (found, pick) at f)
  ]

  -- The same of unsorted items.
  choose-sorted : (xs : List (Dated A)) → IsSorted dated_leb (sorted dated_leb xs)
  choose-sorted xs = sorted-IsSorted dated_leb dated_leb-total dated_leb_trans xs

  pub choose-IsEarliest :
      (ref : ℕ) (xs : List (Dated A)) (r : Dated A)
      → choose ref (pos 0) xs ≡ some r
      → Member r xs × All (λ x. IsEarliest ref r.0 x.0) xs
  unfolding choose
  choose-IsEarliest ref xs r e = (
    Member-of_sorted dated_leb r xs (pick-Member ref (pos 0) (sorted dated_leb xs) r e),
    All-of_sorted dated_leb _ xs (pick-IsEarliest ref (sorted dated_leb xs) r (choose-sorted xs) e),
  )

  pub choose_mono :
      (ref : ℕ) (o p : ℤ) (xs : List (Dated A)) (r q : Dated A)
      → o ≤ℤ p
      → choose ref o xs ≡ some r
      → choose ref p xs ≡ some q
      → r.0 ≤ q.0
  unfolding choose
  choose_mono ref o p xs r q h = pick_mono ref o p (sorted dated_leb xs) r q (choose-sorted xs) h

  pub choose_total :
      (ref : ℕ) (offset : ℤ) (xs : List (Dated A))
      → 0 < length xs
      → (r : Dated A) × (choose ref offset xs ≡ some r)
  unfolding choose
  choose_total ref offset xs h =
      pick_total ref offset (sorted dated_leb xs) (rw (length-sorted dated_leb xs) h)

  pub choose-Member :
      (ref : ℕ) (offset : ℤ) (xs : List (Dated A)) (r : Dated A)
      → choose ref offset xs ≡ some r
      → Member r xs
  unfolding choose
  choose-Member ref offset xs r e =
      Member-of_sorted dated_leb r xs (pick-Member ref offset (sorted dated_leb xs) r e)
