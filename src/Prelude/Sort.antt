-- ===== src/Prelude/Sort.antt =====
-- Python's `sorted`: stable, so items with equal keys keep their order. `le a b` says that `a` may
-- stand before `b`; `reverse=True` turns the comparison round and stays stable.
use Prim.Native.Nat.{ℕ, zero, suc}
use mathlib.Core.Path.{◌≡◌, refl, ap}
use mathlib.Core.Logic.{◌⊎◌, inl, inr}
use mathlib.Core.Bool.{Bool, true, false}
use mathlib.Core.Option.{some}
use mathlib.Core.List.Perm
use mathlib.Core.List.{List, [], ◌∷◌, Perm}
use native.Mathlib.Omega.{arith}
use odg_core.Prelude.Tests.{Bool-cases}
use odg_core.Prelude.Lists.{All, All-map_of, Member, get_elem?, length}

module _ {ℓ} {A : Type ℓ} (le : A → A → Bool) where
  unfoldable pub insert_sorted : A → List A → List A
  insert_sorted a [] = a ∷ []
  insert_sorted a (x ∷ xs) = elim (le a x) [ true ↦ a ∷ x ∷ xs | false ↦ x ∷ insert_sorted a xs ]

  unfoldable pub sorted : List A → List A
  unfolding insert_sorted
  sorted [] = []
  sorted (x ∷ xs) = insert_sorted x (sorted xs)

  -- Every item may stand before all items behind it.
  abbrev pub IsSorted : List A → Type ℓ
  IsSorted [] = Unit
  IsSorted (x ∷ xs) = All (λ y. le x y ≡ true) xs × IsSorted xs

  insert_sorted-perm : (a : A) (xs : List A) → Perm (insert_sorted a xs) (a ∷ xs)
  unfolding insert_sorted
  insert_sorted-perm a [] = Perm.rfl
  insert_sorted-perm a (x ∷ xs) = elim (Bool-cases (le a x)) [
    | inl e ↦ rw (e, insert_sorted) Perm.rfl
    | inr e ↦
        rw (e, insert_sorted)
          (Perm.trans (Perm.cons x (insert_sorted-perm a xs)) (Perm.swap a x xs))
  ]

  -- Sorting only changes the order.
  pub sorted-perm : (xs : List A) → Perm (sorted xs) xs
  unfolding sorted
  sorted-perm [] = Perm.rfl
  sorted-perm (x ∷ xs) =
      Perm.trans (insert_sorted-perm x (sorted xs)) (Perm.cons x (sorted-perm xs))

  All-insert_sorted {κ} :
      (P : A → Type κ) (a : A) (xs : List A) → P a → All P xs → All P (insert_sorted a xs)
  unfolding insert_sorted
  All-insert_sorted P a [] p h = (p, tt)
  All-insert_sorted P a (x ∷ xs) p h = elim (Bool-cases (le a x)) [
    | inl e ↦ rw (e, insert_sorted) (p, (h.0, h.1))
    | inr e ↦ rw (e, insert_sorted) (h.0, All-insert_sorted P a xs p h.1)
  ]

  pub All-sorted {κ} : (P : A → Type κ) (xs : List A) → All P xs → All P (sorted xs)
  unfolding sorted
  All-sorted P [] h = tt
  All-sorted P (x ∷ xs) h = All-insert_sorted P x (sorted xs) h.0 (All-sorted P xs h.1)

  All-of_insert_sorted {κ} :
      (P : A → Type κ) (a : A) (xs : List A) → All P (insert_sorted a xs) → P a × All P xs
  unfolding insert_sorted
  All-of_insert_sorted P a [] h = h
  All-of_insert_sorted P a (x ∷ xs) h = elim (Bool-cases (le a x)) [
    | inl e ↦ rw (e, insert_sorted) at h
    | inr e ↦
        let h' : P x × All P (insert_sorted a xs) = rw (e, insert_sorted) at h in
        let (p, rest) = All-of_insert_sorted P a xs h'.1 in (p, (h'.0, rest))
  ]

  pub All-of_sorted {κ} : (P : A → Type κ) (xs : List A) → All P (sorted xs) → All P xs
  unfolding sorted
  All-of_sorted P [] h = tt
  All-of_sorted P (x ∷ xs) h =
      let (p, rest) = All-of_insert_sorted P x (sorted xs) h in (p, All-of_sorted P xs rest)

  Member-of_insert_sorted :
      (a y : A) (xs : List A) → Member y (insert_sorted a xs) → (a ≡ y) ⊎ Member y xs
  unfolding insert_sorted
  Member-of_insert_sorted a y [] (zero, e) = inl (cc)
  Member-of_insert_sorted a y [] (suc i, e) = cc
  Member-of_insert_sorted a y (x ∷ xs) (i, e) = elim (Bool-cases (le a x)) [
    | inl t ↦ before i (rw (t, insert_sorted) at e)
    | inr t ↦ after (Member-of_insert_sorted a y xs) i (rw (t, insert_sorted) at e)
  ]
    where
      before : (i : ℕ) → get_elem? (a ∷ x ∷ xs) i ≡ some y → (a ≡ y) ⊎ Member y (x ∷ xs)
      before zero e = inl (cc)
      before (suc i) e = inr (i, e)

      after :
          (Member y (insert_sorted a xs) → (a ≡ y) ⊎ Member y xs)
          → (i : ℕ) → get_elem? (x ∷ insert_sorted a xs) i ≡ some y
          → (a ≡ y) ⊎ Member y (x ∷ xs)
      after rest zero e = inr (0, e)
      after rest (suc i) e = elim (rest (i, e)) [ inl p ↦ inl p | inr (j, q) ↦ inr (suc j, q) ]

  -- What the sorted list holds, the list holds.
  pub Member-of_sorted : (y : A) (xs : List A) → Member y (sorted xs) → Member y xs
  unfolding sorted
  Member-of_sorted y [] m = m
  Member-of_sorted y (x ∷ xs) m = elim (Member-of_insert_sorted x y (sorted xs) m) [
    | inl e ↦ (0, ap some e)
    | inr rest ↦ let (i, e) = Member-of_sorted y xs rest in (suc i, e)
  ]

  length-insert_sorted : (a : A) (xs : List A) → length (insert_sorted a xs) ≡ length (a ∷ xs)
  unfolding insert_sorted
  length-insert_sorted a [] = refl
  length-insert_sorted a (x ∷ xs) = ground (arith, length-insert_sorted a xs)

  pub length-sorted : (xs : List A) → length (sorted xs) ≡ length xs
  unfolding sorted
  length-sorted [] = refl
  length-sorted (x ∷ xs) = ground (arith, length-sorted xs, length-insert_sorted x (sorted xs))

  module _ (total : (a b : A) → le a b ≡ false → le b a ≡ true)
      (trans : (a b c : A) → le a b ≡ true → le b c ≡ true → le a c ≡ true) where
    All-le_of :
        (a x : A) (xs : List A)
        → le a x ≡ true
        → All (λ y. le x y ≡ true) xs
        → All (λ y. le a y ≡ true) xs
    All-le_of a x xs e =
        All-map_of (λ y. le x y ≡ true) (λ y. le a y ≡ true) (λ y. trans a x y e) xs

    insert_sorted-IsSorted : (a : A) (xs : List A) → IsSorted xs → IsSorted (insert_sorted a xs)
    unfolding insert_sorted
    insert_sorted-IsSorted a [] h = (tt, tt)
    insert_sorted-IsSorted a (x ∷ xs) h = elim (Bool-cases (le a x)) [
      | inl e ↦ rw (e, insert_sorted) ((e, All-le_of a x xs e h.0), h)
      | inr e ↦
          rw (e, insert_sorted)
            (
              All-insert_sorted (λ y. le x y ≡ true) a xs (total a x e) h.0,
              insert_sorted-IsSorted a xs h.1,
            )
    ]

    -- For a total and transitive comparison the result is in order.
    pub sorted-IsSorted : (xs : List A) → IsSorted (sorted xs)
    unfolding sorted
    sorted-IsSorted [] = tt
    sorted-IsSorted (x ∷ xs) = insert_sorted-IsSorted x (sorted xs) (sorted-IsSorted xs)
