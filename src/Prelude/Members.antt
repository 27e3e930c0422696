-- ===== src/Prelude/Members.antt =====
-- Which items stand in a list that is searched or filtered.
use Prim.Native.Nat.{zero, suc}
use mathlib.Core.Path.{◌≡◌, refl, ap, ◌∙◌}
use mathlib.Core.Logic.{inl, inr}
use mathlib.Core.Bool.{Bool, true}
use mathlib.Core.List.{List, [], ◌∷◌}
use native.Mathlib.Omega.{arith}
use odg_core.Prelude.Tests.{Bool-cases}
use odg_core.Prelude.Lists.{All, All-of_Member, All-select-true, All→Member, Member, any, select}

pub Member-there {ℓ} : {A : Type ℓ} (x a : A) (xs : List A) → Member a xs → Member a (x ∷ xs)
Member-there x a xs (i, e) = (suc i, e)

pub any→Member {ℓ} :
    {A : Type ℓ} (p : A → Bool) (xs : List A)
    → any p xs ≡ true
    → (a : A) × Member a xs × (p a ≡ true)
unfolding any
any→Member p [] h = cc
any→Member p (x ∷ xs) h = elim (Bool-cases (p x)) [
  | inl holds ↦ (x, (0, refl), holds)
  | inr fails ↦
      let rest : any p xs ≡ true = ground arith in
      let (a, m, e) = any→Member p xs rest in (a, Member-there x a xs m, e)
]

pub Member→any {ℓ} :
    {A : Type ℓ} (p : A → Bool) (xs : List A) (a : A) → Member a xs → p a ≡ true → any p xs ≡ true
unfolding any
Member→any p [] a (i, e) h = cc
Member→any p (x ∷ xs) a (zero, e) h =
    let same : x ≡ a = cc in let yes : p x ≡ true = ap p same ∙ h in rw yes refl
Member→any p (x ∷ xs) a (suc i, e) h = let rest = Member→any p xs a (i, e) h in ground arith

pub All-select {ℓ κ} :
    {A : Type ℓ} (P : A → Type κ) (p : A → Bool) (xs : List A) → All P xs → All P (select p xs)
unfolding select
All-select P p [] h = tt
All-select P p (x ∷ xs) h = elim (Bool-cases (p x)) [
  | inl kept ↦ rw (select, kept) (h.0, All-select P p xs h.1)
  | inr dropped ↦ rw (select, dropped) (All-select P p xs h.1)
]

pub Member-of_select {ℓ} :
    {A : Type ℓ} (p : A → Bool) (xs : List A) (a : A)
    → Member a (select p xs)
    → Member a xs × (p a ≡ true)
Member-of_select p xs a member = (
  All→Member (λ b. Member b xs) (select p xs) a
      (All-select (λ b. Member b xs) p xs (All-of_Member (λ b. Member b xs) xs (λ b m. m))) member,
  All→Member (λ b. p b ≡ true) (select p xs) a (All-select-true p xs) member,
)

pub Member-select {ℓ} :
    {A : Type ℓ} (p : A → Bool) (xs : List A) (a : A)
    → Member a xs
    → p a ≡ true
    → Member a (select p xs)
unfolding select
Member-select p [] a (i, e) h = cc
Member-select p (x ∷ xs) a (zero, e) h =
    let same : x ≡ a = cc in let kept : p x ≡ true = ap p same ∙ h in rw (select, kept) (0, e)
Member-select p (x ∷ xs) a (suc i, e) h =
    let (j, f) = Member-select p xs a (i, e) h in
    elim (Bool-cases (p x)) [
      | inl kept ↦ rw (select, kept) (suc j, f)
      | inr dropped ↦ rw (select, dropped) (j, f)
    ]
