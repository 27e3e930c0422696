-- ===== src/Duration/Decimal.antt =====
-- Decimal numbers: printing and reading back, with the spaces and groups around them.
use odg_core.Prelude.{
  ℕ, zero, suc, ◌+◌, ◌/◌, ◌%◌, ◌<◌, ◌≡◌, refl, ap, ◌∙◌, not, Bool, true, false, inl, inr, [], ◌∷◌,
  ◌++◌, arith, All, is_empty, ltb, Bool-cases,
}
use odg_core.Prelude.Text.{Text}
use odg_core.Duration.Defs.{
  is_digit, is_space, span, strip_right, strip, decimal_from, print_from, print_ℕ,
}

-- Reading a printed number behind what was read so far.
decimal_from-print_from :
    (fuel n : ℕ) (out : Text)
    → n < fuel
    → decimal_from 0 (print_from fuel n out) ≡ decimal_from n out
unfolding decimal_from print_from
decimal_from-print_from zero n out h = absurd (omega arith)
decimal_from-print_from (suc fuel) n out h = elim (Bool-cases (ltb n 10)) [
  | inl small ↦ rw small (ap (λ k. decimal_from k out) (ground arith))
  | inr large ↦ rw large (
      decimal_from-print_from fuel (n / 10) ((48 + n % 10) ∷ out) (ground arith)
      ∙ ap (λ k. decimal_from k out) (ground arith))
]

-- A printed number reads back.
pub decimal_from-print : (n : ℕ) → decimal_from 0 (print_ℕ n) ≡ n
unfolding print_ℕ
decimal_from-print n =
    decimal_from-print_from (suc n) n [] (omega arith) ∙ unfold decimal_from in refl

print_from-IsDigit :
    (fuel n : ℕ) (out : Text)
    → All (λ c. is_digit c ≡ true) out
    → All (λ c. is_digit c ≡ true) (print_from fuel n out)
unfolding print_from
print_from-IsDigit zero n out h = h
print_from-IsDigit (suc fuel) n out h =
    let digit : is_digit (48 + n % 10) ≡ true = ground arith in
    elim (Bool-cases (ltb n 10)) [
      | inl small ↦ rw small (digit, h)
      | inr large ↦ rw large (print_from-IsDigit fuel (n / 10) ((48 + n % 10) ∷ out) (digit, h))
    ]

pub print-IsDigit : (n : ℕ) → All (λ c. is_digit c ≡ true) (print_ℕ n)
unfolding print_ℕ
print-IsDigit n = print_from-IsDigit (suc n) n [] tt

print_from_cons : (fuel n : ℕ) (c : ℕ) (out : Text) → is_empty (print_from fuel n (c ∷ out)) ≡ false
unfolding print_from
print_from_cons zero n c out = refl
print_from_cons (suc fuel) n c out = elim (Bool-cases (ltb n 10)) [
  | inl small ↦ rw small
  | inr large ↦ rw large (print_from_cons fuel (n / 10) (48 + n % 10) (c ∷ out))
]

-- It has a digit at least.
pub print_nonempty : (n : ℕ) → is_empty (print_ℕ n) ≡ false
unfolding print_ℕ print_from
print_nonempty n = elim (Bool-cases (ltb n 10)) [
  | inl small ↦ rw small
  | inr large ↦ rw large (print_from_cons n (n / 10) (48 + n % 10) [])
]

-- Nothing follows, or something that fails the test.
abbrev pub stops : (ℕ → Bool) → Text → Bool
stops p [] = true
stops p (c ∷ s) = not (p c)

-- A group takes all that passes its test, up to a character that does not.
pub span-append :
    (p : ℕ → Bool) (s t : Text)
    → All (λ c. p c ≡ true) s
    → stops p t ≡ true
    → span p (s ++ t) ≡ (s, t)
unfolding span
span-append p [] [] h e = refl
span-append p [] (c ∷ t) h e = ground arith
span-append p (c ∷ s) t h e = ground (arith, span-append p s t h.1 e)

strip_right_solid : (s : Text) → All (λ c. is_space c ≡ false) s → strip_right s ≡ s
unfolding strip_right
strip_right_solid [] h = refl
strip_right_solid (c ∷ s) h = ground (arith, strip_right_solid s h.1)

strip_right_last :
    (s t : Text)
    → All (λ c. is_space c ≡ false) t
    → is_empty t ≡ false
    → strip_right (s ++ t) ≡ s ++ t
unfolding strip_right
strip_right_last [] t h n = strip_right_solid t h
strip_right_last (c ∷ s) t h n = ground (arith, strip_right_last s t h n, nonempty s)
  where
    nonempty : (s : Text) → is_empty (s ++ t) ≡ false
    nonempty [] = n
    nonempty (d ∷ s) = refl

-- Nothing is stripped from a text whose ends are no spaces.
pub strip_bounded :
    (s t : Text)
    → stops is_space (s ++ t) ≡ true
    → All (λ c. is_space c ≡ false) t
    → is_empty t ≡ false
    → strip (s ++ t) ≡ s ++ t
unfolding strip
strip_bounded s t e h n =
    ap (λ (r : Text × Text). strip_right r.1) (span-append is_space [] (s ++ t) tt e)
    ∙ strip_right_last s t h n
