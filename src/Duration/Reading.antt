-- ===== src/Duration/Reading.antt =====
-- What `convert_to_timedelta` (src/util.py) reads.
use mathlib.Core.List.{append_assoc, append-nil}
use odg_core.Prelude.{
  ℕ, ◌*◌, ◌≡◌, refl, ap, ◌∙◌, true, false, [], ◌∷◌, ◌++◌, arith, All, All-map_of, is_empty,
}
use odg_core.Prelude.Int.{pos}
use odg_core.Prelude.Result.{◌>>=◌}
use odg_core.Prelude.Text.{Text}
use odg_core.Duration.Defs.{
  is_digit, is_space, is_letter, span, strip, unit_seconds, timedelta, match_groups, amount,
  convert_to_timedelta, print_ℕ,
}
use odg_core.Duration.Decimal.{
  decimal_from-print, print-IsDigit, print_nonempty, stops, span-append, strip_bounded,
}

abbrev IsUnit : Text → Type 0
IsUnit u = (is_empty u ≡ false) × All (λ c. is_letter c ≡ true) u

-- Digits and a unit, once they are told apart.
amount-print :
    (unit : Text)
    → is_empty unit ≡ false
    → (n : ℕ) (time default_unit : Text)
    → amount time default_unit (print_ℕ n, unit)
      ≡ (unit_seconds unit >>= λ seconds. timedelta (pos (n * seconds)))
unfolding amount
amount-print unit e n time default_unit = rw (print_nonempty n, e, decimal_from-print n)

-- What stands behind the digits: spaces and a unit.
module _ (spaces unit : Text) (blank : All (λ c. is_space c ≡ true) spaces)
    (named : IsUnit unit) where
  unit_stops : stops is_space unit ≡ true
  unit_stops = first unit named.1
    where
      first : (u : Text) → All (λ c. is_letter c ≡ true) u → stops is_space u ≡ true
      first [] h = refl
      first (c ∷ u) h = let h' : is_letter c ≡ true = h.0 in ground arith

  rest_stops : stops is_digit (spaces ++ unit) ≡ true
  rest_stops = first spaces unit blank named.1
    where
      first :
          (s u : Text)
          → All (λ c. is_space c ≡ true) s
          → All (λ c. is_letter c ≡ true) u
          → stops is_digit (s ++ u) ≡ true
      first [] [] b h = refl
      first [] (c ∷ u) b h = let h' : is_letter c ≡ true = h.0 in ground arith
      first (c ∷ s) u b h = let b' : is_space c ≡ true = b.0 in ground arith

  unit_solid : All (λ c. is_space c ≡ false) unit
  unit_solid = All-map_of (λ c. is_letter c ≡ true) _ (λ c h. ground arith) unit named.1

  number_stops : (n : ℕ) → stops is_space (print_ℕ n ++ (spaces ++ unit)) ≡ true
  number_stops n = first (print_ℕ n) (print-IsDigit n) (print_nonempty n)
    where
      first :
          (s : Text)
          → All (λ c. is_digit c ≡ true) s
          → is_empty s ≡ false
          → stops is_space (s ++ (spaces ++ unit)) ≡ true
      first [] d n = cc
      first (c ∷ s) d n = let d' : is_digit c ≡ true = d.0 in ground arith

  strip-number : (n : ℕ) → strip (print_ℕ n ++ (spaces ++ unit)) ≡ print_ℕ n ++ (spaces ++ unit)
  strip-number n = rw (← append_assoc) (
      strip_bounded (print_ℕ n ++ spaces) unit (rw append_assoc (number_stops n)) unit_solid
        named.0)

  span-unit : (u : Text) → All (λ c. is_letter c ≡ true) u → span is_letter u ≡ (u, [])
  span-unit u h = rw (append-nil u) at (span-append is_letter u [] h refl)

  match_groups-print : (n : ℕ) → match_groups (print_ℕ n ++ (spaces ++ unit)) ≡ (print_ℕ n, unit)
  unfolding match_groups
  match_groups-print n = simp (
    strip-number n,
    span-append is_digit (print_ℕ n) (spaces ++ unit) (print-IsDigit n) rest_stops,
    span-append is_space spaces unit blank unit_stops,
    span-unit unit named.1,
  )

  -- A number with a unit behind it, with or without spaces between the two, is read as that many
  -- units, whatever the default unit is; an unknown unit or too long a time raises.
  pub convert_to_timedelta-print :
      (n : ℕ) (default_unit : Text)
      → convert_to_timedelta (print_ℕ n ++ (spaces ++ unit)) default_unit
        ≡ (unit_seconds unit >>= λ seconds. timedelta (pos (n * seconds)))
  convert_to_timedelta-print n default_unit =
      unfold convert_to_timedelta in
      ap (amount (print_ℕ n ++ (spaces ++ unit)) default_unit) (match_groups-print n)
      ∙ amount-print unit named.0 n (print_ℕ n ++ (spaces ++ unit)) default_unit
