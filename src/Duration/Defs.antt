-- ===== src/Duration/Defs.antt =====
-- src/util.py: `convert_to_timedelta`. A `timedelta` is its number of seconds.
use Prim.Native.Nat.{◌^◌}
use odg_core.Prelude.{
  ℕ, zero, suc, ◌+◌, ◌-◌, ◌*◌, ◌/◌, ◌%◌, Bool, true, false, not, ◌&&◌, ◌||◌, [], ◌∷◌, ltb, leb,
  is_empty, if◌then◌else◌, ◌==◌ as nat_eq,
}
use odg_core.Prelude.Int.{ℤ, pos, negsuc}
use odg_core.Prelude.Result.{Result, ok, err, Raised, ◌>>=◌}
use odg_core.Prelude.Text.{Text, text, ◌==◌}

abbrev pub is_digit : ℕ → Bool
is_digit c = leb b'0' c && leb c b'9'

-- The spaces of ASCII and Latin-1, by `str.isspace`.
abbrev pub is_space : ℕ → Bool
is_space c = leb 9 c && leb c 13 || (leb 28 c && leb c 32 || (nat_eq c 0x85 || nat_eq c 0xa0))

-- What `[a-z]` matches with `re.IGNORECASE`.
abbrev pub is_letter : ℕ → Bool
is_letter c =
    leb b'a' c && leb c b'z'
    || (leb b'A' c && leb c b'Z'
        || (nat_eq c 0x130 || (nat_eq c 0x131 || (nat_eq c 0x17f || nat_eq c 0x212a))))

-- The longest beginning that passes the test, and the rest: a greedy group of a regular expression.
unfoldable pub span : (ℕ → Bool) → Text → Text × Text
span p [] = ([], [])
span p (c ∷ s) = let (a, b) = span p s in elim (p c) [ true ↦ (c ∷ a, b) | false ↦ ([], c ∷ s) ]

unfoldable pub strip_right : Text → Text
strip_right [] = []
strip_right (c ∷ s) =
    let rest = strip_right s in if is_empty rest && is_space c then [] else c ∷ rest

-- `s.strip()`
unfoldable pub strip : Text → Text
unfolding span strip_right
strip s = strip_right (span is_space s).1

-- The number that a run of digits stands for.
unfoldable pub decimal_from : ℕ → Text → ℕ
decimal_from acc [] = acc
decimal_from acc (c ∷ s) = decimal_from (acc * 10 + (c - 48)) s

-- Digits with single underscores between them, as `int` reads them; `first` says that a digit has
-- to come next.
int_digits : Bool → ℕ → Text → Result ℕ
int_digits first acc [] = if first then err Raised.value_error else ok acc
int_digits first acc (c ∷ s) =
    let next = int_digits (nat_eq c b'_') (if nat_eq c b'_' then acc else acc * 10 + (c - 48)) s in
    if is_digit c || (nat_eq c b'_' && not first) then next else err Raised.value_error

abbrev negate : ℕ → ℤ
negate zero = pos 0
negate (suc n) = negsuc n

signed_int : Text → Result ℤ
unfolding int_digits
signed_int [] = err Raised.value_error
signed_int (c ∷ s) =
    if nat_eq c b'-'
    then (do n ← int_digits true 0 s; ok (negate n))
    else if nat_eq c b'+'
    then (do n ← int_digits true 0 s; ok (pos n))
    else (do n ← int_digits true 0 (c ∷ s); ok (pos n))

-- `int(s)`
unfoldable pub parse_int : Text → Result ℤ
unfolding signed_int strip
parse_int s = signed_int (strip s)

-- `seconds_per_unit`
unfoldable pub unit_seconds : Text → Result ℕ
unfolding ◌==◌
unit_seconds u =
    if u == text "s" || u == text "sec"
    then ok 1
    else if u == text "m" || u == text "min"
    then ok 60
    else if u == text "h" || u == text "hr"
    then ok 3600
    else if u == text "d"
    then ok 86400
    else if u == text "w"
    then ok 604800
    else if u == text "y" || u == text "yr"
    then ok 31536000
    else err Raised.key_error

-- A `timedelta` has fewer than 10 ^ 9 days either way.
abbrev timedelta_limit : ℕ
timedelta_limit = 86400 * 10 ^ 9

abbrev pub scale : ℤ → ℕ → ℤ
scale (pos n) k = pos (n * k)
scale (negsuc n) k = negate (suc n * k)

-- `datetime.timedelta(seconds=seconds)`
unfoldable pub timedelta : ℤ → Result ℤ
timedelta (pos n) = if ltb n timedelta_limit then ok (pos n) else err Raised.overflow_error
timedelta (negsuc n) =
    if ltb n (timedelta_limit - 86400) then ok (negsuc n) else err Raised.overflow_error

-- The groups of `([0-9]+)\s*([a-z]*)` on the stripped text, with no digits where it does not match.
unfoldable pub match_groups : Text → Text × Text
unfolding span strip
match_groups time =
    let (digits, rest) = span is_digit (strip time) in
    (digits, (span is_letter (span is_space rest).1).0)

-- `int(time) * seconds_per_unit[unit or default_unit]` as a `timedelta`. Without a match `time` is
-- the whole text and there is no unit.
unfoldable pub amount : Text → Text → Text × Text → Result ℤ
unfolding decimal_from parse_int unit_seconds timedelta
amount time default_unit (digits, unit) =
    if is_empty digits
    then (do n ← parse_int time; seconds ← unit_seconds default_unit; timedelta (scale n seconds))
    else (do
      seconds ← unit_seconds (if is_empty unit then default_unit else unit)
      timedelta (pos (decimal_from 0 digits * seconds)))

-- `convert_to_timedelta`, given `str(time)`
unfoldable pub convert_to_timedelta : Text → Text → Result ℤ
unfolding match_groups amount
convert_to_timedelta time default_unit = amount time default_unit (match_groups time)

-- The default of the parameter `default_unit`
abbrev pub days_unit : Text
days_unit = text "d"

-- `str(n)` for a number that is not negative
unfoldable pub print_from : ℕ → ℕ → Text → Text
print_from zero n out = out
print_from (suc fuel) n out =
    let out' = (48 + n % 10) ∷ out in
    let rest = print_from fuel (n / 10) out' in if ltb n 10 then out' else rest

-- Each round drops a digit, so `n + 1` rounds are enough.
unfoldable pub print_ℕ : ℕ → Text
unfolding print_from
print_ℕ n = print_from (suc n) n []

-- `str(n)`
unfoldable pub print_ℤ : ℤ → Text
unfolding print_ℕ
print_ℤ (pos n) = print_ℕ n
print_ℤ (negsuc n) = b'-' ∷ print_ℕ (suc n)
