-- ===== src/Prelude/Text.antt =====
-- Python's `str` as the list of its code points, with the operations that the program walks over.
use Prim.Native.Nat.{ℕ}
use Prim.Native.Char.{code}
use Prim.Native.String.{String}
use mathlib.Core.Path.{◌≡◌, refl, ap}
use mathlib.Core.Bool.{Bool, true, false, ◌&&◌}
use mathlib.Core.List.{List, [], ◌∷◌, ◌++◌}
use mathlib.Core.Option.{Option, none, some}
use native.Mathlib.Omega.{arith}
use odg_core.Prelude.Tests.{◌==◌ as nat_eq, ltb, if◌then◌else◌}

abbrev pub Text : Type 0
Text = List ℕ

-- The text that a literal stands for. `String` has its own `[]` and `∷`.
abbrev pub text : String → Text
text String.[] = []
text (String.◌∷◌ c s) = code c ∷ text s

infix 50 ◌==◌
unfoldable pub ◌==◌ : Text → Text → Bool
[] == [] = true
[] == (y ∷ ys) = false
(x ∷ xs) == [] = false
(x ∷ xs) == (y ∷ ys) = nat_eq x y && xs == ys

pub eq→path : (s t : Text) → (s == t) ≡ true → s ≡ t
unfolding ◌==◌
eq→path [] [] h = refl
eq→path [] (y ∷ ys) h = cc
eq→path (x ∷ xs) [] h = cc
eq→path (x ∷ xs) (y ∷ ys) h = ground (arith, eq→path xs ys)

pub eq_refl : (s : Text) → (s == s) ≡ true
unfolding ◌==◌
eq_refl [] = refl
eq_refl (x ∷ xs) = ground (arith, eq_refl xs)

pub path→eq : (s t : Text) → s ≡ t → (s == t) ≡ true
path→eq s t e = rw e (eq_refl t)

pub eq_comm : (s t : Text) → (s == t) ≡ (t == s)
unfolding ◌==◌
eq_comm [] [] = refl
eq_comm [] (y ∷ ys) = refl
eq_comm (x ∷ xs) [] = refl
eq_comm (x ∷ xs) (y ∷ ys) = ground (arith, eq_comm xs ys)

-- Python's `s <= t`: code point by code point, a prefix first.
unfoldable pub text_leb : Text → Text → Bool
text_leb [] t = true
text_leb (x ∷ xs) [] = false
text_leb (x ∷ xs) (y ∷ ys) =
    let rest = text_leb xs ys in if ltb x y then true else if nat_eq x y then rest else false

pub text_leb_total : (s t : Text) → text_leb s t ≡ false → text_leb t s ≡ true
unfolding text_leb
text_leb_total [] t h = cc
text_leb_total (x ∷ s) [] h = refl
text_leb_total (x ∷ s) (y ∷ t) h = ground (arith, text_leb_total s t)

pub text_leb_trans :
    (s t u : Text) → text_leb s t ≡ true → text_leb t u ≡ true → text_leb s u ≡ true
unfolding text_leb
text_leb_trans [] t u h k = refl
text_leb_trans (x ∷ s) [] u h k = cc
text_leb_trans (x ∷ s) (y ∷ t) [] h k = cc
text_leb_trans (x ∷ s) (y ∷ t) (z ∷ u) h k = ground (arith, text_leb_trans s t u)

-- `t.startswith(p)`
unfoldable pub starts_with : Text → Text → Bool
starts_with [] t = true
starts_with (x ∷ xs) [] = false
starts_with (x ∷ xs) (y ∷ ys) = nat_eq x y && starts_with xs ys

drop_text : Text → Text → Text
drop_text [] t = t
drop_text (x ∷ xs) [] = []
drop_text (x ∷ xs) (y ∷ ys) = drop_text xs ys

-- `t.removeprefix(p)`
unfoldable pub remove_prefix : Text → Text → Text
unfolding starts_with drop_text
remove_prefix p t = if starts_with p t then drop_text p t else t

-- `sep.join(parts)`
unfoldable pub join : Text → List Text → Text
join sep [] = []
join sep (p ∷ []) = p
join sep (p ∷ q ∷ ps) = p ++ (sep ++ join sep (q ∷ ps))

-- The truth value of a `str | None`.
abbrev pub truthy : Option Text → Bool
truthy none = false
truthy (some []) = false
truthy (some (c ∷ s)) = true

-- `s == t` on values of type `str | None`
unfoldable pub opt_eq : Option Text → Option Text → Bool
unfolding ◌==◌
opt_eq none none = true
opt_eq none (some t) = false
opt_eq (some s) none = false
opt_eq (some s) (some t) = s == t

pub opt_eq_refl : (s : Option Text) → opt_eq s s ≡ true
unfolding opt_eq
opt_eq_refl none = refl
opt_eq_refl (some s) = eq_refl s

pub opt_eq→path : (s t : Option Text) → opt_eq s t ≡ true → s ≡ t
unfolding opt_eq
opt_eq→path none none h = refl
opt_eq→path none (some t) h = cc
opt_eq→path (some s) none h = cc
opt_eq→path (some s) (some t) h = ap some (eq→path s t h)
