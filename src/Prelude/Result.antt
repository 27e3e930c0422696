-- ===== src/Prelude/Result.antt =====
-- What a Python call gives: a value, or the exception that it raises.
use Prim.Native.Nat.{ℕ, zero, suc}
use mathlib.Core.Path.{◌≡◌, refl, ap, subst}
use mathlib.Core.Option.{some}
use mathlib.Core.Bool.{Bool, true, false}
use mathlib.Core.List.{List, [], ◌∷◌}
use odg_core.Prelude.Lists.{All, Member, get_elem?, length}

-- The classes of exceptions that the modelled code raises.
pub data Raised : Type 0 where
  value_error key_error type_error overflow_error attribute_error : Raised
  unbound_local_error index_error model_validation_error : Raised
  api_exception runtime_error zero_division_error : Raised
  http_unauthorized http_forbidden http_not_implemented http_internal_server_error : Raised
  jwt_error regex_error : Raised

pub data Result {ℓ} (A : Type ℓ) : Type ℓ where
  err : Raised → Result A
  ok : A → Result A

-- `if condition: raise e`
abbrev pub raise_if : Bool → Raised → Result (Unit {0})
raise_if false e = ok tt
raise_if true e = err e

-- A statement that may raise, and what follows it.
infixl 5 ◌>>=◌ ◌>>◌
abbrev pub ◌>>=◌ {ℓ κ} : {A : Type ℓ} {B : Type κ} → Result A → (A → Result B) → Result B
err raised >>= rest = err raised
ok value >>= rest = rest value

abbrev pub ◌>>◌ {κ} : {B : Type κ} → Result (Unit {0}) → Result B → Result B
statement >> rest = statement >>= λ _. rest

-- `[f(x) for x in xs]`, which stops at the first exception
abbrev pub map_result {ℓ κ} : {A : Type ℓ} {B : Type κ} → (A → Result B) → List A → Result (List B)
map_result f [] = ok []
map_result f (x ∷ xs) = do y ← f x; ys ← map_result f xs; ok (y ∷ ys)

-- What follows a call may be replaced by what gives the same.
pub >>=-ext {ℓ κ} :
    {A : Type ℓ} {B : Type κ} (call : Result A) {rest other : A → Result B}
    → ((value : A) → rest value ≡ other value)
    → (call >>= rest) ≡ (call >>= other)
>>=-ext (err raised) same = refl
>>=-ext (ok value) same = same value

-- Inversion of a successful bind.
pub >>=-eq-ok {ℓ κ} :
    {A : Type ℓ} {B : Type κ} (call : Result A) (rest : A → Result B) {out : B}
    → (call >>= rest) ≡ ok out
    → (value : A) × (call ≡ ok value) × (rest value ≡ ok out)
>>=-eq-ok (err raised) rest e = cc
>>=-eq-ok (ok value) rest e = (value, refl, e)

module _ {ℓ κ} {A : Type ℓ} {B : Type κ} (f : A → Result B) where
  -- What holds of all results holds of the result of every item.
  pub All-map_result {μ} :
      (P : B → Type μ) (xs : List A) (ys : List B)
      → map_result f xs ≡ ok ys
      → All P ys
      → All (λ x. (y : B) × (f x ≡ ok y) × P y) xs
  All-map_result P [] ys e h = tt
  All-map_result P (x ∷ xs) ys e h =
      let (y, hy, rest) = >>=-eq-ok (f x) _ e in
      let (zs, hzs, done) = >>=-eq-ok (map_result f xs) _ rest in
      let same : ys ≡ y ∷ zs = cc in
      let h' : All P (y ∷ zs) = subst (All P) same h in
      ((y, hy, h'.0), All-map_result P xs zs hzs h'.1)

  -- Every result comes from an item.
  pub Member-map_result :
      (xs : List A) (ys : List B) (y : B)
      → map_result f xs ≡ ok ys
      → Member y ys
      → (x : A) × Member x xs × (f x ≡ ok y)
  Member-map_result [] ys y e (i, m) = cc
  Member-map_result (x ∷ xs) ys y e (i, m) =
      let (z, hz, rest) = >>=-eq-ok (f x) _ e in
      let (zs, hzs, done) = >>=-eq-ok (map_result f xs) _ rest in
      let at : get_elem? (z ∷ zs) i ≡ some y = cc in
      place i z zs at hz (Member-map_result xs zs y hzs)
    where
      place :
          (i : ℕ) (z : B) (zs : List B)
          → get_elem? (z ∷ zs) i ≡ some y
          → f x ≡ ok z
          → (Member y zs → (w : A) × Member w xs × (f w ≡ ok y))
          → (w : A) × Member w (x ∷ xs) × (f w ≡ ok y)
      place zero z zs at hz rest = (x, (0, refl), cc)
      place (suc i) z zs at hz rest = let (w, (j, p), q) = rest (i, at) in (w, (suc j, p), q)

  pub map_result_total :
      (xs : List A)
      → All (λ x. (y : B) × (f x ≡ ok y)) xs
      → (ys : List B) × (map_result f xs ≡ ok ys) × (length ys ≡ length xs)
  map_result_total [] h = ([], refl, refl)
  map_result_total (x ∷ xs) ((y, e), h) =
      let (ys, e', n) = map_result_total xs h in (y ∷ ys, rw (e, e'), ap suc n)
