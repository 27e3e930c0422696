-- ===== src/Crypto/Allowing.antt =====
-- Which algorithms a standard allows, in terms of its definitions (src/crypto_extension/validate.py).
use odg_core.Prelude.{
  ◌≡◌, refl, ap, Bool, true, false, not, ◌&&◌, ◌||◌, Option, none, some, List, [], ◌∷◌, ◌++◌, map,
  arith, any, All, is_empty,
}
use odg_core.Prelude.Text.{Text, ◌==◌}
use odg_core.Cvss.{split}
use odg_core.Crypto.Assets.{Primitives, AlgorithmProperties}
use odg_core.Crypto.Standards.{
  MinMaxEnumProperties, Standard, SymmetricAlgorithm, AsymmetricAlgorithm,
  AsymmetricAlgorithmProperties, HashFunction, check_value,
}
use odg_core.Crypto.Requirements.{ActualValue, Requirement, is_within}
use odg_core.Crypto.Algorithms.{curve_requirements, key_length_requirements}
use odg_core.Crypto.Unmet.{IsStated, all_hold, is_allowed, fulfils, offers}

-- A curve is allowed by an empty list, or as a member of the list.
unfoldable pub allows_curve : List Text → Option Text → Bool
unfolding any ◌==◌
allows_curve [] curve = true
allows_curve (c ∷ cs) none = false
allows_curve (c ∷ cs) (some curve) = any (λ t. curve == t) (c ∷ cs)

unfoldable pub allows_length : Option MinMaxEnumProperties → ActualValue → Bool
unfolding check_value
allows_length none actual = true
allows_length (some limits) actual = is_within limits actual

pub any-map {ℓ κ} :
    {A : Type ℓ} {B : Type κ} (p : B → Bool) (q : A → Bool) (f : A → B)
    → ((a : A) → p (f a) ≡ q a)
    → (xs : List A) → any p (map f xs) ≡ any q xs
unfolding any
any-map p q f same [] = refl
any-map p q f same (x ∷ xs) = rw (same x, any-map p q f same xs) refl

is_empty-map {ℓ κ} :
    {A : Type ℓ} {B : Type κ} (f : A → B) (xs : List A) → is_empty (map f xs) ≡ is_empty xs
is_empty-map f [] = refl
is_empty-map f (x ∷ xs) = refl

pub All-map {ℓ κ μ} :
    {A : Type ℓ} {B : Type κ} (P : B → Type μ) (f : A → B)
    → ((a : A) → P (f a))
    → (xs : List A) → All P (map f xs)
All-map P f h [] = tt
All-map P f h (x ∷ xs) = (h x, All-map P f h xs)

pub All-always {ℓ μ} : {A : Type ℓ} (P : A → Type μ) → ((a : A) → P a) → (xs : List A) → All P xs
All-always P h [] = tt
All-always P h (x ∷ xs) = (h x, All-always P h xs)

any_never {ℓ} : {A : Type ℓ} (xs : List A) → any (λ x. false) xs ≡ false
unfolding any
any_never [] = refl
any_never (x ∷ xs) = any_never xs

pub curve_requirements-all_hold :
    (curves : List Text) (curve : Option Text) (limits : Option MinMaxEnumProperties)
    (actual : ActualValue)
    → all_hold (curve_requirements curves curve ++ key_length_requirements limits actual)
      ≡ (allows_curve curves curve && allows_length limits actual)
unfolding any allows_curve allows_length
curve_requirements-all_hold [] curve none actual = refl
curve_requirements-all_hold [] curve (some limits) actual = ground arith
curve_requirements-all_hold (c ∷ cs) none none actual = ground (arith, any_never cs)
curve_requirements-all_hold (c ∷ cs) none (some limits) actual = ground (arith, any_never cs)
curve_requirements-all_hold (c ∷ cs) (some t) none actual = ground arith
curve_requirements-all_hold (c ∷ cs) (some t) (some limits) actual = ground arith

pub curve_requirements-IsStated :
    (curves : List Text) (curve : Option Text) (limits : Option MinMaxEnumProperties)
    (actual : ActualValue)
    → All IsStated (curve_requirements curves curve ++ key_length_requirements limits actual)
curve_requirements-IsStated [] curve none actual = tt
curve_requirements-IsStated [] curve (some limits) actual = (tt, tt)
curve_requirements-IsStated (c ∷ cs) curve none actual = (tt, tt)
curve_requirements-IsStated (c ∷ cs) curve (some limits) actual = (tt, (tt, tt))

module _ (fullmatch_ignore_case : Text → Text → Bool) (standard : Standard) where
  -- A definition of the name allows the key length, or none of them has any properties.
  unfoldable pub allows_symmetric : Text → ActualValue → Bool
  unfolding any check_value
  allows_symmetric name key_length =
      let named : SymmetricAlgorithm → Bool = λ d. fullmatch_ignore_case d.name name in
      any named standard.symmetric_algorithms
      && (any (λ d. named d && any (λ p. is_within p key_length) d.properties)
            standard.symmetric_algorithms
          || not (any (λ d. named d && not (is_empty d.properties)) standard.symmetric_algorithms))

  unfoldable pub allows_hash : Text → ActualValue → Bool
  unfolding any check_value
  allows_hash name output_size =
      let named : HashFunction → Bool = λ d. fullmatch_ignore_case d.name name in
      any named standard.hash_functions
      && (any (λ d. named d && any (λ p. is_within p output_size) d.properties)
            standard.hash_functions
          || not (any (λ d. named d && not (is_empty d.properties)) standard.hash_functions))

  unfoldable pub allows_asymmetric : Text → ActualValue → Option Text → Bool
  unfolding any allows_curve allows_length
  allows_asymmetric name key_length curve =
      let named : AsymmetricAlgorithm → Bool = λ d. fullmatch_ignore_case d.name name in
      any named standard.asymmetric_algorithms
      && (any
            (λ d.
              named d
              && any
                  (λ (p : AsymmetricAlgorithmProperties).
                    allows_curve p.curves curve && allows_length p.key_length key_length)
                  d.properties)
            standard.asymmetric_algorithms
          || not (any (λ d. named d && not (is_empty d.properties)) standard.asymmetric_algorithms))

  -- A part of the name between dashes names an asymmetric algorithm, and one a hash function.
  unfoldable pub name_asymmetric : List Text → Bool
  unfolding any
  name_asymmetric parts =
      any
        (λ part.
          any (λ (d : AsymmetricAlgorithm). fullmatch_ignore_case d.name part)
            standard.asymmetric_algorithms)
        parts

  unfoldable pub name_hash : List Text → Bool
  unfolding any
  name_hash parts =
      any
        (λ part.
          any (λ (d : HashFunction). fullmatch_ignore_case d.name part) standard.hash_functions)
        parts

  unfoldable pub allows_signature : Text → Bool
  unfolding name_asymmetric name_hash split
  allows_signature name = name_asymmetric (split b'-' name) && name_hash (split b'-' name)

  -- What the standard says of an algorithm by its primitive; other primitives are not looked at.
  unfoldable pub allows_by : Option Primitives → AlgorithmProperties → ActualValue → Bool
  unfolding allows_symmetric allows_asymmetric allows_hash allows_signature
  allows_by (some Primitives.block_cipher) p parameters = allows_symmetric p.name parameters
  allows_by (some Primitives.pke) p parameters = allows_asymmetric p.name parameters p.curve
  allows_by (some Primitives.hash) p parameters = allows_hash p.name parameters
  allows_by (some Primitives.signature) p parameters = allows_signature p.name
  allows_by _ p parameters = true

  unfoldable pub allows : AlgorithmProperties → ActualValue → Bool
  unfolding allows_by
  allows p parameters = allows_by p.primitive p parameters

pub any-ext {ℓ} :
    {A : Type ℓ} (p q : A → Bool) → ((a : A) → p a ≡ q a) → (xs : List A) → any p xs ≡ any q xs
unfolding any
any-ext p q same [] = refl
any-ext p q same (x ∷ xs) = rw (same x, any-ext p q same xs) refl

-- The search in terms of the properties of the definitions.
pub is_allowed-map {ℓ κ} :
    {D : Type ℓ} {P : Type κ} (matches : D → Bool) (properties : D → List P)
    (requirements : P → List Requirement) (allowed : P → Bool)
    → ((p : P) → all_hold (requirements p) ≡ allowed p)
    → (ds : List D)
    → is_allowed matches (λ d. map requirements (properties d)) ds ≡ (
        any matches ds
        && (any (λ d. matches d && any allowed (properties d)) ds
            || not (any (λ d. matches d && not (is_empty (properties d))) ds)))
unfolding any
is_allowed-map matches properties requirements allowed same ds =
    rw
      (
        any-ext (fulfils matches (λ d. map requirements (properties d)))
            (λ d. matches d && any allowed (properties d))
            (λ d.
              ap (λ b. matches d && b) (any-map all_hold allowed requirements same (properties d)))
            ds,
        any-ext (offers matches (λ d. map requirements (properties d)))
            (λ d. matches d && not (is_empty (properties d)))
            (λ d. ap (λ b. matches d && not b) (is_empty-map requirements (properties d))) ds,
      )
      refl
