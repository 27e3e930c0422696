-- ===== src/Crypto/Standards.antt =====
-- src/crypto_extension/config.py: what a standard allows. The names of algorithms, which are declared
-- as `str | None`, are given: `re.fullmatch` raises TypeError for `None`, which is left out.
use odg_core.Prelude.{Bool, true, false, not, ◌&&◌, ◌||◌, Option, none, some, List, any, is_empty}
use odg_core.Prelude.Int.{ℤ, ltb_ℤ, leb_ℤ}
use odg_core.Prelude.Text.{Text}
use odg_core.Finding.{is_zero_ℤ}
use odg_core.Crypto.Assets.{CertificateKind}

pub record MinMaxEnumProperties : Type 0 where
  pub enum : List ℤ
  pub min : Option ℤ
  pub max : Option ℤ

abbrev is_some {ℓ} : {A : Type ℓ} → Option A → Bool
is_some none = false
is_some (some a) = true

abbrev pub eq_ℤ : ℤ → ℤ → Bool
eq_ℤ a b = leb_ℤ a b && leb_ℤ b a

-- `limit and value < limit`, and the same with `>`: `None` and 0 are false
abbrev is_under : Option ℤ → ℤ → Bool
is_under none value = false
is_under (some limit) value = not (is_zero_ℤ limit) && ltb_ℤ value limit

abbrev is_over : Option ℤ → ℤ → Bool
is_over none value = false
is_over (some limit) value = not (is_zero_ℤ limit) && ltb_ℤ limit value

-- `MinMaxEnumProperties.check_value`; a missing list of values is like an empty one.
unfoldable pub check_value : MinMaxEnumProperties → Option ℤ → Bool
unfolding any
check_value p none = not (not (is_empty p.enum) || (is_some p.min || is_some p.max))
check_value p (some value) =
    not (not (is_empty p.enum) && not (any (eq_ℤ value) p.enum))
    && (not (is_under p.min value) && not (is_over p.max value))

pub record CryptoLibrary : Type 0 where
  pub name : Text
  pub versions : List Text

pub record SymmetricAlgorithm : Type 0 where
  pub name : Text
  pub properties : List MinMaxEnumProperties

pub record AsymmetricAlgorithmProperties : Type 0 where
  pub key_length : Option MinMaxEnumProperties
  pub curves : List Text

pub record AsymmetricAlgorithm : Type 0 where
  pub name : Text
  pub properties : List AsymmetricAlgorithmProperties

pub record HashFunction : Type 0 where
  pub name : Text
  pub properties : List MinMaxEnumProperties

pub record CertificateDefinition : Type 0 where
  pub kind : CertificateKind
  pub curves : List Text
  pub key_length : Option MinMaxEnumProperties
  pub validity_years : Option MinMaxEnumProperties

-- `Standard` with the lists of its `libraries`, `primitives` and `public_key_infrastructure`.
pub record Standard : Type 0 where
  pub name : Text
  pub validated_crypto_libraries : List CryptoLibrary
  pub symmetric_algorithms : List SymmetricAlgorithm
  pub asymmetric_algorithms : List AsymmetricAlgorithm
  pub hash_functions : List HashFunction
  pub certificates : List (List CertificateDefinition)
