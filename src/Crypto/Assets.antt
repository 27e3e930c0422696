-- ===== src/Crypto/Assets.antt =====
-- src/odg/model.py: cryptographic assets and the findings on them.
use odg_core.Prelude.{Option, none, some, List, [], ◌∷◌}
use odg_core.Prelude.Int.{ℤ}
use odg_core.Prelude.Text.{Text, text}
use odg_core.Artefact.{as_key}
use odg_core.Duration.{print_ℤ}

pub data CryptoAssetTypes : Type 0 where
  algorithm certificate library protocol related_crypto_material : CryptoAssetTypes

abbrev asset_type_value : CryptoAssetTypes → Text
asset_type_value CryptoAssetTypes.algorithm = text "algorithm"
asset_type_value CryptoAssetTypes.certificate = text "certificate"
asset_type_value CryptoAssetTypes.library = text "library"
asset_type_value CryptoAssetTypes.protocol = text "protocol"
asset_type_value CryptoAssetTypes.related_crypto_material = text "related-crypto-material"

pub data Primitives : Type 0 where
  block_cipher hash kdf key_agree mac pke signature stream_cipher : Primitives

abbrev primitive_value : Primitives → Text
primitive_value Primitives.block_cipher = text "block-cipher"
primitive_value Primitives.hash = text "hash"
primitive_value Primitives.kdf = text "kdf"
primitive_value Primitives.key_agree = text "key-agree"
primitive_value Primitives.mac = text "mac"
primitive_value Primitives.pke = text "pke"
primitive_value Primitives.signature = text "signature"
primitive_value Primitives.stream_cipher = text "stream-cipher"

pub record AlgorithmProperties : Type 0 where
  pub name : Text
  pub primitive : Option Primitives
  pub parameter_set_identifier : Option Text
  pub curve : Option Text
  pub padding : Option Text

pub data CertificateKind : Type 0 where
  root_ca intermediate_ca end_user : CertificateKind

abbrev pub kind_value : CertificateKind → Text
kind_value CertificateKind.root_ca = text "root-ca"
kind_value CertificateKind.intermediate_ca = text "intermediate-ca"
kind_value CertificateKind.end_user = text "end-user"

pub record CertificateProperties : Type 0 where
  pub kind : CertificateKind
  pub validity_years : Option ℤ
  pub signature_algorithm_ref : Option Text
  pub subject_public_key_ref : Option Text

pub record LibraryProperties : Type 0 where
  pub name : Text
  pub version : Option Text

pub record ProtocolProperties : Type 0 where
  pub type : Option Text
  pub version : Option Text

pub record RelatedCryptoMaterialProperties : Type 0 where
  pub type : Option Text
  pub algorithm_ref : Option Text
  pub curve : Option Text
  pub size : Option ℤ

pub data Properties : Type 0 where
  of_algorithm : AlgorithmProperties → Properties
  of_certificate : CertificateProperties → Properties
  of_library : LibraryProperties → Properties
  of_protocol : ProtocolProperties → Properties
  of_related : RelatedCryptoMaterialProperties → Properties

pub record CryptoAsset : Type 0 where
  pub names : List Text
  pub locations : List Text
  pub asset_type : CryptoAssetTypes
  pub properties : Properties

abbrev map_primitive : Option Primitives → Option Text
map_primitive none = none
map_primitive (some p) = some (primitive_value p)

-- `str(n)` of a number or `None`
abbrev number_text : Option ℤ → Text
number_text none = text "None"
number_text (some n) = print_ℤ n

-- `AlgorithmProperties.key` and the same of the other classes
unfoldable pub properties_key : Properties → Text
unfolding as_key print_ℤ
properties_key (of_algorithm p) = as_key (
    some p.name ∷ map_primitive p.primitive ∷ p.parameter_set_identifier ∷ p.curve ∷ p.padding ∷ [])
properties_key (of_certificate p) = as_key (
    some (kind_value p.kind)
    ∷ some (number_text p.validity_years)
    ∷ p.signature_algorithm_ref
    ∷ p.subject_public_key_ref
    ∷ [])
properties_key (of_library p) = as_key (some p.name ∷ p.version ∷ [])
properties_key (of_protocol p) = as_key (p.type ∷ p.version ∷ [])
properties_key (of_related p) =
    as_key (p.type ∷ p.algorithm_ref ∷ p.curve ∷ some (number_text p.size) ∷ [])

-- `CryptoAsset.key`
unfoldable pub asset_key : CryptoAsset → Text
unfolding properties_key
asset_key a =
    as_key (some (asset_type_value a.asset_type) ∷ some (properties_key a.properties) ∷ [])
