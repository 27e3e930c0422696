-- ===== src/Tests/Securing.antt =====
-- Examples on cryptographic assets and a standard.
use odg_core.Prelude.{◌≡◌, refl, ◌&&◌, Bool, true, false, Option, none, some, List, [], ◌∷◌, Member}
use odg_core.Prelude.Int.{ℤ, pos}
use odg_core.Prelude.Result.{ok, err, Raised}
use odg_core.Prelude.Text.{Text, text}
use odg_core.Artefact.{Datatype}
use odg_core.Finding.{
  Selector, FindingCategorisation, RescoringModes, Finding, categorise_finding, words,
}
use odg_core.Crypto.{
  CryptoAsset, CryptoAssetTypes, Primitives, Properties, AlgorithmProperties, CertificateKind,
  CertificateProperties, RelatedCryptoMaterialProperties, ProtocolProperties, asset_key,
  MinMaxEnumProperties, Standard, SymmetricAlgorithm, AsymmetricAlgorithm, HashFunction,
  AsymmetricAlgorithmProperties, CertificateDefinition, ActualValue, FindingRatings, rating_value,
  parameter_set, validate_algorithm, validate_certificate, validate_against_standard,
}
use odg_core.Crypto.Allowing.{allows, allows_signature, allows_asymmetric}
use odg_core.Crypto.Compliant.{Reports, validate_algorithm-Reports}
use odg_core.Crypto.Certified.{References, IsResolved, validate_certificate-Reports}
use odg_core.Crypto.Kinds.{allows_certificate}
use odg_core.Crypto.Raising.{validate_against_standard_protocol}
use odg_core.Tests.Data.{wildcard, compile_wildcard}

abbrev blocker : FindingCategorisation
blocker = record {
  id = text "BLOCKER";
  display_name = text "Blocker";
  value = pos 16;
  allowed_processing_time = none;
  rescoring = RescoringModes.manual ∷ [];
  selector = some (Selector.crypto (text "not-compliant" ∷ []));
}

abbrev crypto_cfg : Finding
crypto_cfg = record {
  type = Datatype.crypto_finding;
  categorisations = blocker ∷ [];
  filter = none;
  rescoring_ruleset = none;
}

is_blocker :
    categorise_finding compile_wildcard crypto_cfg
      (words (rating_value FindingRatings.not_compliant))
      []
    ≡ ok (some blocker)
unfolding categorise_finding odg_core.Prelude.any odg_core.Prelude.Text.◌==◌
is_blocker = refl

parameters_read : parameter_set (some (text "64")) ≡ ok (ActualValue.number (pos 64))
unfolding parameter_set
parameters_read = refl

abbrev at_least : ℤ → MinMaxEnumProperties
at_least n = record { enum = []; min = some n; max = none }

abbrev fips : Standard
fips = record {
  name = text "FIPS";
  validated_crypto_libraries = [];
  symmetric_algorithms = record { name = text "AES"; properties = at_least (pos 128) ∷ [] } ∷ [];
  asymmetric_algorithms =
      record {
        name = text "RSA";
        properties = record { key_length = some (at_least (pos 2048)); curves = [] } ∷ [];
      }
      ∷ [];
  hash_functions = record { name = text "SHA256"; properties = [] } ∷ [];
  certificates =
      (record {
        kind = CertificateKind.end_user;
        curves = [];
        key_length = some (at_least (pos 3072));
        validity_years = none;
      }
        ∷ [])
      ∷ [];
}

abbrev aes : Text → AlgorithmProperties
aes size = record {
  name = text "AES";
  primitive = some Primitives.block_cipher;
  parameter_set_identifier = some size;
  curve = none;
  padding = none;
}

abbrev asset_of : CryptoAssetTypes → Properties → CryptoAsset
asset_of type properties = record {
  names = [];
  locations = [];
  asset_type = type;
  properties = properties;
}

abbrev weak_aes : CryptoAsset
weak_aes = asset_of CryptoAssetTypes.algorithm (Properties.of_algorithm (aes (text "64")))

abbrev strong_aes : CryptoAsset
strong_aes = asset_of CryptoAssetTypes.algorithm (Properties.of_algorithm (aes (text "256")))

strong_passes : validate_algorithm compile_wildcard wildcard fips crypto_cfg strong_aes ≡ ok none
unfolding validate_algorithm
strong_passes = refl

validate_algorithm-Reports_example :
    Reports compile_wildcard wildcard fips crypto_cfg blocker is_blocker
      (allows wildcard fips (aes (text "64")) (ActualValue.number (pos 64)))
      weak_aes
      (validate_algorithm compile_wildcard wildcard fips crypto_cfg weak_aes)
validate_algorithm-Reports_example =
    validate_algorithm-Reports compile_wildcard wildcard fips crypto_cfg blocker is_blocker weak_aes
      (aes (text "64")) (ActualValue.number (pos 64)) refl refl parameters_read

abbrev rsa : CryptoAsset
rsa = asset_of CryptoAssetTypes.algorithm (
    Properties.of_algorithm (record {
      name = text "RSA";
      primitive = some Primitives.pke;
      parameter_set_identifier = none;
      curve = none;
      padding = none;
    }))

abbrev rsa_sha : CryptoAsset
rsa_sha = asset_of CryptoAssetTypes.algorithm (
    Properties.of_algorithm (record {
      name = text "RSA-SHA256";
      primitive = some Primitives.signature;
      parameter_set_identifier = none;
      curve = none;
      padding = none;
    }))

abbrev public_key : CryptoAsset
public_key = asset_of CryptoAssetTypes.related_crypto_material (
    Properties.of_related (record {
      type = some (text "public-key");
      algorithm_ref = some (asset_key rsa);
      curve = none;
      size = some (pos 2048);
    }))

abbrev certificate_properties : CertificateProperties
certificate_properties = record {
  kind = CertificateKind.end_user;
  validity_years = some (pos 2);
  signature_algorithm_ref = some (asset_key rsa_sha);
  subject_public_key_ref = some (asset_key public_key);
}

abbrev certificate : CryptoAsset
certificate =
    asset_of CryptoAssetTypes.certificate (Properties.of_certificate certificate_properties)

abbrev assets : List CryptoAsset
assets = rsa ∷ rsa_sha ∷ public_key ∷ certificate ∷ []

abbrev references : References
references = record {
  signature_algorithm = rsa_sha;
  signature_name = text "RSA-SHA256";
  public_key = public_key;
  size = some (pos 2048);
  curve = none;
  algorithm_ref = some (asset_key rsa);
  asymmetric_algorithm = rsa;
  asymmetric_name = text "RSA";
}

all-IsResolved : IsResolved certificate_properties assets references
unfolding odg_core.Crypto.find_crypto_asset_by_key asset_key odg_core.Prelude.Text.join
all-IsResolved = record {
  signature = refl;
  signature_named = refl;
  key = refl;
  sized = refl;
  curved = refl;
  referring = refl;
  asymmetric = refl;
  asymmetric_named = refl;
}

validate_certificate-Reports_example :
    Reports compile_wildcard wildcard fips crypto_cfg blocker is_blocker
      (allows_certificate fips CertificateKind.end_user
          (ActualValue.number (pos 2048))
          none
          (some (pos 2))
        && (allows_signature wildcard fips (text "RSA-SHA256")
            && allows_asymmetric wildcard fips (text "RSA") (ActualValue.number (pos 2048)) none))
      certificate
      (validate_certificate compile_wildcard wildcard fips crypto_cfg certificate assets)
validate_certificate-Reports_example =
    validate_certificate-Reports compile_wildcard wildcard fips crypto_cfg blocker is_blocker
      certificate certificate_properties assets references refl refl all-IsResolved

abbrev tls : CryptoAsset
tls =
    asset_of CryptoAssetTypes.protocol
      (Properties.of_protocol (record { type = some (text "tls"); version = some (text "1.3") }))

validate_against_standard_protocol_example :
    (raised : Raised) × (validate_against_standard compile_wildcard wildcard fips crypto_cfg
        (strong_aes ∷ tls ∷ [])
      ≡ err raised)
validate_against_standard_protocol_example =
    validate_against_standard_protocol compile_wildcard wildcard fips crypto_cfg
      (strong_aes ∷ tls ∷ []) tls (1, refl) refl
