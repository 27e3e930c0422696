-- ===== src/Crypto/Certificates.antt =====
-- src/crypto_extension/validate.py: the validation of certificates.
use odg_core.Prelude.{Bool, Option, none, some, List, [], ◌∷◌, ◌++◌, is_empty, if◌then◌else◌}
use odg_core.Prelude.Int.{ℤ}
use odg_core.Prelude.Result.{Result, ok, err, Raised, ◌>>=◌}
use odg_core.Prelude.Text.{Text, text, ◌==◌, opt_eq}
use odg_core.Finding.{Finding, is_zero_ℤ}
use odg_core.Crypto.Assets.{
  CryptoAsset, CryptoAssetTypes, Properties, CertificateProperties, CertificateKind, kind_value,
  asset_key,
}
use odg_core.Crypto.Standards.{Standard, CertificateDefinition, MinMaxEnumProperties}
use odg_core.Crypto.Requirements.{Requirement, RequiredValue, ActualValue, check_unmet_requirements}
use odg_core.Crypto.Algorithms.{
  CryptoFinding, FindingRatings, Remark, curve_requirements, key_length_requirements, finding_for,
  validate_signature_algorithm, validate_asymmetric_algorithm,
}

-- `find_crypto_asset_by_key`
unfoldable pub find_crypto_asset_by_key : Option Text → List CryptoAsset → Result CryptoAsset
unfolding opt_eq asset_key
find_crypto_asset_by_key data_key [] = err Raised.value_error
find_crypto_asset_by_key data_key (a ∷ assets) =
    let rest = find_crypto_asset_by_key data_key assets in
    if opt_eq data_key (some (asset_key a)) then ok a else rest

-- The attributes that are read from properties of any class, with what those without it raise.
abbrev pub name_of : Properties → Result Text
name_of (Properties.of_algorithm p) = ok p.name
name_of (Properties.of_library p) = ok p.name
name_of (Properties.of_certificate p) = err Raised.attribute_error
name_of (Properties.of_protocol p) = err Raised.attribute_error
name_of (Properties.of_related p) = err Raised.attribute_error

abbrev pub size_of : Properties → Result (Option ℤ)
size_of (Properties.of_related p) = ok p.size
size_of (Properties.of_algorithm p) = err Raised.attribute_error
size_of (Properties.of_library p) = err Raised.attribute_error
size_of (Properties.of_certificate p) = err Raised.attribute_error
size_of (Properties.of_protocol p) = err Raised.attribute_error

abbrev pub algorithm_ref_of : Properties → Result (Option Text)
algorithm_ref_of (Properties.of_related p) = ok p.algorithm_ref
algorithm_ref_of (Properties.of_algorithm p) = err Raised.attribute_error
algorithm_ref_of (Properties.of_library p) = err Raised.attribute_error
algorithm_ref_of (Properties.of_certificate p) = err Raised.attribute_error
algorithm_ref_of (Properties.of_protocol p) = err Raised.attribute_error

abbrev pub curve_of : Properties → Result (Option Text)
curve_of (Properties.of_related p) = ok p.curve
curve_of (Properties.of_algorithm p) = ok p.curve
curve_of (Properties.of_library p) = err Raised.attribute_error
curve_of (Properties.of_certificate p) = err Raised.attribute_error
curve_of (Properties.of_protocol p) = err Raised.attribute_error

abbrev as_certificate : Properties → Result CertificateProperties
as_certificate (Properties.of_certificate p) = ok p
as_certificate (Properties.of_related p) = err Raised.attribute_error
as_certificate (Properties.of_algorithm p) = err Raised.attribute_error
as_certificate (Properties.of_library p) = err Raised.attribute_error
as_certificate (Properties.of_protocol p) = err Raised.attribute_error

-- `size or 'unknown'`
abbrev pub size_or_unknown : Option ℤ → ActualValue
size_or_unknown none = ActualValue.words (text "unknown")
size_or_unknown (some n) =
    if is_zero_ℤ n then ActualValue.words (text "unknown") else ActualValue.number n

abbrev pub years : Option ℤ → ActualValue
years none = ActualValue.nothing
years (some n) = ActualValue.number n

abbrev pub validity_requirements : Option MinMaxEnumProperties → ActualValue → List Requirement
validity_requirements none actual = []
validity_requirements (some limits) actual =
    record {
      name = text "Required validity (years)";
      required_value = RequiredValue.within limits;
      actual_value = actual;
    }
    ∷ []

-- The requirements of one property of a certificate.
abbrev pub certificate_requirements :
    ActualValue → Option Text → Option ℤ → CertificateDefinition → List Requirement
certificate_requirements key_length curve validity_years d =
    curve_requirements d.curves curve
    ++ (key_length_requirements d.key_length key_length
        ++ validity_requirements d.validity_years (years validity_years))

abbrev pub is_of_kind : CertificateKind → CertificateDefinition → Bool
is_of_kind kind d = kind_value d.kind == kind_value kind

-- The two loops over the properties of all definitions
abbrev pub concat : List (List CertificateDefinition) → List CertificateDefinition
concat [] = []
concat (d ∷ ds) = d ++ concat ds

abbrev pub summary_of : Option CryptoFinding → List Remark
summary_of none = []
summary_of (some f) = f.summary

abbrev pub certificate_summary :
    CertificateKind
    → Bool × Option (List Requirement)
    → Option CryptoFinding
    → Option CryptoFinding
    → List Remark
certificate_summary kind (matched, best) signature asymmetric =
    (if matched then [] else Remark.kind_not_allowed kind ∷ [])
    ++ (elim best [
      | none ↦ []
      | some b ↦ if is_empty b then [] else Remark.certificate_unmet b ∷ []
    ]
        ++ (summary_of signature ++ summary_of asymmetric))

module _ (compile : Text → Result (Text → Bool)) (fullmatch_ignore_case : Text → Text → Bool)
    (standard : Standard) (crypto_finding_cfg : Finding) where
  -- The end of `validate_certificate`, with the findings on its two algorithms
  unfoldable pub report_certificate :
      CryptoAsset
      → CertificateKind
      → Bool × Option (List Requirement)
      → Option CryptoFinding
      → Option CryptoFinding
      → Result (Option CryptoFinding)
  unfolding finding_for
  report_certificate asset kind found signature asymmetric =
      let summary = certificate_summary kind found signature asymmetric in
      if is_empty summary
      then ok none
      else finding_for compile fullmatch_ignore_case standard crypto_finding_cfg
          FindingRatings.not_compliant asset summary

  -- `validate_certificate` with the two attributes that it reads first
  unfoldable pub validate_certificate_of :
      CryptoAssetTypes → Properties → CryptoAsset → List CryptoAsset → Result (Option CryptoFinding)
  unfolding find_crypto_asset_by_key validate_signature_algorithm validate_asymmetric_algorithm
      check_unmet_requirements report_certificate
  validate_certificate_of CryptoAssetTypes.certificate properties asset crypto_assets = do
    p ← as_certificate properties
    signature_algorithm ← find_crypto_asset_by_key p.signature_algorithm_ref crypto_assets
    signature_name ← name_of signature_algorithm.properties
    signature_finding ←
        validate_signature_algorithm compile fullmatch_ignore_case standard crypto_finding_cfg
          signature_name signature_algorithm
    public_key ← find_crypto_asset_by_key p.subject_public_key_ref crypto_assets
    size ← size_of public_key.properties
    algorithm_ref ← algorithm_ref_of public_key.properties
    asymmetric_algorithm ← find_crypto_asset_by_key algorithm_ref crypto_assets
    asymmetric_name ← name_of asymmetric_algorithm.properties
    curve ← curve_of public_key.properties
    asymmetric_finding ←
        validate_asymmetric_algorithm compile fullmatch_ignore_case standard crypto_finding_cfg
          asymmetric_name (size_or_unknown size) curve asymmetric_algorithm
    found ←
        check_unmet_requirements (is_of_kind p.kind)
          (λ d. certificate_requirements (size_or_unknown size) curve p.validity_years d ∷ [])
          (concat standard.certificates)
    report_certificate asset p.kind found signature_finding asymmetric_finding
  validate_certificate_of _ properties asset crypto_assets = err Raised.value_error

  unfoldable pub validate_certificate :
      CryptoAsset → List CryptoAsset → Result (Option CryptoFinding)
  unfolding validate_certificate_of
  validate_certificate asset crypto_assets =
      validate_certificate_of asset.asset_type asset.properties asset crypto_assets
