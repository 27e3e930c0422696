-- ===== src/Crypto/Dispatch.antt =====
-- src/crypto_extension/validate.py: the validation of libraries and whole lists of assets.
use odg_core.Prelude.{
  Bool, true, false, not, Option, none, some, List, [], ◌∷◌, ◌++◌, any, if◌then◌else◌,
}
use odg_core.Prelude.Result.{Result, ok, err, Raised, ◌>>=◌}
use odg_core.Prelude.Text.{Text, ◌==◌, opt_eq}
use odg_core.Finding.{Finding}
use odg_core.Crypto.Assets.{CryptoAsset, CryptoAssetTypes, Properties, LibraryProperties}
use odg_core.Crypto.Standards.{Standard, CryptoLibrary}
use odg_core.Crypto.Algorithms.{
  CryptoFinding, FindingRatings, Remark, finding_for, validate_algorithm,
}
use odg_core.Crypto.Certificates.{validate_certificate}

-- An algorithm has a name but no version, which every branch reads in the end.
abbrev as_library : Properties → Result LibraryProperties
as_library (Properties.of_library p) = ok p
as_library (Properties.of_certificate p) = err Raised.attribute_error
as_library (Properties.of_related p) = err Raised.attribute_error
as_library (Properties.of_algorithm p) = err Raised.attribute_error
as_library (Properties.of_protocol p) = err Raised.attribute_error

-- The loop of `validate_library` with its two flags
unfoldable pub library_flags : LibraryProperties → Bool → List CryptoLibrary → Bool × Bool
unfolding ◌==◌ opt_eq any
library_flags p provides [] = (provides, false)
library_flags p provides (l ∷ ls) =
    let skip = library_flags p provides ls in
    let next = library_flags p true ls in
    if not (l.name == p.name)
    then skip
    else if not (any (λ v. opt_eq p.version (some v)) l.versions)
    then next
    else (true, true)

module _ (compile : Text → Result (Text → Bool)) (fullmatch_ignore_case : Text → Text → Bool)
    (standard : Standard) (crypto_finding_cfg : Finding) where
  unfoldable pub library_rating : LibraryProperties → Bool × Bool → FindingRatings × List Remark
  library_rating p (provides, true) =
      (FindingRatings.maybe_compliant, Remark.library_validated p.name p.version ∷ [])
  library_rating p (true, false) =
      (FindingRatings.maybe_compliant, Remark.library_provided p.name p.version ∷ [])
  library_rating p (false, false) =
      (FindingRatings.not_compliant, Remark.library_unknown p.name p.version ∷ [])

  unfoldable pub validate_library : CryptoAsset → Result (Option CryptoFinding)
  unfolding library_flags library_rating finding_for
  validate_library asset = elim asset.asset_type [
    | CryptoAssetTypes.library ↦ do
      p ← as_library asset.properties
      let (rating, summary) =
          library_rating p (library_flags p false standard.validated_crypto_libraries)
      finding_for compile fullmatch_ignore_case standard crypto_finding_cfg rating asset summary
    | _ ↦ err Raised.value_error
  ]

  -- The test is for libraries, as in the code.
  unfoldable pub validate_protocol : CryptoAsset → Result (Option CryptoFinding)
  validate_protocol asset = elim asset.asset_type [
    | CryptoAssetTypes.library ↦ ok none
    | _ ↦ err Raised.value_error
  ]

  unfoldable pub validate_related_crypto_material : CryptoAsset → Result (Option CryptoFinding)
  validate_related_crypto_material asset = elim asset.asset_type [
    | CryptoAssetTypes.related_crypto_material ↦ ok none
    | _ ↦ err Raised.value_error
  ]

  -- The branch of `validate_against_standard` for one asset
  unfoldable pub validate_asset : List CryptoAsset → CryptoAsset → Result (Option CryptoFinding)
  unfolding validate_algorithm validate_certificate validate_library validate_protocol
      validate_related_crypto_material
  validate_asset crypto_assets asset = elim asset.asset_type [
    | CryptoAssetTypes.algorithm ↦
        validate_algorithm compile fullmatch_ignore_case standard crypto_finding_cfg asset
    | CryptoAssetTypes.certificate ↦
        validate_certificate compile fullmatch_ignore_case standard crypto_finding_cfg asset
          crypto_assets
    | CryptoAssetTypes.library ↦ validate_library asset
    | CryptoAssetTypes.protocol ↦ validate_protocol asset
    | CryptoAssetTypes.related_crypto_material ↦ validate_related_crypto_material asset
  ]

  -- `if finding := ...: yield finding`
  abbrev pub yielded : Option CryptoFinding → List CryptoFinding → List CryptoFinding
  yielded none findings = findings
  yielded (some f) findings = f ∷ findings

  unfoldable pub validate_each : List CryptoAsset → List CryptoAsset → Result (List CryptoFinding)
  unfolding validate_asset
  validate_each crypto_assets [] = ok []
  validate_each crypto_assets (a ∷ assets) = do
    finding ← validate_asset crypto_assets a
    findings ← validate_each crypto_assets assets
    ok (yielded finding findings)

  -- `validate_against_standard`: what the generator yields until it ends, or what it raises
  unfoldable pub validate_against_standard : List CryptoAsset → Result (List CryptoFinding)
  unfolding validate_each
  validate_against_standard crypto_assets = validate_each crypto_assets crypto_assets

-- `iter_findings_for_standards`
unfoldable pub iter_findings_for_standards :
    (compile : Text → Result (Text → Bool)) (fullmatch_ignore_case : Text → Text → Bool)
    → Finding
    → List CryptoAsset
    → List Standard
    → Result (List CryptoFinding)
unfolding validate_against_standard
iter_findings_for_standards compile fullmatch_ignore_case cfg crypto_assets [] = ok []
iter_findings_for_standards compile fullmatch_ignore_case cfg crypto_assets (s ∷ standards) = do
  findings ← validate_against_standard compile fullmatch_ignore_case s cfg crypto_assets
  rest ← iter_findings_for_standards compile fullmatch_ignore_case cfg crypto_assets standards
  ok (findings ++ rest)
