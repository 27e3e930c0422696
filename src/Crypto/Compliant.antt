-- ===== src/Crypto/Compliant.antt =====
-- Which algorithms `validate_algorithm` lets pass (src/crypto_extension/validate.py).
use odg_core.Prelude.{
  ◌≡◌, refl, sym, ap, subst, ◌∙◌, Bool, true, false, not, ◌&&◌, ◌||◌, Option, none, some, List, [],
  ◌∷◌, map, arith, any, All, is_empty, if◌then◌else◌,
}
use odg_core.Prelude.Result.{Result, ok, ◌>>=◌}
use odg_core.Prelude.Text.{Text}
use odg_core.Cvss.{split}
use odg_core.Finding.{Finding, FindingCategorisation, words, categorise_finding}
use odg_core.Crypto.Assets.{
  CryptoAsset, CryptoAssetTypes, Primitives, Properties, AlgorithmProperties,
}
use odg_core.Crypto.Standards.{
  Standard, SymmetricAlgorithm, AsymmetricAlgorithm, AsymmetricAlgorithmProperties, HashFunction,
}
use odg_core.Crypto.Requirements.{
  ActualValue, Requirement, is_within, none_unmet, check_unmet_requirements,
}
use odg_core.Crypto.Algorithms.{
  CryptoFinding, FindingRatings, Remark, rating_value, finding_for, report,
  validate_symmetric_algorithm, validate_asymmetric_algorithm, validate_hash_function,
  names_asymmetric, names_hash, valid_parts, signature_remark, validate_signature_algorithm,
  by_primitive, parameter_set, validate_algorithm_of, validate_algorithm,
}
use odg_core.Crypto.Unmet.{IsStated, all_hold, check_unmet_requirements-is_allowed}
use odg_core.Crypto.Allowing.{
  All-map, All-always, allows_curve, allows_length, curve_requirements-all_hold,
  curve_requirements-IsStated, is_allowed-map, name_asymmetric, name_hash, allows_asymmetric,
  allows_signature, allows_by, allows,
}

module _ (compile : Text → Result (Text → Bool)) (fullmatch_ignore_case : Text → Text → Bool)
    (standard : Standard) (cfg : Finding) (c : FindingCategorisation)
    (categorised : categorise_finding compile cfg
        (words (rating_value FindingRatings.not_compliant))
        []
      ≡ ok (some c)) where
  -- There is no finding if the asset is allowed, and else one with this severity.
  abbrev pub Reports : Bool → CryptoAsset → Result (Option CryptoFinding) → Type 0
  Reports true asset result = result ≡ ok none
  Reports false asset result =
      (f : CryptoFinding) × (result ≡ ok (some f))
      × (f.severity ≡ c.id)
      × (f.asset ≡ asset)
      × (f.standard ≡ standard.name)
      × (is_empty f.summary ≡ false)

  pub finding_for-Reports :
      (asset : CryptoAsset) (summary : List Remark)
      → is_empty summary ≡ false
      → Reports false asset (
          finding_for compile fullmatch_ignore_case standard cfg FindingRatings.not_compliant asset
            summary)
  unfolding finding_for
  finding_for-Reports asset summary filled = (
    record { severity = c.id; standard = standard.name; asset = asset; summary = summary },
    rw categorised refl,
    refl,
    refl,
    refl,
    filled,
  )

  report-Reports :
      (kind name : Text) (asset : CryptoAsset) (found : Bool × Option (List Requirement))
      → Reports
          (found.0 && none_unmet found.1)
          asset
          (report compile fullmatch_ignore_case standard cfg kind name asset found)
  unfolding report
  report-Reports kind name asset (false, best) = finding_for-Reports asset _ refl
  report-Reports kind name asset (true, none) = refl
  report-Reports kind name asset (true, some []) = refl
  report-Reports kind name asset (true, some (r ∷ rs)) = finding_for-Reports asset _ refl

  -- What the three functions with a search have in common.
  search-Reports {ℓ κ} :
      {D : Type ℓ} {P : Type κ} (matches : D → Bool) (properties : D → List P)
      (requirements : P → List Requirement) (allowed : P → Bool) (kind name : Text)
      (asset : CryptoAsset)
      → ((p : P) → All IsStated (requirements p))
      → ((p : P) → all_hold (requirements p) ≡ allowed p)
      → (ds : List D)
      → Reports
          (any matches ds
            && (any (λ d. matches d && any allowed (properties d)) ds
                || not (any (λ d. matches d && not (is_empty (properties d))) ds)))
          asset
          (check_unmet_requirements matches (λ d. map requirements (properties d)) ds
            >>= report compile fullmatch_ignore_case standard cfg kind name asset)
  search-Reports matches properties requirements allowed kind name asset stated same ds =
      let (found, e, m, allows) =
        check_unmet_requirements-is_allowed matches (λ d. map requirements (properties d)) ds
          (All-always _ (λ d. All-map (All IsStated) requirements stated (properties d)) ds) in
      let reported = report-Reports kind name asset found in
      rw (sym (is_allowed-map matches properties requirements allowed same ds), sym allows, e)
        reported

  valid_parts-any :
      (asymmetric hash : Bool) (names : List Text)
      → valid_parts compile fullmatch_ignore_case standard cfg asymmetric hash names ≡ (
        asymmetric || name_asymmetric fullmatch_ignore_case standard names,
        hash || name_hash fullmatch_ignore_case standard names,
      )
  unfolding valid_parts any name_asymmetric name_hash
  valid_parts-any asymmetric hash [] = ground arith
  valid_parts-any asymmetric hash (name ∷ names) =
      let asymmetric_named = names_asymmetric compile fullmatch_ignore_case standard cfg name in
      let hash_named = names_hash compile fullmatch_ignore_case standard cfg name in
      valid_parts-any (if asymmetric_named then true else asymmetric)
        (if hash_named then true else hash) names
      ∙ ground arith

  signature-Reports :
      (name : Text) (asset : CryptoAsset) (flags : Bool × Bool)
      → Reports (flags.0 && flags.1) asset (
          if flags.0 && flags.1
          then ok none
          else finding_for compile fullmatch_ignore_case standard cfg FindingRatings.not_compliant
              asset
              (signature_remark compile fullmatch_ignore_case standard cfg name flags))
  unfolding signature_remark
  signature-Reports name asset (true, true) = refl
  signature-Reports name asset (true, false) = finding_for-Reports asset _ refl
  signature-Reports name asset (false, true) = finding_for-Reports asset _ refl
  signature-Reports name asset (false, false) = finding_for-Reports asset _ refl

  pub validate_signature_algorithm-Reports :
      (name : Text) (asset : CryptoAsset)
      → Reports
          (allows_signature fullmatch_ignore_case standard name)
          asset
          (validate_signature_algorithm compile fullmatch_ignore_case standard cfg name asset)
  unfolding validate_signature_algorithm allows_signature
  validate_signature_algorithm-Reports name asset =
      let same = valid_parts-any false false (split b'-' name) in
      let flags =
        valid_parts compile fullmatch_ignore_case standard cfg false false (split b'-' name) in
      subst
        (λ b.
          Reports b asset
            (validate_signature_algorithm compile fullmatch_ignore_case standard cfg name asset))
        (ap (λ (f : Bool × Bool). f.0 && f.1) same) (signature-Reports name asset flags)

  pub validate_asymmetric_algorithm-Reports :
      (name : Text) (parameters : ActualValue) (curve : Option Text) (asset : CryptoAsset)
      → Reports (allows_asymmetric fullmatch_ignore_case standard name parameters curve) asset (
          validate_asymmetric_algorithm compile fullmatch_ignore_case standard cfg name parameters
            curve asset)
  unfolding validate_asymmetric_algorithm allows_asymmetric
  validate_asymmetric_algorithm-Reports name parameters curve asset =
      search-Reports _ AsymmetricAlgorithm.properties _
        (λ (l : AsymmetricAlgorithmProperties).
          allows_curve l.curves curve && allows_length l.key_length parameters)
        _ _ asset (λ l. curve_requirements-IsStated l.curves curve l.key_length parameters)
        (λ l. curve_requirements-all_hold l.curves curve l.key_length parameters)
        standard.asymmetric_algorithms

  by_primitive-Reports :
      (primitive : Option Primitives) (p : AlgorithmProperties) (parameters : ActualValue)
      (asset : CryptoAsset)
      → Reports
          (allows_by fullmatch_ignore_case standard primitive p parameters)
          asset
          (by_primitive compile fullmatch_ignore_case standard cfg primitive p parameters asset)
  unfolding by_primitive allows_by validate_symmetric_algorithm validate_asymmetric_algorithm
      validate_hash_function
  by_primitive-Reports none p parameters asset = refl
  by_primitive-Reports (some Primitives.block_cipher) p parameters asset =
      search-Reports _ SymmetricAlgorithm.properties _ (λ l. is_within l parameters) _ _ asset
        (λ l. (tt, tt)) (λ l. ground arith) standard.symmetric_algorithms
  by_primitive-Reports (some Primitives.pke) p parameters asset =
      validate_asymmetric_algorithm-Reports p.name parameters p.curve asset
  by_primitive-Reports (some Primitives.hash) p parameters asset =
      search-Reports _ HashFunction.properties _ (λ l. is_within l parameters) _ _ asset
        (λ l. (tt, tt)) (λ l. ground arith) standard.hash_functions
  by_primitive-Reports (some Primitives.signature) p parameters asset =
      validate_signature_algorithm-Reports p.name asset
  by_primitive-Reports (some Primitives.kdf) p parameters asset = refl
  by_primitive-Reports (some Primitives.key_agree) p parameters asset = refl
  by_primitive-Reports (some Primitives.mac) p parameters asset = refl
  by_primitive-Reports (some Primitives.stream_cipher) p parameters asset = refl

  -- For an algorithm with parameters that can be read, and where the configuration has a
  -- categorisation for what is not compliant, validate_algorithm returns no finding if the
  -- standard allows the algorithm: a definition has its name, and one with its name allows the key
  -- length, the curve or the output size, or those with its name set no properties; parts of the
  -- name of a signature name an asymmetric algorithm and a hash function. Otherwise it returns one
  -- finding for the asset and the standard with the severity of that categorisation.
  pub validate_algorithm-Reports :
      (asset : CryptoAsset) (p : AlgorithmProperties) (parameters : ActualValue)
      → asset.asset_type ≡ CryptoAssetTypes.algorithm
      → asset.properties ≡ Properties.of_algorithm p
      → parameter_set p.parameter_set_identifier ≡ ok parameters
      → Reports
          (allows fullmatch_ignore_case standard p parameters)
          asset
          (validate_algorithm compile fullmatch_ignore_case standard cfg asset)
  unfolding validate_algorithm allows
  validate_algorithm-Reports asset p parameters type properties read =
      let validated = validate_algorithm_of compile fullmatch_ignore_case standard cfg in
      let same =
        ap (λ t. validated t asset.properties asset) type
        ∙ ap (λ q. validated CryptoAssetTypes.algorithm q asset) properties in
      rw (same, read) (by_primitive-Reports p.primitive p parameters asset)
