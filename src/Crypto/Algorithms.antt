-- ===== src/Crypto/Algorithms.antt =====
-- src/crypto_extension/validate.py: the validation of algorithms.
use odg_core.Prelude.{
  Bool, true, false, ◌&&◌, Option, none, some, List, [], ◌∷◌, ◌++◌, map, any, is_empty,
  if◌then◌else◌,
}
use odg_core.Prelude.Result.{Result, ok, err, Raised, ◌>>=◌}
use odg_core.Prelude.Text.{Text, text}
use odg_core.Duration.{parse_int}
use odg_core.Cvss.{split}
use odg_core.Finding.{Finding, words, categorise_finding}
use odg_core.Crypto.Assets.{
  CryptoAsset, CryptoAssetTypes, Primitives, Properties, AlgorithmProperties, CertificateKind,
}
use odg_core.Crypto.Standards.{
  Standard, SymmetricAlgorithm, AsymmetricAlgorithm, AsymmetricAlgorithmProperties, HashFunction,
  MinMaxEnumProperties,
}
use odg_core.Crypto.Requirements.{
  Requirement, RequiredValue, ActualValue, check_unmet_requirements, none_unmet,
}

pub data FindingRatings : Type 0 where
  compliant maybe_compliant not_compliant : FindingRatings

abbrev pub rating_value : FindingRatings → Text
rating_value FindingRatings.compliant = text "compliant"
rating_value FindingRatings.maybe_compliant = text "maybe-compliant"
rating_value FindingRatings.not_compliant = text "not-compliant"

-- What a line or part of a summary says. Each of them is a text that is not empty.
pub data Remark : Type 0 where
  name_unsupported : (kind algorithm_name : Text) → Remark
  unmet : (kind algorithm_name : Text) → List Requirement → Remark
  hash_not_allowed asymmetric_not_allowed : Remark
  signature_not_allowed : (algorithm_name : Text) → Remark
  kind_not_allowed : CertificateKind → Remark
  certificate_unmet : List Requirement → Remark
  library_validated library_provided library_unknown :
      (name : Text) (version : Option Text) → Remark

pub record CryptoFinding : Type 0 where
  pub severity : Text
  pub standard : Text
  pub asset : CryptoAsset
  pub summary : List Remark

abbrev pub key_length_requirement : MinMaxEnumProperties → ActualValue → Requirement
key_length_requirement limits actual = record {
  name = text "Required key length (bits)";
  required_value = RequiredValue.within limits;
  actual_value = actual;
}

abbrev output_size_requirement : MinMaxEnumProperties → ActualValue → Requirement
output_size_requirement limits actual = record {
  name = text "Required output size (bits)";
  required_value = RequiredValue.within limits;
  actual_value = actual;
}

abbrev text_or_none : Option Text → ActualValue
text_or_none none = ActualValue.nothing
text_or_none (some t) = ActualValue.words t

-- `if curves: yield Requirement(...)`
abbrev pub curve_requirements : List Text → Option Text → List Requirement
curve_requirements [] curve = []
curve_requirements (c ∷ cs) curve =
    record {
      name = text "Allowed curves";
      required_value = RequiredValue.one_of (c ∷ cs);
      actual_value = text_or_none curve;
    }
    ∷ []

-- `if key_length: yield Requirement(...)`
abbrev pub key_length_requirements : Option MinMaxEnumProperties → ActualValue → List Requirement
key_length_requirements none actual = []
key_length_requirements (some limits) actual = key_length_requirement limits actual ∷ []

-- The requirements of each alternative of a definition.
abbrev pub symmetric_alternatives : ActualValue → SymmetricAlgorithm → List (List Requirement)
symmetric_alternatives key_length d =
    map (λ p. key_length_requirement p key_length ∷ []) d.properties

abbrev pub asymmetric_alternatives :
    ActualValue → Option Text → AsymmetricAlgorithm → List (List Requirement)
asymmetric_alternatives key_length curve d =
    map
      (λ (p : AsymmetricAlgorithmProperties).
        curve_requirements p.curves curve ++ key_length_requirements p.key_length key_length)
      d.properties

abbrev pub hash_alternatives : ActualValue → HashFunction → List (List Requirement)
hash_alternatives output_size d = map (λ p. output_size_requirement p output_size ∷ []) d.properties

-- The reason of a summary.
abbrev reason : Text → Text → Bool × Option (List Requirement) → List Remark
reason kind algorithm_name (false, best) = name_unsupported kind algorithm_name ∷ []
reason kind algorithm_name (true, none) = unmet kind algorithm_name [] ∷ []
reason kind algorithm_name (true, some best) = unmet kind algorithm_name best ∷ []

-- `int(identifier) if identifier else 'unknown'`
unfoldable pub parameter_set : Option Text → Result ActualValue
unfolding parse_int
parameter_set identifier = elim identifier [
  | none ↦ ok (ActualValue.words (text "unknown"))
  | some t ↦
      if is_empty t
      then ok (ActualValue.words (text "unknown"))
      else (do n ← parse_int t; ok (ActualValue.number n))
]

-- `algorithm_asset.properties` where the attributes of an algorithm are read.
abbrev as_algorithm : Properties → Result AlgorithmProperties
as_algorithm (Properties.of_algorithm p) = ok p
as_algorithm (Properties.of_certificate p) = err Raised.attribute_error
as_algorithm (Properties.of_library p) = err Raised.attribute_error
as_algorithm (Properties.of_protocol p) = err Raised.attribute_error
as_algorithm (Properties.of_related p) = err Raised.attribute_error

-- `compile` is for the patterns of the configuration, which may be invalid. `fullmatch_ignore_case` is
-- `re.fullmatch` with `re.IGNORECASE` for the names in the standard, which are taken as valid patterns.
module _ (compile : Text → Result (Text → Bool)) (fullmatch_ignore_case : Text → Text → Bool)
    (standard : Standard) (crypto_finding_cfg : Finding) where
  -- The end of each function: no finding without a categorisation.
  unfoldable pub finding_for :
      FindingRatings → CryptoAsset → List Remark → Result (Option CryptoFinding)
  unfolding categorise_finding
  finding_for rating asset summary = do
    categorisation ← categorise_finding compile crypto_finding_cfg (words (rating_value rating)) []
    ok (elim categorisation [
      | none ↦ none
      | some c ↦
          some
            (record { severity = c.id; standard = standard.name; asset = asset; summary = summary })
    ])

  -- What the three functions for algorithms make of the search.
  unfoldable pub report :
      Text → Text → CryptoAsset → Bool × Option (List Requirement) → Result (Option CryptoFinding)
  unfolding finding_for
  report kind algorithm_name asset (matched, best) =
      if matched && none_unmet best
      then ok none
      else finding_for FindingRatings.not_compliant asset
          (reason kind algorithm_name (matched, best))

  unfoldable pub validate_symmetric_algorithm :
      Text → ActualValue → CryptoAsset → Result (Option CryptoFinding)
  unfolding report check_unmet_requirements
  validate_symmetric_algorithm algorithm_name key_length asset = do
    found ←
        check_unmet_requirements
          (λ (d : SymmetricAlgorithm). fullmatch_ignore_case d.name algorithm_name)
          (symmetric_alternatives key_length) standard.symmetric_algorithms
    report (text "symmetric") algorithm_name asset found

  unfoldable pub validate_asymmetric_algorithm :
      Text → ActualValue → Option Text → CryptoAsset → Result (Option CryptoFinding)
  unfolding report check_unmet_requirements
  validate_asymmetric_algorithm algorithm_name key_length curve asset = do
    found ←
        check_unmet_requirements
          (λ (d : AsymmetricAlgorithm). fullmatch_ignore_case d.name algorithm_name)
          (asymmetric_alternatives key_length curve) standard.asymmetric_algorithms
    report (text "asymmetric") algorithm_name asset found

  unfoldable pub validate_hash_function :
      Text → ActualValue → CryptoAsset → Result (Option CryptoFinding)
  unfolding report check_unmet_requirements
  validate_hash_function algorithm_name output_size asset = do
    found ←
        check_unmet_requirements (λ (d : HashFunction). fullmatch_ignore_case d.name algorithm_name)
          (hash_alternatives output_size) standard.hash_functions
    report (text "hash") algorithm_name asset found

  -- The two inner loops of `validate_signature_algorithm`, each up to its `break`.
  unfoldable pub names_asymmetric : Text → Bool
  unfolding any
  names_asymmetric name =
      any (λ (d : AsymmetricAlgorithm). fullmatch_ignore_case d.name name)
        standard.asymmetric_algorithms

  unfoldable pub names_hash : Text → Bool
  unfolding any
  names_hash name =
      any (λ (d : HashFunction). fullmatch_ignore_case d.name name) standard.hash_functions

  -- Its outer loop with the two flags.
  unfoldable pub valid_parts : Bool → Bool → List Text → Bool × Bool
  unfolding names_asymmetric names_hash
  valid_parts asymmetric hash [] = (asymmetric, hash)
  valid_parts asymmetric hash (name ∷ names) =
      valid_parts (if names_asymmetric name then true else asymmetric)
        (if names_hash name then true else hash) names

  unfoldable pub signature_remark : Text → Bool × Bool → List Remark
  signature_remark algorithm_name (true, hash) = hash_not_allowed ∷ []
  signature_remark algorithm_name (false, true) = asymmetric_not_allowed ∷ []
  signature_remark algorithm_name (false, false) = signature_not_allowed algorithm_name ∷ []

  unfoldable pub validate_signature_algorithm : Text → CryptoAsset → Result (Option CryptoFinding)
  unfolding valid_parts signature_remark finding_for split
  validate_signature_algorithm algorithm_name asset =
      let (asymmetric, hash) = valid_parts false false (split b'-' algorithm_name) in
      if asymmetric && hash
      then ok none
      else finding_for FindingRatings.not_compliant asset
          (signature_remark algorithm_name (asymmetric, hash))

  -- The branches of `validate_algorithm` by the primitive.
  unfoldable pub by_primitive :
      Option Primitives
      → AlgorithmProperties
      → ActualValue
      → CryptoAsset
      → Result (Option CryptoFinding)
  unfolding validate_symmetric_algorithm validate_asymmetric_algorithm validate_hash_function
      validate_signature_algorithm
  by_primitive (some Primitives.block_cipher) p parameters asset =
      validate_symmetric_algorithm p.name parameters asset
  by_primitive (some Primitives.pke) p parameters asset =
      validate_asymmetric_algorithm p.name parameters p.curve asset
  by_primitive (some Primitives.hash) p parameters asset =
      validate_hash_function p.name parameters asset
  by_primitive (some Primitives.signature) p parameters asset =
      validate_signature_algorithm p.name asset
  by_primitive _ p parameters asset = ok none

  -- `validate_algorithm` with the two attributes that it reads first
  unfoldable pub validate_algorithm_of :
      CryptoAssetTypes → Properties → CryptoAsset → Result (Option CryptoFinding)
  unfolding by_primitive parameter_set
  validate_algorithm_of CryptoAssetTypes.algorithm properties asset = do
    p ← as_algorithm properties
    parameters ← parameter_set p.parameter_set_identifier
    by_primitive p.primitive p parameters asset
  validate_algorithm_of _ properties asset = err Raised.value_error

  unfoldable pub validate_algorithm : CryptoAsset → Result (Option CryptoFinding)
  unfolding validate_algorithm_of
  validate_algorithm asset = validate_algorithm_of asset.asset_type asset.properties asset
