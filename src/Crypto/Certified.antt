-- ===== src/Crypto/Certified.antt =====
-- Which certificates `validate_certificate` lets pass (src/crypto_extension/validate.py).
use odg_core.Prelude.{
  ◌≡◌, refl, sym, ap, ◌∙◌, Bool, true, false, ◌&&◌, Option, none, some, List, [], ◌∷◌, ◌++◌,
  is_empty, if◌then◌else◌,
}
use odg_core.Prelude.Int.{ℤ}
use odg_core.Prelude.Result.{Result, ok}
use odg_core.Prelude.Text.{Text}
use odg_core.Finding.{Finding, FindingCategorisation, words, categorise_finding}
use odg_core.Crypto.Assets.{
  CryptoAsset, CryptoAssetTypes, Properties, CertificateProperties, CertificateKind,
}
use odg_core.Crypto.Standards.{Standard}
use odg_core.Crypto.Requirements.{Requirement, none_unmet}
use odg_core.Crypto.Algorithms.{CryptoFinding, FindingRatings, Remark, rating_value, finding_for}
use odg_core.Crypto.Certificates.{
  find_crypto_asset_by_key, name_of, size_of, algorithm_ref_of, curve_of, size_or_unknown,
  certificate_requirements, is_of_kind, concat, summary_of, certificate_summary, report_certificate,
  validate_certificate_of, validate_certificate,
}
use odg_core.Crypto.Unmet.{check_unmet_requirements-is_allowed}
use odg_core.Crypto.Allowing.{All-always, allows_asymmetric, allows_signature}
use odg_core.Crypto.Compliant.{
  Reports, finding_for-Reports, validate_signature_algorithm-Reports,
  validate_asymmetric_algorithm-Reports,
}
use odg_core.Crypto.Kinds.{
  allows_certificate, certificate_requirements-IsStated, certificates-allowed,
}

is_empty-append {ℓ} :
    {A : Type ℓ} (xs ys : List A) → is_empty (xs ++ ys) ≡ (is_empty xs && is_empty ys)
is_empty-append [] ys = refl
is_empty-append (x ∷ xs) ys = refl

-- The assets that a certificate refers to, and what is read from them.
pub record References : Type 0 where
  pub signature_algorithm : CryptoAsset
  pub signature_name : Text
  pub public_key : CryptoAsset
  pub size : Option ℤ
  pub curve : Option Text
  pub algorithm_ref : Option Text
  pub asymmetric_algorithm : CryptoAsset
  pub asymmetric_name : Text

-- All references of the certificate can be resolved among the assets.
pub record IsResolved (p : CertificateProperties) (crypto_assets : List CryptoAsset)
    (r : References) : Type 0 where
  pub signature :
      find_crypto_asset_by_key p.signature_algorithm_ref crypto_assets ≡ ok r.signature_algorithm
  pub signature_named : name_of r.signature_algorithm.properties ≡ ok r.signature_name
  pub key : find_crypto_asset_by_key p.subject_public_key_ref crypto_assets ≡ ok r.public_key
  pub sized : size_of r.public_key.properties ≡ ok r.size
  pub curved : curve_of r.public_key.properties ≡ ok r.curve
  pub referring : algorithm_ref_of r.public_key.properties ≡ ok r.algorithm_ref
  pub asymmetric :
      find_crypto_asset_by_key r.algorithm_ref crypto_assets ≡ ok r.asymmetric_algorithm
  pub asymmetric_named : name_of r.asymmetric_algorithm.properties ≡ ok r.asymmetric_name

module _ (compile : Text → Result (Text → Bool)) (fullmatch_ignore_case : Text → Text → Bool)
    (standard : Standard) (cfg : Finding) (c : FindingCategorisation)
    (categorised : categorise_finding compile cfg
        (words (rating_value FindingRatings.not_compliant))
        []
      ≡ ok (some c)) where
  abbrev Reported : Bool → CryptoAsset → Result (Option CryptoFinding) → Type 0
  Reported = Reports compile fullmatch_ignore_case standard cfg c categorised

  -- A call with a report returns an option that is empty exactly if the asset is allowed.
  Reports-total :
      (allowed : Bool) (asset : CryptoAsset) (result : Result (Option CryptoFinding))
      → Reported allowed asset result
      → (f : Option CryptoFinding) × (result ≡ ok f)
        × (elim f [ none ↦ true | some g ↦ is_empty g.summary ] ≡ allowed)
  Reports-total true asset result h = (none, h, refl)
  Reports-total false asset result (f, e, severity, same, name, filled) = (some f, e, filled)

  is_empty-summaries :
      (signature asymmetric : Option CryptoFinding)
      → is_empty (summary_of signature ++ summary_of asymmetric) ≡ (
          elim signature [ none ↦ true | some g ↦ is_empty g.summary ]
          && elim asymmetric [ none ↦ true | some g ↦ is_empty g.summary ])
  is_empty-summaries none none = refl
  is_empty-summaries none (some g) = refl
  is_empty-summaries (some f) none = is_empty-append f.summary []
  is_empty-summaries (some f) (some g) = is_empty-append f.summary g.summary

  is_empty-certificate_summary :
      (kind : CertificateKind) (found : Bool × Option (List Requirement))
      (signature asymmetric : Option CryptoFinding)
      → is_empty (certificate_summary kind found signature asymmetric) ≡ (
          (found.0 && none_unmet found.1)
          && (elim signature [ none ↦ true | some g ↦ is_empty g.summary ]
              && elim asymmetric [ none ↦ true | some g ↦ is_empty g.summary ]))
  is_empty-certificate_summary kind (false, best) signature asymmetric = refl
  is_empty-certificate_summary kind (true, some (r ∷ rs)) signature asymmetric = refl
  is_empty-certificate_summary kind (true, none) signature asymmetric =
      is_empty-summaries signature asymmetric
  is_empty-certificate_summary kind (true, some []) signature asymmetric =
      is_empty-summaries signature asymmetric

  report_certificate-Reports :
      (asset : CryptoAsset) (kind : CertificateKind) (found : Bool × Option (List Requirement))
      (signature asymmetric : Option CryptoFinding)
      → Reported (is_empty (certificate_summary kind found signature asymmetric)) asset (
          report_certificate compile fullmatch_ignore_case standard cfg asset kind found signature
            asymmetric)
  unfolding report_certificate
  report_certificate-Reports asset kind found signature asymmetric =
      by_summary (certificate_summary kind found signature asymmetric)
    where
      by_summary :
          (summary : List Remark)
          → Reported (is_empty summary) asset (
              if is_empty summary
              then ok none
              else finding_for compile fullmatch_ignore_case standard cfg
                  FindingRatings.not_compliant asset summary)
      by_summary [] = refl
      by_summary (s ∷ ss) =
          finding_for-Reports compile fullmatch_ignore_case standard cfg c categorised asset
            (s ∷ ss) refl

  -- For a certificate whose references can be resolved, validate_certificate returns no finding if
  -- the standard allows the algorithm of its signature, the algorithm of its public key with its
  -- size and curve, and has a definition for its kind that allows the size, the curve and the
  -- years of validity. Otherwise it returns one finding for the certificate with the severity of
  -- the configuration's categorisation for what is not compliant.
  pub validate_certificate-Reports :
      (asset : CryptoAsset) (p : CertificateProperties) (crypto_assets : List CryptoAsset)
      (r : References)
      → asset.asset_type ≡ CryptoAssetTypes.certificate
      → asset.properties ≡ Properties.of_certificate p
      → IsResolved p crypto_assets r
      → Reports compile fullmatch_ignore_case standard cfg c categorised
          (allows_certificate standard p.kind (size_or_unknown r.size) r.curve p.validity_years
            && (allows_signature fullmatch_ignore_case standard r.signature_name
                && allows_asymmetric fullmatch_ignore_case standard r.asymmetric_name
                    (size_or_unknown r.size)
                    r.curve))
          asset
          (validate_certificate compile fullmatch_ignore_case standard cfg asset crypto_assets)
  unfolding validate_certificate allows_certificate
  validate_certificate-Reports asset p crypto_assets r type properties resolved =
      let validated = validate_certificate_of compile fullmatch_ignore_case standard cfg in
      let same =
        ap (λ t. validated t asset.properties asset crypto_assets) type
        ∙ ap (λ q. validated CryptoAssetTypes.certificate q asset crypto_assets) properties in
      let (signature, e1, allowed1) = Reports-total _ r.signature_algorithm _ (
        validate_signature_algorithm-Reports compile fullmatch_ignore_case standard cfg c
          categorised r.signature_name r.signature_algorithm) in
      let (asymmetric, e2, allowed2) = Reports-total _ r.asymmetric_algorithm _ (
        validate_asymmetric_algorithm-Reports compile fullmatch_ignore_case standard cfg c
          categorised r.asymmetric_name (size_or_unknown r.size) r.curve r.asymmetric_algorithm) in
      let (found, e3, m, allowed3) =
        check_unmet_requirements-is_allowed (is_of_kind p.kind)
          (λ d. certificate_requirements (size_or_unknown r.size) r.curve p.validity_years d ∷ [])
          (concat standard.certificates)
          (All-always _
            (λ d. (
              certificate_requirements-IsStated (size_or_unknown r.size) r.curve p.validity_years d,
              tt,
            ))
            (concat standard.certificates)) in
      let summarised = is_empty-certificate_summary p.kind found signature asymmetric in
      let decided =
        certificates-allowed (size_or_unknown r.size) r.curve p.validity_years p.kind
          (concat standard.certificates) in
      let known : validated CryptoAssetTypes.certificate (Properties.of_certificate p) asset
            crypto_assets
          ≡ report_certificate compile fullmatch_ignore_case standard cfg asset p.kind found
              signature asymmetric =
        rw
          (
            resolved.signature, resolved.signature_named, e1, resolved.key, resolved.sized,
            resolved.referring, resolved.asymmetric, resolved.asymmetric_named, resolved.curved, e2,
            e3,
          )
          refl in
      rw (same, known, sym allowed1, sym allowed2, sym decided, sym allowed3, sym summarised)
        (report_certificate-Reports asset p.kind found signature asymmetric)
