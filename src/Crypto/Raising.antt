-- ===== src/Crypto/Raising.antt =====
-- Assets for which `validate_against_standard` raises (src/crypto_extension/validate.py).
use odg_core.Prelude.{◌≡◌, refl, ap, ◌∙◌, Bool, Option, zero, suc, List, [], ◌∷◌, Member}
use odg_core.Prelude.Result.{Result, ok, err, Raised, ◌>>=◌}
use odg_core.Prelude.Text.{Text}
use odg_core.Finding.{Finding}
use odg_core.Crypto.Assets.{CryptoAsset, CryptoAssetTypes}
use odg_core.Crypto.Standards.{Standard}
use odg_core.Crypto.Algorithms.{CryptoFinding}
use odg_core.Crypto.Dispatch.{
  validate_protocol, validate_asset, validate_each, validate_against_standard, yielded,
}

module _ (compile : Text → Result (Text → Bool)) (fullmatch_ignore_case : Text → Text → Bool)
    (standard : Standard) (cfg : Finding) where
  after_raises :
      (first : Result (Option CryptoFinding)) (rest : Result (List CryptoFinding)) (raised : Raised)
      → rest ≡ err raised
      → (sooner : Raised) × ((first >>= λ f.
            rest >>= λ fs. ok (yielded compile fullmatch_ignore_case standard cfg f fs))
          ≡ err sooner)
  after_raises (err e) rest raised h = (e, refl)
  after_raises (ok z) rest raised h = (raised, rw h refl)

  -- One asset that raises is enough.
  validate_each_raises :
      (crypto_assets assets : List CryptoAsset) (a : CryptoAsset) (e : Raised)
      → Member a assets
      → validate_asset compile fullmatch_ignore_case standard cfg crypto_assets a ≡ err e
      → (raised : Raised) × (validate_each compile fullmatch_ignore_case standard cfg crypto_assets
            assets
          ≡ err raised)
  unfolding validate_each
  validate_each_raises crypto_assets [] a e (i, m) h = cc
  validate_each_raises crypto_assets (b ∷ assets) a e (zero, m) h =
      let same : b ≡ a = cc in
      let raises =
        ap (validate_asset compile fullmatch_ignore_case standard cfg crypto_assets) same ∙ h in
      (e, rw raises refl)
  validate_each_raises crypto_assets (b ∷ assets) a e (suc i, m) h =
      let (raised, rest) = validate_each_raises crypto_assets assets a e (i, m) h in
      after_raises (validate_asset compile fullmatch_ignore_case standard cfg crypto_assets b)
        (validate_each compile fullmatch_ignore_case standard cfg crypto_assets assets) raised rest

  validate_asset_protocol :
      (crypto_assets : List CryptoAsset) (a : CryptoAsset)
      → a.asset_type ≡ CryptoAssetTypes.protocol
      → validate_asset compile fullmatch_ignore_case standard cfg crypto_assets a
        ≡ err Raised.value_error
  unfolding validate_asset validate_protocol
  validate_asset_protocol crypto_assets a type = rw type refl

  -- With an asset for a protocol among the assets, validate_against_standard raises, whatever the
  -- standard and the other assets are.
  pub validate_against_standard_protocol :
      (crypto_assets : List CryptoAsset) (a : CryptoAsset)
      → Member a crypto_assets
      → a.asset_type ≡ CryptoAssetTypes.protocol
      → (raised : Raised) × (validate_against_standard compile fullmatch_ignore_case standard cfg
            crypto_assets
          ≡ err raised)
  unfolding validate_against_standard
  validate_against_standard_protocol crypto_assets a member type =
      validate_each_raises crypto_assets crypto_assets a Raised.value_error member
        (validate_asset_protocol crypto_assets a type)
