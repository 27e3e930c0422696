-- ===== src/Crypto/Kinds.antt =====
-- Which definitions of certificates `validate_certificate` finds for a kind
-- (src/crypto_extension/validate.py).
use odg_core.Prelude.{
  ◌≡◌, refl, Bool, false, not, ◌&&◌, ◌||◌, Option, none, some, List, [], ◌∷◌, ◌++◌, arith, any, All,
}
use odg_core.Prelude.Int.{ℤ}
use odg_core.Prelude.Text.{Text, ◌==◌}
use odg_core.Crypto.Assets.{CertificateKind}
use odg_core.Crypto.Standards.{MinMaxEnumProperties, Standard, CertificateDefinition, check_value}
use odg_core.Crypto.Requirements.{ActualValue, Requirement}
use odg_core.Crypto.Algorithms.{curve_requirements}
use odg_core.Crypto.Certificates.{
  years, validity_requirements, certificate_requirements, is_of_kind, concat,
}
use odg_core.Crypto.Unmet.{IsStated, all_hold, is_allowed, fulfils, offers}
use odg_core.Crypto.Allowing.{
  any-ext, allows_curve, allows_length, curve_requirements-all_hold, curve_requirements-IsStated,
}

-- A definition for the kind allows the curve, the key length and the years of validity.
unfoldable pub allows_certificate :
    Standard → CertificateKind → ActualValue → Option Text → Option ℤ → Bool
unfolding any allows_curve allows_length ◌==◌
allows_certificate standard kind key_length curve validity_years =
    any
      (λ (d : CertificateDefinition).
        is_of_kind kind d
        && (allows_curve d.curves curve
            && (allows_length d.key_length key_length
                && allows_length d.validity_years (years validity_years))))
      (concat standard.certificates)

pub all_hold-append :
    (rs ss : List Requirement) → all_hold (rs ++ ss) ≡ (all_hold rs && all_hold ss)
all_hold-append [] ss = refl
all_hold-append (r ∷ rs) ss = ground (arith, all_hold-append rs ss)

pub all_hold-append_nested :
    (rs ss ts : List Requirement) (a b c : Bool)
    → all_hold (rs ++ ss) ≡ (a && b)
    → all_hold ts ≡ c
    → all_hold (rs ++ (ss ++ ts)) ≡ (a && (b && c))
all_hold-append_nested rs ss ts a b c h k =
    let first = all_hold-append rs ss in
    rw (all_hold-append rs (ss ++ ts), all_hold-append ss ts) (ground arith)

pub All-append_nested :
    (rs ss ts : List Requirement)
    → All IsStated (rs ++ ss)
    → All IsStated ts
    → All IsStated (rs ++ (ss ++ ts))
All-append_nested [] [] ts h k = k
All-append_nested [] (s ∷ ss) ts h k = (h.0, All-append_nested [] ss ts h.1 k)
All-append_nested (r ∷ rs) ss ts h k = (h.0, All-append_nested rs ss ts h.1 k)

validity_requirements-all_hold :
    (limits : Option MinMaxEnumProperties) (actual : ActualValue)
    → all_hold (validity_requirements limits actual) ≡ allows_length limits actual
unfolding allows_length check_value any ◌==◌
validity_requirements-all_hold none actual = refl
validity_requirements-all_hold (some limits) actual = ground arith

validity_requirements-IsStated :
    (limits : Option MinMaxEnumProperties) (actual : ActualValue)
    → All IsStated (validity_requirements limits actual)
validity_requirements-IsStated none actual = tt
validity_requirements-IsStated (some limits) actual = (tt, tt)

any_and_imp {ℓ} :
    {A : Type ℓ} (p q : A → Bool) (xs : List A)
    → (any (λ x. p x && q x) xs && not (any p xs)) ≡ false
unfolding any
any_and_imp p q [] = refl
any_and_imp p q (x ∷ xs) = ground (arith, any_and_imp p q xs)

any_and {ℓ} :
    {A : Type ℓ} (p q : A → Bool) (xs : List A)
    → (any p xs && (any (λ x. p x && q x) xs || not (any p xs))) ≡ any (λ x. p x && q x) xs
any_and p q xs = let h = any_and_imp p q xs in ground arith

module _ (key_length : ActualValue) (curve : Option Text) (validity_years : Option ℤ) where
  abbrev pub allows_definition : CertificateDefinition → Bool
  unfolding allows_curve allows_length
  allows_definition d =
      allows_curve d.curves curve
      && (allows_length d.key_length key_length
          && allows_length d.validity_years (years validity_years))

  certificate_requirements-all_hold :
      (d : CertificateDefinition)
      → all_hold (certificate_requirements key_length curve validity_years d) ≡ allows_definition d
  unfolding allows_definition allows_curve
  certificate_requirements-all_hold d =
      all_hold-append_nested (curve_requirements d.curves curve) _ _ (allows_curve d.curves curve)
        (allows_length d.key_length key_length)
        (allows_length d.validity_years (years validity_years))
        (curve_requirements-all_hold d.curves curve d.key_length key_length)
        (validity_requirements-all_hold d.validity_years (years validity_years))

  pub certificate_requirements-IsStated :
      (d : CertificateDefinition)
      → All IsStated (certificate_requirements key_length curve validity_years d)
  certificate_requirements-IsStated d =
      All-append_nested (curve_requirements d.curves curve) _ _
        (curve_requirements-IsStated d.curves curve d.key_length key_length)
        (validity_requirements-IsStated d.validity_years (years validity_years))

  -- Every definition for the kind has requirements of its own.
  pub certificates-allowed :
      (kind : CertificateKind) (ds : List CertificateDefinition)
      → is_allowed
          (is_of_kind kind)
          (λ d. certificate_requirements key_length curve validity_years d ∷ [])
          ds
        ≡ any (λ d. is_of_kind kind d && allows_definition d) ds
  unfolding any
  certificates-allowed kind ds =
      let requirements : CertificateDefinition → List (List Requirement) =
        λ d. certificate_requirements key_length curve validity_years d ∷ [] in
      rw
        (
          any-ext (fulfils (is_of_kind kind) requirements)
              (λ d. is_of_kind kind d && allows_definition d)
              (λ d. let h = certificate_requirements-all_hold d in ground arith) ds,
          any-ext (offers (is_of_kind kind) requirements) (is_of_kind kind) (λ d. ground arith) ds,
        )
        (any_and (is_of_kind kind) allows_definition ds)
