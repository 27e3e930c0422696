-- ===== src/Cvss/Unread.antt =====
-- Rules that `CveRescoringRule.matches_cvss` cannot compare with a vector (src/rescore/model.py).
use odg_core.Prelude.{◌≡◌, refl, ap, ◌∙◌, zero, suc, List, [], ◌∷◌, ◌++◌, Member}
use odg_core.Prelude.Result.{Result, ok, err, Raised, ◌>>=◌, map_result}
use odg_core.Prelude.Text.{Text, text}
use odg_core.Cvss.Defs.{Cvss}
use odg_core.Cvss.Rules.{CveRescoringRule, parsed_cve_value, parsed_cve_values, matches_cvss}

module _ {ℓ κ} {A : Type ℓ} {B : Type κ} (f : A → Result B) where
  after_raises :
      (first : Result B) (rest : Result (List B)) (raised : Raised)
      → rest ≡ err raised
      → (sooner : Raised) × ((first >>= λ z. rest >>= λ zs. ok (z ∷ zs)) ≡ err sooner)
  after_raises (err e) rest raised h = (e, refl)
  after_raises (ok z) rest raised h = (raised, rw h refl)

  -- One item that raises is enough for the sequence to raise.
  map_result_raises :
      (xs : List A) (x : A) (e : Raised)
      → Member x xs
      → f x ≡ err e
      → (raised : Raised) × (map_result f xs ≡ err raised)
  map_result_raises [] x e (i, m) h = cc
  map_result_raises (y ∷ xs) x e (zero, m) h =
      let same : y ≡ x = cc in let raises : f y ≡ err e = ap f same ∙ h in (e, rw raises refl)
  map_result_raises (y ∷ xs) x e (suc i, m) h =
      let (raised, rest) = map_result_raises xs x e (i, m) h in
      after_raises (f y) (map_result f xs) raised rest

-- The scope has no name that attr_name_from_CVSS knows.
scope_raises : (value : Text) → parsed_cve_value (text "S:" ++ value) ≡ err Raised.value_error
unfolding parsed_cve_value
scope_raises value = refl

-- A rule with a value for the scope raises for every vector, whatever the value is and whatever
-- other values the rule has.
pub matches_cvss_scope :
    (rule : CveRescoringRule) (value : Text) (cvss : Cvss)
    → Member (text "S:" ++ value) rule.cve_values
    → (raised : Raised) × (matches_cvss rule cvss ≡ err raised)
unfolding matches_cvss parsed_cve_values
matches_cvss_scope rule value cvss named =
    let (raised, read) =
      map_result_raises parsed_cve_value rule.cve_values _ _ named (scope_raises value) in
    (raised, rw read refl)
