-- ===== src/Finding/Total.antt =====
-- What `Finding._validate` (src/odg/findings.py) rules out, and what it leaves to the patterns, for
-- `categorise_finding`.
use odg_core.Prelude.{
  ◌≡◌, refl, Bool, true, false, not, Option, none, some, List, [], ◌∷◌, ◌++◌, arith, All,
  All-of_append, is_empty, if◌then◌else◌,
}
use odg_core.Prelude.Result.{Result, ok, Raised, raise_if, ◌>>=◌}
use odg_core.Prelude.Text.{Text}
use odg_core.Artefact.{Datatype}
use odg_core.Finding.Selectors.{
  Selector, Property, nothing, words, score, regex_any, score_matches, selects,
}
use odg_core.Finding.Categories.{FindingCategorisation}
use odg_core.Finding.Configs.{Finding, takes, first_taking, categorise_finding}
use odg_core.Finding.Validation.{
  Violation, violation_if, validate_categorisations, expected_selector, is_validated, violations,
  validate, more_violations,
}
use odg_core.Finding.Patterns.{
  Fits, patterns_of, IsPattern, ArePatterns, HasPatterns, regex_any_total, ghas_any_total,
  ip_matches_total,
}

-- Two collections of violations without any.
pub append-nil_inv : (xs ys : List Violation) → xs ++ ys ≡ [] → (xs ≡ []) × (ys ≡ [])
append-nil_inv [] ys e = (refl, e)
append-nil_inv (x ∷ xs) ys e = cc

pub violation_if-nil : (c : Bool) (v : Violation) → violation_if c v ≡ [] → c ≡ false
violation_if-nil true v e = cc
violation_if-nil false v e = refl

validate-nil : (cfg : Finding) → validate cfg ≡ ok tt → violations cfg ≡ []
unfolding validate
validate-nil cfg e = none_left (violations cfg) e
  where
    none_left :
        (vs : List Violation)
        → raise_if (not (is_empty vs)) Raised.model_validation_error ≡ ok tt
        → vs ≡ []
    none_left [] e = refl
    none_left (v ∷ vs) e = cc

-- Every selector of a categorisation without violations is of the expected class.
validate_categorisations-All :
    (expected : Selector → Bool) (cs : List FindingCategorisation)
    → validate_categorisations expected cs ≡ []
    → All (λ c. elim c.selector [ none ↦ true | some s ↦ expected s ] ≡ true) cs
unfolding validate_categorisations
validate_categorisations-All expected [] e = tt
validate_categorisations-All expected (c ∷ cs) e =
    let (selector, rest) = append-nil_inv _ _ e in
    let (_, rest') = append-nil_inv _ _ rest in
    (
      kept c.selector (violation_if-nil _ _ selector),
      validate_categorisations-All expected cs rest',
    )
  where
    kept :
        (s : Option Selector)
        → elim s [ none ↦ false | some s' ↦ not (expected s') ] ≡ false
        → elim s [ none ↦ true | some s' ↦ expected s' ] ≡ true
    kept none h = refl
    kept (some s) h = ground arith

Fits-IsValidated : (type : Datatype) (p : Property) → Fits type p → is_validated type ≡ true
Fits-IsValidated Datatype.codeql_finding p h = refl
Fits-IsValidated _ _ h = ground arith

-- A configuration that passed `_validate` has no violation of any kind.
pub validate-parts :
    (cfg : Finding)
    → validate cfg ≡ ok tt
    → is_validated cfg.type ≡ true
    → (validate_categorisations (expected_selector cfg.type) cfg.categorisations ≡ [])
      × (more_violations cfg ≡ [])
unfolding violations
validate-parts cfg valid h = append-nil_inv _ _ (rw h at (validate-nil cfg valid))

module _ (compile : Text → Result (Text → Bool)) where
  -- A selector of the expected class reads a fitting property.
  selects_total :
      (type : Datatype) (s : Selector) (property : Property) (labels : List Text)
      → expected_selector type s ≡ true
      → All (IsPattern compile) (patterns_of s)
      → Fits type property
      → (b : Bool) × (selects compile s property labels ≡ ok b)
  unfolding selects regex_any score_matches
  selects_total Datatype.codeql_finding (Selector.codeql ps) (words t) labels e k h =
      regex_any_total compile ps t k
  selects_total Datatype.osid_finding (Selector.osid ps) (words t) labels e k h =
      regex_any_total compile ps t k
  selects_total Datatype.crypto_finding (Selector.crypto ps) (words t) labels e k h =
      regex_any_total compile ps t k
  selects_total Datatype.license_finding (Selector.license ps) (words t) labels e k h =
      regex_any_total compile ps t k
  selects_total Datatype.malware_finding (Selector.malware ps) (words t) labels e k h =
      regex_any_total compile ps t k
  selects_total Datatype.sast_finding (Selector.sast ps) (words t) labels e k h =
      regex_any_total compile ps t k
  selects_total Datatype.ghas_finding (Selector.ghas rs) property labels e k h =
      ghas_any_total compile rs property k h
  selects_total Datatype.ip_finding (Selector.ip ids ps) property labels e k h =
      let (in_ids, in_ps) = All-of_append (IsPattern compile) ids ps k in
      ip_matches_total compile ids ps labels property in_ids in_ps h
  selects_total Datatype.vulnerability_finding (Selector.vulnerability r) (score n) labels e k h =
      (_, refl)
  selects_total Datatype.vulnerability_finding (Selector.vulnerability r) nothing labels e k h =
      (_, refl)
  selects_total _ _ _ labels e k h = absurd (ground arith)

  first_taking_total :
      (type : Datatype) (cs : List FindingCategorisation) (property : Property) (labels : List Text)
      → All (λ c. elim c.selector [ none ↦ true | some s ↦ expected_selector type s ] ≡ true) cs
      → All (HasPatterns compile) cs
      → Fits type property
      → (r : Option FindingCategorisation) × (first_taking compile cs property labels ≡ ok r)
  unfolding first_taking takes
  first_taking_total type [] property labels h k fits = (none, refl)
  first_taking_total type (c ∷ cs) property labels h k fits =
      let (r, e) = first_taking_total type cs property labels h.1 k.1 fits in
      step c.selector h.0 k.0 r e
    where
      step :
          (s : Option Selector)
          → elim s [ none ↦ true | some s' ↦ expected_selector type s' ] ≡ true
          → ArePatterns compile s
          → (r : Option FindingCategorisation) → first_taking compile cs property labels ≡ ok r
          → (r' : Option FindingCategorisation) × ((elim s [
            | none ↦ ok false
            | some s' ↦ selects compile s' property labels
          ]
                >>= λ b. if b then ok (some c) else first_taking compile cs property labels)
              ≡ ok r')
      step none h k r e = (r, e)
      step (some s) h k r e =
          let (b, t) = selects_total type s property labels h k fits in
          (if b then some c else r, rw t (ground arith))

  -- For a configuration that passed `_validate` and whose patterns are all valid regular expressions
  -- (which `_validate` does not look at), `categorise_finding` raises nothing on a property of the
  -- kind that belongs to its type.
  pub validate-categorise_total :
      (cfg : Finding) (property : Property) (labels : List Text)
      → validate cfg ≡ ok tt
      → All (HasPatterns compile) cfg.categorisations
      → Fits cfg.type property
      → (r : Option FindingCategorisation) × (categorise_finding compile cfg property labels ≡ ok r)
  unfolding categorise_finding
  validate-categorise_total cfg property labels valid patterns fits =
      first_taking_total cfg.type cfg.categorisations property labels
        (validate_categorisations-All (expected_selector cfg.type) cfg.categorisations
          (validate-parts cfg valid (Fits-IsValidated cfg.type property fits)).0)
        patterns fits
