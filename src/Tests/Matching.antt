-- ===== src/Tests/Matching.antt =====
-- Examples on rules for vectors of the CVSS and the categorisation of an artefact, and on ratings.
use odg_core.Prelude.{
  if◌then◌else◌, ℕ, ◌≡◌, refl, ◌↔◌, Bool, true, false, Option, none, some, List, [], ◌∷◌, Member,
}
use odg_core.Prelude.Result.{Result, ok, err, Raised}
use odg_core.Prelude.Text.{Text, text, ◌==◌}
use odg_core.Cvss.{
  AccessVector, AttackComplexity, UserInteraction, Scope, Level, Cvss, CveRescoringRule,
  parsed_cve_values, as_dict, matches_cvss, NetworkExposure, InteractingUserCategory,
  CveCategorisation, matches_categorisation, matching_rescore_rules,
}
use odg_core.Cvss.Unread.{matches_cvss_scope}
use odg_core.Cvss.Chosen.{IsMatching, matching_rescore_rules-IsMatching}
use odg_core.Cyclonedx.{CyclonedxRating, pick_rating}
use odg_core.Cyclonedx.Best.{IsFirstBest, pick_rating-IsFirstBest}

abbrev remote : Cvss
remote = record {
  access_vector = AccessVector.network;
  attack_complexity = AttackComplexity.low;
  user_interaction = UserInteraction.required;
  privileges_required = Level.absent;
  scope = Scope.changed;
  confidentiality = Level.high;
  integrity = Level.low;
  availability = Level.absent;
}

abbrev exposed : CveCategorisation
exposed = record {
  network_exposure = some NetworkExposure.public;
  authentication_enforced = some false;
  user_interaction = some InteractingUserCategory.operator;
  confidentiality_requirement = none;
  integrity_requirement = none;
  availability_requirement = none;
  comment = none;
}

-- What YAML reads as a Boolean here.
abbrev safe_load : Text → Result (Option Bool)
unfolding ◌==◌
safe_load t =
    if t == text "true"
    then ok (some true)
    else if t == text "false"
    then ok (some false)
    else ok none

abbrev near : CveRescoringRule
near = record {
  category_value = text "network_exposure:public";
  cve_values = text "AV:N" ∷ text "AV:A" ∷ text "PR:N" ∷ [];
}

abbrev physical : CveRescoringRule
physical = record {
  category_value = text "authentication_enforced:false";
  cve_values = text "AV:P" ∷ [];
}

abbrev legacy : CveRescoringRule
legacy = record {
  category_value = text "user_interaction:gardener-operator";
  cve_values = text "I:L" ∷ text "C:H" ∷ [];
}

-- Its values cannot be read, and need not be.
abbrev unused : CveRescoringRule
unused = record { category_value = text "network_exposure:private"; cve_values = text "S:C" ∷ [] }

abbrev unread : CveRescoringRule
unread = record { category_value = text "network_exposure:public"; cve_values = text "S:C" ∷ [] }

two_matching :
    matching_rescore_rules safe_load (near ∷ physical ∷ legacy ∷ unused ∷ []) exposed remote
    ≡ ok (near ∷ legacy ∷ [])
unfolding matching_rescore_rules odg_core.Cvss.access_vector_from odg_core.Cvss.level_from
two_matching = refl

scope_unknown :
    matching_rescore_rules safe_load (near ∷ unread ∷ []) exposed remote ≡ err Raised.value_error
unfolding matching_rescore_rules odg_core.Cvss.access_vector_from odg_core.Cvss.level_from
scope_unknown = refl

not_boolean :
    matches_categorisation safe_load
      (record { category_value = text "authentication_enforced:maybe"; cve_values = [] })
      exposed
    ≡ err Raised.value_error
unfolding matches_categorisation
not_boolean = refl

abbrev near_values : List (Text × ℕ)
near_values =
    (text "access_vector", b'N')
    ∷ (text "access_vector", b'A')
    ∷ (text "privileges_required", b'N')
    ∷ []

near_read : parsed_cve_values near ≡ ok near_values
unfolding parsed_cve_values odg_core.Cvss.access_vector_from odg_core.Cvss.level_from
near_read = refl

near_readable : matches_categorisation safe_load near exposed ≡ ok true
unfolding matches_categorisation
near_readable = refl

unused_readable : matches_categorisation safe_load unused exposed ≡ ok false
unfolding matches_categorisation
unused_readable = refl

matching_rescore_rules-IsMatching_example :
    (out : List CveRescoringRule) × (matching_rescore_rules safe_load
        (near ∷ unused ∷ [])
        exposed
        remote
      ≡ ok out)
    × ((rule : CveRescoringRule)
        → Member rule out
          ↔ (Member rule (near ∷ unused ∷ []) × IsMatching safe_load exposed remote rule))
matching_rescore_rules-IsMatching_example =
    matching_rescore_rules-IsMatching safe_load exposed remote (near ∷ unused ∷ []) (
      (true, near_readable, λ _. (near_values, near_read)),
      ((false, unused_readable, λ never. cc), tt),
    )

matches_cvss_scope_example : (raised : Raised) × (matches_cvss unread remote ≡ err raised)
matches_cvss_scope_example = matches_cvss_scope unread (text "C") remote (0, refl)

abbrev rating : Text → Text → CyclonedxRating
rating method source = record {
  method = method;
  score = some 75;
  severity = text "high";
  vector = none;
  source_name = some source;
}

abbrev by_version_2 : CyclonedxRating
by_version_2 = rating (text "CVSSv2") (text "nvd")

abbrev by_ghsa : CyclonedxRating
by_ghsa = rating (text "CVSSv31") (text "GHSA")

abbrev by_nvd : CyclonedxRating
by_nvd = rating (text "CVSSv3") (text "National Vulnerability Database")

nvd_picked : pick_rating (by_version_2 ∷ by_ghsa ∷ by_nvd ∷ []) ≡ some by_nvd
unfolding pick_rating
nvd_picked = refl

ghsa_picked : pick_rating (by_version_2 ∷ by_ghsa ∷ []) ≡ some by_ghsa
unfolding pick_rating
ghsa_picked = refl

pick_rating-IsFirstBest_example :
    (best : CyclonedxRating) × (pick_rating (by_version_2 ∷ by_ghsa ∷ by_nvd ∷ []) ≡ some best)
    × IsFirstBest (by_version_2 ∷ by_ghsa ∷ by_nvd ∷ []) best
pick_rating-IsFirstBest_example = pick_rating-IsFirstBest by_version_2 (by_ghsa ∷ by_nvd ∷ [])
