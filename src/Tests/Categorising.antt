-- ===== src/Tests/Categorising.antt =====
-- Examples on categorisations and on the validation of configurations.
use odg_core.Prelude.{ℕ, ◌≡◌, refl, ◌↔◌, Option, none, some, List, [], ◌∷◌}
use odg_core.Prelude.Int.{ℤ, pos, negsuc}
use odg_core.Prelude.Result.{ok, err, Raised}
use odg_core.Prelude.Text.{Text, text, ◌==◌}
use odg_core.Artefact.{Datatype}
use odg_core.Finding.{
  Selector, MinMaxRange, Property, nothing, words, score, FindingCategorisation, RescoringModes,
  ProcessingTime, seconds, Operation, RuleOperation, stepping, named, Rule, Operations, RuleSet,
  RuleSetKind, Finding, categorise_finding, validate,
}
use odg_core.Finding.Choice.{IsFirst, categorise_finding_iff}
use odg_core.Finding.Total.{validate-categorise_total}
use odg_core.Tests.Data.{wildcard, compile_wildcard}

abbrev pub severity : Text → ℤ → ℕ → ℕ → FindingCategorisation
severity id value low high = record {
  id = id;
  display_name = id;
  value = value;
  allowed_processing_time = some (seconds (pos 86400));
  rescoring = RescoringModes.automatic ∷ [];
  selector = some (Selector.vulnerability (record { min = low; max = high }));
}

abbrev pub none_severity : FindingCategorisation
none_severity = severity (text "NONE") (pos 0) 0 0

abbrev low_severity : FindingCategorisation
low_severity = severity (text "LOW") (pos 1) 1 39

abbrev pub high_severity : FindingCategorisation
high_severity = severity (text "HIGH") (pos 4) 40 100

abbrev pub severities : List FindingCategorisation
severities = none_severity ∷ low_severity ∷ high_severity ∷ []

abbrev by_one : Operation
by_one = record { order = text "NONE" ∷ text "LOW" ∷ text "HIGH" ∷ []; value = negsuc 0 }

abbrev pub reduce_rule : Rule
reduce_rule = record { name = text "reduce"; operation = named (text "reduce") }

abbrev pub drop_rule : Rule
drop_rule = record { name = text "drop"; operation = named (text "set-to-NONE") }

abbrev pub cve_ruleset : RuleSet
cve_ruleset = record {
  kind = RuleSetKind.cve_rules;
  rules = reduce_rule ∷ drop_rule ∷ [];
  operations = some ((text "reduce", stepping by_one) ∷ []);
}

abbrev pub vulnerabilities : Finding
vulnerabilities = record {
  type = Datatype.vulnerability_finding;
  categorisations = severities;
  filter = none;
  rescoring_ruleset = some cve_ruleset;
}

pub vulnerabilities_valid : validate vulnerabilities ≡ ok tt
unfolding validate odg_core.Finding.categorisation_by_id?
vulnerabilities_valid = refl

low_is_chosen :
    categorise_finding compile_wildcard vulnerabilities (score 25) [] ≡ ok (some low_severity)
unfolding categorise_finding
low_is_chosen = refl

categorise_finding_iff_example :
    (categorise_finding compile_wildcard vulnerabilities (score 25) [] ≡ ok (some low_severity))
    ↔ IsFirst compile_wildcard (score 25) [] severities (some low_severity)
categorise_finding_iff_example =
    categorise_finding_iff compile_wildcard (score 25) [] vulnerabilities (some low_severity)

abbrev malware_of : List Text → Finding
malware_of patterns = record vulnerabilities {
  type = Datatype.malware_finding;
  categorisations =
      record none_severity { selector = none }
      ∷ record high_severity { selector = some (Selector.malware patterns) }
      ∷ [];
  rescoring_ruleset = none;
}

malware_valid : validate (malware_of (text "Eicar" ∷ text ".*" ∷ [])) ≡ ok tt
unfolding validate odg_core.Finding.categorisation_by_id?
malware_valid = refl

eicar_compiles : compile_wildcard (text "Eicar") ≡ ok (wildcard (text "Eicar"))
unfolding ◌==◌
eicar_compiles = refl

all_compiles : compile_wildcard (text ".*") ≡ ok (wildcard (text ".*"))
unfolding ◌==◌
all_compiles = refl

validate-categorise_total_example :
    (r : Option FindingCategorisation) × (categorise_finding compile_wildcard
        (malware_of (text "Eicar" ∷ text ".*" ∷ []))
        (words (text "Trojan"))
        []
      ≡ ok r)
validate-categorise_total_example =
    validate-categorise_total compile_wildcard (malware_of (text "Eicar" ∷ text ".*" ∷ []))
      (words (text "Trojan")) [] malware_valid
      (
        tt,
        (
          ((wildcard (text "Eicar"), eicar_compiles), ((wildcard (text ".*"), all_compiles), tt)),
          tt,
        ),
      )
      tt

broken_valid : validate (malware_of (text "[" ∷ [])) ≡ ok tt
unfolding validate odg_core.Finding.categorisation_by_id?
broken_valid = refl

-- A selector whose pattern is no regular expression passes the validation and raises here.
broken_pattern :
    categorise_finding compile_wildcard (malware_of (text "[" ∷ [])) (words (text "Eicar")) []
    ≡ err Raised.regex_error
unfolding categorise_finding ◌==◌
broken_pattern = refl
