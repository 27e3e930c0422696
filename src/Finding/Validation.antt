-- ===== src/Finding/Validation.antt =====
-- src/odg/findings.py: `Finding._validate`, which runs at the end of `__post_init__`.
use odg_core.Prelude.{
  Bool, true, false, not, ◌&&◌, Option, none, some, List, [], ◌∷◌, ◌++◌, is_empty, if◌then◌else◌,
}
use odg_core.Prelude.Result.{Result, Raised, raise_if}
use odg_core.Prelude.Text.{Text, text, ◌==◌, starts_with, remove_prefix}
use odg_core.Artefact.{Datatype}
use odg_core.Finding.Selectors.{Selector}
use odg_core.Finding.Categories.{FindingCategorisation}
use odg_core.Finding.Configs.{
  RuleOperation, stepping, named, Rule, Operations, RuleSetKind, RuleSet, Finding,
  categorisation_by_id?, none_categorisation,
}

-- `consts.RESCORING_OPERATOR_SET_TO_PREFIX`
abbrev pub set_to_prefix : Text
set_to_prefix = text "set-to-"

-- The texts that `_validate` collects.
pub data Violation : Type 0 where
  wrong_selector reserved_prefix no_none_categorisation wrong_ruleset unknown_operator : Violation

abbrev pub is_some {ℓ} : {A : Type ℓ} → Option A → Bool
is_some none = false
is_some (some a) = true

unfoldable pub lookup_operation : Text → Operations → Option RuleOperation
unfolding ◌==◌
lookup_operation name [] = none
lookup_operation name ((key, op) ∷ rest) =
    let later = lookup_operation name rest in if key == name then some op else later

abbrev pub or_no_operations : Option Operations → Operations
or_no_operations none = []
or_no_operations (some ops) = ops

abbrev pub violation_if : Bool → Violation → List Violation
violation_if c v = if c then v ∷ [] else []

-- `_validate_categorisations`, given the test `isinstance(selector, expected_selector)`
unfoldable pub validate_categorisations :
    (Selector → Bool) → List FindingCategorisation → List Violation
unfolding starts_with
validate_categorisations expected [] = []
validate_categorisations expected (c ∷ cs) =
    violation_if (elim c.selector [ none ↦ false | some s ↦ not (expected s) ])
      Violation.wrong_selector
    ++ (violation_if (starts_with set_to_prefix c.id) Violation.reserved_prefix
        ++ validate_categorisations expected cs)

unfoldable pub validate_order : Finding → Operations → List Text → List Violation
unfolding lookup_operation
validate_order cfg operations [] = []
validate_order cfg operations (id ∷ ids) =
    violation_if
      (not (is_some (lookup_operation id operations))
        && not (is_some (categorisation_by_id? cfg id)))
      Violation.unknown_operator
    ++ validate_order cfg operations ids

-- `_validate_rescoring_ruleset_operation`
unfoldable pub validate_operation : Finding → RuleOperation → Operations → List Violation
unfolding validate_order starts_with remove_prefix
validate_operation cfg (named n) operations =
    if is_some (lookup_operation n operations)
    then []
    else if starts_with set_to_prefix n
        && is_some (categorisation_by_id? cfg (remove_prefix set_to_prefix n))
    then []
    else Violation.unknown_operator ∷ []
validate_operation cfg (stepping o) operations = validate_order cfg operations o.order

unfoldable pub validate_operations : Finding → Operations → List Violation
unfolding validate_operation
validate_operations cfg [] = []
validate_operations cfg (entry ∷ rest) =
    validate_operation cfg entry.1 [] ++ validate_operations cfg rest

unfoldable pub validate_rules : Finding → Operations → List Rule → List Violation
unfolding validate_operation
validate_rules cfg operations [] = []
validate_rules cfg operations (rule ∷ rules) =
    validate_operation cfg rule.operation operations ++ validate_rules cfg operations rules

-- `_validate_rescoring_ruleset`
unfoldable pub validate_rescoring_ruleset : Finding → RuleSet → List Violation
unfolding validate_operations validate_rules
validate_rescoring_ruleset cfg rs =
    validate_operations cfg (or_no_operations rs.operations)
    ++ validate_rules cfg (or_no_operations rs.operations) rs.rules

abbrev pub is_kind : RuleSetKind → RuleSetKind → Bool
is_kind RuleSetKind.sast_rules RuleSetKind.sast_rules = true
is_kind RuleSetKind.cve_rules RuleSetKind.cve_rules = true
is_kind _ _ = false

-- The part on the rule set that `_validate_sast` and `_validate_vulnerabilty` share.
unfoldable pub validate_ruleset : Finding → RuleSetKind → List Violation
unfolding validate_rescoring_ruleset
validate_ruleset cfg kind = elim cfg.rescoring_ruleset [
  | none ↦ []
  | some rs ↦
      if is_kind kind rs.kind
      then validate_rescoring_ruleset cfg rs
      else Violation.wrong_ruleset ∷ []
]

-- `isinstance(selector, expected_selector)` for the class that the method for the type expects;
-- `_validate_diki` and `_validate_inventory` expect none.
abbrev pub expected_selector : Datatype → Selector → Bool
expected_selector Datatype.codeql_finding (Selector.codeql _) = true
expected_selector Datatype.codeql_finding _ = false
expected_selector Datatype.osid_finding (Selector.osid _) = true
expected_selector Datatype.osid_finding _ = false
expected_selector Datatype.crypto_finding (Selector.crypto _) = true
expected_selector Datatype.crypto_finding _ = false
expected_selector Datatype.ghas_finding (Selector.ghas _) = true
expected_selector Datatype.ghas_finding _ = false
expected_selector Datatype.license_finding (Selector.license _) = true
expected_selector Datatype.license_finding _ = false
expected_selector Datatype.malware_finding (Selector.malware _) = true
expected_selector Datatype.malware_finding _ = false
expected_selector Datatype.sast_finding (Selector.sast _) = true
expected_selector Datatype.sast_finding _ = false
expected_selector Datatype.vulnerability_finding (Selector.vulnerability _) = true
expected_selector Datatype.vulnerability_finding _ = false
expected_selector Datatype.ip_finding (Selector.ip _ _) = true
expected_selector Datatype.ip_finding _ = false
expected_selector _ _ = true

-- The types with a `_validate_…` method.
abbrev pub is_validated : Datatype → Bool
is_validated Datatype.codeql_finding = true
is_validated Datatype.osid_finding = true
is_validated Datatype.crypto_finding = true
is_validated Datatype.diki_finding = true
is_validated Datatype.ghas_finding = true
is_validated Datatype.license_finding = true
is_validated Datatype.malware_finding = true
is_validated Datatype.sast_finding = true
is_validated Datatype.vulnerability_finding = true
is_validated Datatype.inventory_finding = true
is_validated Datatype.ip_finding = true
is_validated _ = false

-- What `_validate_sast` and `_validate_vulnerabilty` check besides the categorisations.
unfoldable pub more_violations : Finding → List Violation
unfolding validate_ruleset none_categorisation
more_violations cfg = elim cfg.type [
  | Datatype.sast_finding ↦ validate_ruleset cfg RuleSetKind.sast_rules
  | Datatype.vulnerability_finding ↦
      violation_if (not (is_some (none_categorisation cfg))) Violation.no_none_categorisation
      ++ validate_ruleset cfg RuleSetKind.cve_rules
  | _ ↦ []
]

-- The violations that the method for the type collects.
unfoldable pub violations : Finding → List Violation
unfolding validate_categorisations more_violations
violations cfg =
    if is_validated cfg.type
    then validate_categorisations (expected_selector cfg.type) cfg.categorisations
      ++ more_violations cfg
    else []

-- `Finding._validate`
unfoldable pub validate : Finding → Result (Unit {0})
unfolding violations
validate cfg = raise_if (not (is_empty (violations cfg))) Raised.model_validation_error
