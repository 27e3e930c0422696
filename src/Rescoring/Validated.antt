-- ===== src/Rescoring/Validated.antt =====
-- `rescore_finding` for a configuration that passed `Finding._validate`: it raises nothing.
use odg_core.Prelude.{
  ◌≡◌, refl, inl, inr, Bool, true, false, not, ◌&&◌, some, List, [], ◌∷◌, arith, subst, All, Member,
  All→Member, All-map_of, ◌++◌, Bool-cases, Option-cases, if◌then◌else◌,
}
use odg_core.Prelude.Result.{ok}
use odg_core.Prelude.Text.{Text, ◌==◌, starts_with, remove_prefix}
use odg_core.Artefact.{Datatype}
use odg_core.Finding.{
  FindingCategorisation, RuleOperation, stepping, named, Rule, Operations, RuleSet, RuleSetKind,
  Finding, categorisation_by_id?, set_to_prefix, Violation, violation_if, none_categorisation,
  is_kind, is_validated, is_some, lookup_operation, or_no_operations, validate, validate_order,
  validate_operation, validate_operations, validate_rules, validate_rescoring_ruleset,
  validate_ruleset, more_violations,
}
use odg_core.Finding.Total.{append-nil_inv, violation_if-nil, validate-parts}
use odg_core.Rescoring.Applying.{resolve_operation, rescore_finding}
use odg_core.Rescoring.Leading.{IsKnown, Leads, Resolves, apply_rules_total}

-- The operation is a text, not an order of its own.
abbrev IsNamed : RuleOperation → Type 0
IsNamed (named n) = Unit
IsNamed (stepping o) = ⊥

-- An order of the rule set lists every categorisation.
abbrev ListsAll : Finding → RuleOperation → Type 0
ListsAll cfg (named n) = Unit
ListsAll cfg (stepping o) = All (λ c. Member c.id o.order) cfg.categorisations

validate_order-IsKnown :
    (cfg : Finding) (ids : List Text) → validate_order cfg [] ids ≡ [] → All (IsKnown cfg) ids
unfolding validate_order lookup_operation
validate_order-IsKnown cfg [] e = tt
validate_order-IsKnown cfg (id ∷ ids) e =
    let (here, rest) = append-nil_inv _ _ e in
    let unknown = violation_if-nil _ _ here in (ground arith, validate_order-IsKnown cfg ids rest)

-- A text without a violation, where it is no key, names a categorisation behind its prefix.
set_to-Leads :
    (cfg : Finding) (n : Text)
    → (if starts_with set_to_prefix n
          && is_some (categorisation_by_id? cfg (remove_prefix set_to_prefix n))
        then []
        else Violation.unknown_operator ∷ [])
      ≡ []
    → Leads cfg (named n)
set_to-Leads cfg n e = ground arith

-- An operation of the rule set without violations
validate_operation-Leads :
    (cfg : Finding) (op : RuleOperation)
    → validate_operation cfg op [] ≡ []
    → ListsAll cfg op
    → Leads cfg op
unfolding validate_operation lookup_operation
validate_operation-Leads cfg (stepping o) e covers = (validate_order-IsKnown cfg o.order e, covers)
validate_operation-Leads cfg (named n) e covers = set_to-Leads cfg n e

validate_operations-Leads :
    (cfg : Finding) (operations : Operations)
    → validate_operations cfg operations ≡ []
    → All (λ entry. ListsAll cfg entry.1) operations
    → All (λ entry. Leads cfg entry.1) operations
unfolding validate_operations
validate_operations-Leads cfg [] e covers = tt
validate_operations-Leads cfg (entry ∷ rest) e covers =
    let (here, later) = append-nil_inv _ _ e in
    (
      validate_operation-Leads cfg entry.1 here covers.0,
      validate_operations-Leads cfg rest later covers.1,
    )

lookup_operation-Leads :
    (cfg : Finding) (n : Text) (operations : Operations) (op : RuleOperation)
    → All (λ entry. Leads cfg entry.1) operations
    → lookup_operation n operations ≡ some op
    → Leads cfg op
unfolding lookup_operation
lookup_operation-Leads cfg n [] op h e = cc
lookup_operation-Leads cfg n ((key, o) ∷ rest) op h e = elim (Bool-cases (key == n)) [
  | inl t ↦
      let e' : some o ≡ some op = rw t at e in let same : o ≡ op = cc in subst (Leads cfg) same h.0
  | inr f ↦ lookup_operation-Leads cfg n rest op h.1 (rw f at e)
]

validate_operation-Resolves :
    (cfg : Finding) (operations : Operations) (rule : Rule)
    → validate_operation cfg rule.operation operations ≡ []
    → IsNamed rule.operation
    → All (λ entry. Leads cfg entry.1) operations
    → Resolves cfg operations rule
unfolding validate_operation resolve_operation
validate_operation-Resolves cfg operations rule e is_named h =
    by_operation rule.operation e is_named
  where
    by_operation :
        (operation : RuleOperation)
        → validate_operation cfg operation operations ≡ []
        → IsNamed operation
        → (op : RuleOperation) × (resolve_operation operations operation ≡ ok op) × Leads cfg op
    by_operation (stepping o) e is_named = absurd is_named
    by_operation (named n) e is_named = elim (Option-cases (lookup_operation n operations)) [
      | inl t ↦ (named n, rw (resolve_operation, t) refl, set_to-Leads cfg n (rw t at e))
      | inr (op, t) ↦
          (op, rw (resolve_operation, t) refl, lookup_operation-Leads cfg n operations op h t)
    ]

validate_rules-Resolves :
    (cfg : Finding) (operations : Operations) (rules : List Rule)
    → validate_rules cfg operations rules ≡ []
    → All (λ rule. IsNamed rule.operation) rules
    → All (λ entry. Leads cfg entry.1) operations
    → All (Resolves cfg operations) rules
unfolding validate_rules
validate_rules-Resolves cfg operations [] e n h = tt
validate_rules-Resolves cfg operations (rule ∷ rules) e n h =
    let (here, later) = append-nil_inv _ _ e in
    (
      validate_operation-Resolves cfg operations rule here n.0 h,
      validate_rules-Resolves cfg operations rules later n.1 h,
    )

-- The types whose rule sets `_validate` checks.
abbrev HasRules : Datatype → Type 0
HasRules Datatype.sast_finding = Unit
HasRules Datatype.vulnerability_finding = Unit
HasRules _ = ⊥

HasRules-IsValidated : (type : Datatype) → HasRules type → is_validated type ≡ true
HasRules-IsValidated Datatype.sast_finding h = refl
HasRules-IsValidated _ h = ground arith

validate_ruleset-nil :
    (cfg : Finding) (kind : RuleSetKind) (rs : RuleSet)
    → cfg.rescoring_ruleset ≡ some rs
    → validate_ruleset cfg kind ≡ []
    → validate_rescoring_ruleset cfg rs ≡ []
unfolding validate_ruleset categorisation_by_id?
validate_ruleset-nil cfg kind rs e h = by_kind (is_kind kind rs.kind) (rw e at h)
  where
    by_kind :
        (b : Bool)
        → (if b then validate_rescoring_ruleset cfg rs else Violation.wrong_ruleset ∷ []) ≡ []
        → validate_rescoring_ruleset cfg rs ≡ []
    by_kind true h = h
    by_kind false h = cc

validate-ruleset :
    (cfg : Finding) (rs : RuleSet)
    → validate cfg ≡ ok tt
    → HasRules cfg.type
    → cfg.rescoring_ruleset ≡ some rs
    → validate_rescoring_ruleset cfg rs ≡ []
unfolding more_violations
validate-ruleset cfg rs valid rules e =
    by_type cfg.type rules (validate-parts cfg valid (HasRules-IsValidated cfg.type rules)).1
  where
    by_type :
        (type : Datatype)
        → HasRules type
        → elim type [
          | Datatype.sast_finding ↦ validate_ruleset cfg RuleSetKind.sast_rules
          | Datatype.vulnerability_finding ↦
              violation_if
                (not (is_some (none_categorisation cfg)))
                Violation.no_none_categorisation
              ++ validate_ruleset cfg RuleSetKind.cve_rules
          | _ ↦ []
        ]
          ≡ []
        → validate_rescoring_ruleset cfg rs ≡ []
    by_type Datatype.sast_finding h v = validate_ruleset-nil cfg RuleSetKind.sast_rules rs e v
    by_type Datatype.vulnerability_finding h v =
        validate_ruleset-nil cfg RuleSetKind.cve_rules rs e (append-nil_inv _ _ v).1
    by_type _ h v = absurd (ground arith)

-- For a configuration that passed `_validate`, with a rule set whose rules give their operations as
-- texts and whose orders list every categorisation, `rescore_finding` gives one of the
-- configuration's categorisations, whichever of the rules are applied and in whichever order, from
-- whichever categorisation of the configuration.
pub validate-rescore_total :
    (cfg : Finding) (rs : RuleSet) (rules : List Rule) (current : FindingCategorisation)
    → validate cfg ≡ ok tt
    → HasRules cfg.type
    → cfg.rescoring_ruleset ≡ some rs
    → All (λ rule. IsNamed rule.operation) rs.rules
    → All (λ entry. ListsAll cfg entry.1) (or_no_operations rs.operations)
    → All (λ rule. Member rule rs.rules) rules
    → Member current cfg.categorisations
    → (c : FindingCategorisation) × Member c cfg.categorisations
      × (rescore_finding cfg current rules rs.operations ≡ ok c)
unfolding rescore_finding validate_rescoring_ruleset
validate-rescore_total cfg rs rules current valid has e is_named covers chosen m =
    let operations = or_no_operations rs.operations in
    let (in_operations, in_rules) = append-nil_inv _ _ (validate-ruleset cfg rs valid has e) in
    let leads = validate_operations-Leads cfg operations in_operations covers in
    let resolves = validate_rules-Resolves cfg operations rs.rules in_rules is_named leads in
    apply_rules_total cfg operations current rules
      (All-map_of (λ rule. Member rule rs.rules) (Resolves cfg operations)
        (λ rule. All→Member (Resolves cfg operations) rs.rules rule resolves) rules chosen)
      m
